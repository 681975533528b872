-- ===== src/Fs/Write.antt =====
-- `writei`: the contents of the file afterwards.
use xv.Prelude.{
  ℕ, zero, suc, ◌+◌, ◌-◌, ◌*◌, ◌/◌, ◌%◌, ◌^◌, ◌≤◌, ◌<◌, ◌≡◌, refl, ◌∙◌, ◌≢◌, ◌⊎◌, inl, inr, false,
  arith, ltb, ◌||◌, ◌==◌, if◌then◌else◌, Bool-cases, some, none, ltb→lt,
}
use xv.Panic.{ok, Result}
use xv.Fs.{Inode, Superblock, Blocks, maxfile, bsize}
use xv.Fs.Bitmap.{IsFs}
use xv.Fs.Bmap.{Mapped, bmap_lem}
use xv.Fs.Contents.{IsFile}
use xv.Fs.Transfer.{Transfer, min, copy_in, writei_loop, writei}
use mathlib.Core.Path.{subst}
use xv.Fs.WriteBlock.{Wrote, Wrote-nothing, Wrote-both, Wrote-full, Wrote-block}

module _ (user : ℕ → ℕ) (copied : ℕ → ℕ → ℕ) (sb : Superblock) (small : sb.size < 4294967296)
    (byte : (a : ℕ) → user a < 256) where
  ended :
      (a b a' b' : ℕ) (ip : Inode) (d : Blocks)
      → a ≡ a'
      → b ≡ b'
      → ◌≡◌ {A = Result Transfer}
          (ok (record { tot = a; off = b; ip = ip; disk = d }))
          (ok (record { tot = a'; off = b'; ip = ip; disk = d }))
  ended a b a' b' ip d p q = rw (p, q) refl

  -- The loop ends after `t` more bytes.
  abbrev Ran : Inode → Blocks → ℕ → ℕ → ℕ → ℕ → Result Transfer → Type 0
  Ran ip d src off tot n r =
      (t : ℕ) × (ip' : Inode) × (d' : Blocks) × (r
        ≡ ok (record { tot = tot + t; off = off + t; ip = ip'; disk = d' }))
      × Wrote user copied sb ip d src off (n - tot) t ip' d'

  Ran-no_more :
      (ip ip' : Inode) (d d' : Blocks) (src off tot n : ℕ) (r : Result Transfer)
      → r ≡ ok (record { tot = tot; off = off; ip = ip'; disk = d' })
      → Wrote user copied sb ip d src off (n - tot) 0 ip' d'
      → Ran ip d src off tot n r
  Ran-no_more ip ip' d d' src off tot n r e w =
      (0, ip', d', e ∙ ended _ _ _ _ ip' d' (omega arith) (omega arith), w)

  Ran-on :
      (ip ip1 : Inode) (d d1 : Blocks) (src off tot n m : ℕ) (r : Result Transfer)
      → off + (n - tot) ≤ maxfile * bsize
      → m ≤ n - tot
      → Wrote user copied sb ip d src off m m ip1 d1
      → Ran ip1 d1 (src + m) (off + m) (tot + m) n r
      → Ran ip d src off tot n r
  Ran-on ip ip1 d d1 src off tot n m r fits le w (t, ip', d', e, rest) =
      let left : n - (tot + m) ≡ n - tot - m = omega arith in
      (
        m + t,
        ip',
        d',
        e ∙ ended _ _ _ _ ip' d' (omega arith) (omega arith),
        Wrote-both user copied sb small byte ip ip1 ip' d d1 d' src off (n - tot) m t fits le w
            (subst (λ k. Wrote user copied sb ip1 d1 (src + m) (off + m) k t ip' d') left rest),
      )

  -- From any round on: `rounds` blocks are enough for what is left.
  writei_loop-Ran :
      (rounds : ℕ) (ip : Inode) (d : Blocks) (src off tot n : ℕ)
      → IsFs sb d
      → IsFile sb ip d
      → tot ≤ n
      → off + (n - tot) ≤ maxfile * bsize
      → n - tot ≤ rounds * bsize - off % bsize
      → Ran ip d src off tot n (writei_loop user copied sb rounds ip d src off tot n)
  unfolding writei_loop
  writei_loop-Ran zero ip d src off tot n v f le fits enough =
      Ran-no_more ip ip d d src off tot n _ refl
        (Wrote-nothing user copied sb small byte ip d src off (n - tot) v f (inl (omega arith)))
  writei_loop-Ran (suc rounds) ip d src off tot n v f le fits enough =
      let m : ℕ = min (n - tot) (bsize - off % bsize) in
      let le_left : m ≤ n - tot = ground arith in
      let in_block : off % bsize + m ≤ bsize = ground arith in
      elim (Bool-cases (ltb tot n)) [
        | inr done ↦ Ran-no_more ip ip d d src off tot n _ (rw done refl) (
            Wrote-nothing user copied sb small byte ip d src off (n - tot) v f (inl (ground arith)))
        | inl more ↦
            let below : off < maxfile * bsize = ground arith in
            elim (bmap_lem sb small ip (off / bsize) d v (f.inode)) [
              | inl (beyond, e) ↦ absurd (ground arith)
              | inr (addr, ip', d', e, w) ↦ elim (Bool-cases (addr == 0)) [
                | inl full ↦ Ran-no_more ip ip' d d' src off tot n _ (rw (more, e, full) refl) (
                    Wrote-full user copied sb small byte ip ip' d d' src off (n - tot) f
                      (subst (λ a. Mapped sb ip (off / bsize) d a ip' d') (ground arith) w) below)
                | inr got ↦
                    let c : ℕ = min m (copied src m) in
                    let le_c : c ≤ m = ground arith in
                    let ne : addr ≢ 0 = ground arith in
                    elim (Bool-cases (ltb (copied src m) m)) [
                      | inl failed ↦
                          Ran-no_more ip ip' d (copy_in user copied sb d' addr (off % bsize) src m)
                            src off tot n _ (rw (more, e, got, failed) refl)
                            (Wrote-block user copied sb small byte ip ip' d d' src off (n - tot) m c
                              addr f w below ne in_block le_c le_left 0 (omega arith)
                              (inr (src, m, ltb→lt _ _ failed)))
                      | inr whole ↦
                          let all : m ≤ c = ground arith in
                          let done =
                            Wrote-block user copied sb small byte ip ip' d d' src off m m c addr f w
                              below ne in_block le_c (omega arith) m all (inl refl) in
                          let rest =
                            writei_loop-Ran rounds ip'
                              (copy_in user copied sb d' addr (off % bsize) src m) (src + m)
                              (off + m) (tot + m) n (done.fs) (done.file) (ground arith)
                              (ground arith) (ground arith) in
                          rw (more, e, got, whole)
                            (Ran-on ip ip' d _ src off tot n m _ fits le_left done rest)
                    ]
              ]
            ]
      ]

  whole_write :
      (ip : Inode) (d : Blocks) (src off n t : ℕ) (ip' : Inode) (d' : Blocks)
      → (ltb ip.size off
          || ltb ((off + n) % 2 ^ 32) off
          || ltb (maxfile * bsize) ((off + n) % 2 ^ 32))
        ≡ false
      → writei_loop user copied sb (n / bsize + 2) ip d src off 0 n
        ≡ ok (record { tot = 0 + t; off = off + t; ip = ip'; disk = d' })
      → writei user copied sb ip d src off n
        ≡ ok (some t, (if ltb ip.size (off + t) then record ip' { size = off + t } else ip'), d')
  unfolding writei
  whole_write ip d src off n t ip' d' good e =
      let zero_left : 0 + t ≡ t = omega arith in rw (good, e, zero_left) refl

  -- On a file system and a file in order, with fewer than 2^32 blocks, memory of bytes, and `off`
  -- and `n` below 2^32: `writei` refuses a range that starts past the end of the file, wraps
  -- around 2^32 or ends past the largest file, and then changes nothing. Otherwise it writes `t ≤
  -- n` bytes, all `n` unless the disk is full or a copy fails: the bytes `[off, off + t)` of the
  -- file are the user's, the bytes outside `[off, off + n)` are as before, the file and the file
  -- system stay in order, and the size has grown to `off + t` if it was less.
  pub writei-Wrote :
      (ip : Inode) (d : Blocks) (src off n : ℕ)
      → IsFs sb d
      → IsFile sb ip d
      → off < 2 ^ 32
      → n < 2 ^ 32
      → ((((ip.size < off) ⊎ (2 ^ 32 ≤ off + n)) ⊎ (maxfile * bsize < off + n))
          × (writei user copied sb ip d src off n ≡ ok (none, ip, d)))
        ⊎ ((off + n ≤ maxfile * bsize)
            × ((t : ℕ) × (ip' : Inode) × (d' : Blocks) × (writei user copied sb ip d src off n
                  ≡ ok (
                    some t,
                    (if ltb ip.size (off + t) then record ip' { size = off + t } else ip'),
                    d',
                  ))
                × Wrote user copied sb ip d src off n t ip' d'))
  unfolding writei
  writei-Wrote ip d src off n v f off_lt n_lt =
      elim (Bool-cases (
        ltb ip.size off
        || ltb ((off + n) % 2 ^ 32) off
        || ltb (maxfile * bsize) ((off + n) % 2 ^ 32))) [
          | inl bad ↦ inl (ground arith, rw bad refl)
          | inr good ↦
              let fits : off + n ≤ maxfile * bsize = ground arith in
              let (t, ip', d', e, w) =
                writei_loop-Ran (n / bsize + 2) ip d src off 0 n v f (omega arith) (omega arith)
                  (omega arith) in
              let left : n - 0 ≡ n = omega arith in
              inr (
                fits,
                (
                  t,
                  ip',
                  d',
                  whole_write ip d src off n t ip' d' good e,
                  subst (λ k. Wrote user copied sb ip d src off k t ip' d') left w,
                ),
              )
        ]
