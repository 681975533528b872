-- ===== src/Fs/Read.antt =====
-- `readi`: what the memory holds afterwards, and a read of what was written.
use xv.Prelude.{
  ℕ, zero, suc, ◌+◌, ◌-◌, ◌*◌, ◌/◌, ◌%◌, ◌^◌, ◌≤◌, ◌<◌, ◌≡◌, refl, sym, ap, ◌∙◌, ◌≢◌, ◌⊎◌, inl, inr,
  true, false, arith, ltb, leb, ltb→lt, ◌&&◌, ◌||◌, ◌==◌, if◌then◌else◌, Bool-cases, Option, some,
  none,
}
use xv.Panic.{ok, Result}
use xv.Fs.{Inode, Superblock, Blocks, maxfile, bsize}
use xv.Fs.Bitmap.{IsFs, is_used}
use xv.Fs.Bmap.{block_of, Mapped, bmap_lem}
use xv.Fs.Contents.{file_byte, IsFile, bmap-IsFile, bmap-file_byte, bmap-stays, bmap-missing}
use xv.Fs.Transfer.{min, paste, copy_out, readi_loop, readi}
use mathlib.Core.Path.{subst}

-- A read at `off` to `dst` that has got `t` bytes, out of at most `n`: the contents of the file are as before.
pub record Reading (sb : Superblock) (ip : Inode) (d : Blocks) (mem : ℕ → ℕ) (dst off n t : ℕ)
    (ip' : Inode) (d' : Blocks) (mem' : ℕ → ℕ) : Type 0 where
  pub fs : IsFs sb d'
  pub file : IsFile sb ip' d'
  pub same_size : ip'.size ≡ ip.size
  pub contents : (o : ℕ) → o < maxfile * bsize → file_byte ip' d' o ≡ file_byte ip d o
  pub keeps : (k : ℕ) → k < maxfile → block_of ip d k ≢ 0 → block_of ip' d' k ≢ 0
  pub at_most : t ≤ n
  pub got : (i : ℕ) → i < t → mem' (dst + i) ≡ file_byte ip d (off + i)
  pub memory : (a : ℕ) → (a < dst) ⊎ (dst + n ≤ a) → mem' a ≡ mem a

module _ (copied : ℕ → ℕ → ℕ) (sb : Superblock) (ip : Inode) (d : Blocks) (mem : ℕ → ℕ)
    (dst off n : ℕ) where
  -- How a read ends: after `t` bytes, which are all `n` unless the next block is missing and no
  -- block is free; or with -1, when a copy fails.
  abbrev pub ReadEnd : Result (Option ℕ × Inode × Blocks × (ℕ → ℕ)) → Type 0
  ReadEnd r =
      (t : ℕ) × (ip' : Inode) × (d' : Blocks) × (mem' : ℕ → ℕ) × Reading sb ip d mem dst off n t ip'
        d' mem'
      × (((r ≡ ok (some t, ip', d', mem'))
            × ((t ≡ n)
                ⊎ ((block_of ip d ((off + t) / bsize) ≡ 0)
                    × ((x : ℕ) → x < sb.size → is_used sb d' x ≡ true))))
          ⊎ ((r ≡ ok (none, ip', d', mem')) × ((a : ℕ) × (m : ℕ) × (copied a m < m))))

module _ (copied : ℕ → ℕ → ℕ) (sb : Superblock) (small : sb.size < 4294967296) (ip : Inode)
    (d : Blocks) (mem : ℕ → ℕ) (dst off n : ℕ) (fits : off + n ≤ maxfile * bsize) where
  Reading-bmap :
      (t addr : ℕ) (ip1 ip2 : Inode) (d1 d2 : Blocks) (mem1 : ℕ → ℕ)
      → t < n
      → Reading sb ip d mem dst off n t ip1 d1 mem1
      → Mapped sb ip1 ((off + t) / bsize) d1 addr ip2 d2
      → Reading sb ip d mem dst off n t ip2 d2 mem1
  Reading-bmap t addr ip1 ip2 d1 d2 mem1 lt q w =
      let bn : ℕ = (off + t) / bsize in
      let below : bn < maxfile = omega arith in
      record {
        fs = w.fs;
        file = bmap-IsFile sb ip1 ip2 d1 d2 bn addr (q.file) w below;
        same_size = w.same_size ∙ q.same_size;
        contents = λ o lt_o.
            bmap-file_byte sb ip1 ip2 d1 d2 bn addr (q.file) w below o lt_o ∙ q.contents o lt_o;
        keeps = λ k lt_k ne z. q.keeps k lt_k ne (
            sym (bmap-stays sb ip1 ip2 d1 d2 bn addr (q.file) w below k lt_k (q.keeps k lt_k ne))
            ∙ z);
        at_most = q.at_most;
        got = q.got;
        memory = q.memory;
      }

  Reading-copy :
      (t c t' addr : ℕ) (ip1 : Inode) (d1 : Blocks) (mem1 : ℕ → ℕ)
      → Reading sb ip d mem dst off n t ip1 d1 mem1
      → block_of ip1 d1 ((off + t) / bsize) ≡ addr
      → addr ≢ 0
      → (off + t) % bsize + c ≤ bsize
      → t + c ≤ n
      → t' ≤ t + c
      → Reading sb ip d mem dst off n t' ip1 d1
          (paste mem1 (dst + t) c (λ i. d1 addr ((off + t) % bsize + i)))
  Reading-copy t c t' addr ip1 d1 mem1 q e ne in_block le le_t = record {
    fs = q.fs;
    file = q.file;
    same_size = q.same_size;
    contents = q.contents;
    keeps = q.keeps;
    at_most = omega arith;
    got = λ i lt. elim (Bool-cases (ltb i t)) [
      | inl old ↦ ground (arith, q.got i (ground arith))
      | inr new ↦
          let low : t ≤ i = ground arith in
          let at_block : (off + i) / bsize ≡ (off + t) / bsize = omega arith in
          let place : (off + t) % bsize + (dst + i - (dst + t)) ≡ (off + i) % bsize = omega arith in
          let inside : (leb (dst + t) (dst + i) && ltb (dst + i) (dst + t + c)) ≡ true =
            ground arith in
          let held : block_of ip1 d1 ((off + i) / bsize) ≡ addr =
            ap (block_of ip1 d1) at_block ∙ e in
          let there : (block_of ip1 d1 ((off + i) / bsize) == 0) ≡ false =
            ap (λ x. x == 0) held ∙ ground arith in
          let byte : file_byte ip1 d1 (off + i) ≡ d1 addr ((off + i) % bsize) =
            rw there (ap (λ x. d1 x ((off + i) % bsize)) held) in
          rw inside (ap (d1 addr) place ∙ sym byte ∙ q.contents (off + i) (omega arith))
    ];
    memory = λ a apart.
        let outside : (leb (dst + t) a && ltb a (dst + t + c)) ≡ false = ground arith in
        rw outside (q.memory a apart);
  }

  missing :
      (t addr : ℕ) (ip1 ip2 : Inode) (d1 d2 : Blocks) (mem1 : ℕ → ℕ)
      → t < n
      → Reading sb ip d mem dst off n t ip1 d1 mem1
      → Mapped sb ip1 ((off + t) / bsize) d1 addr ip2 d2
      → addr ≡ 0
      → block_of ip d ((off + t) / bsize) ≡ 0
  missing t addr ip1 ip2 d1 d2 mem1 lt q w z =
      elim (Bool-cases (block_of ip d ((off + t) / bsize) == 0)) [
        | inl none_there ↦ ground arith
        | inr there ↦ absurd (
            q.keeps ((off + t) / bsize) (omega arith) (ground arith)
              (bmap-missing sb ip1 ip2 d1 d2 ((off + t) / bsize) addr (q.file) w (omega arith) z))
      ]

  moved :
      (rounds a a' b b' t : ℕ) (ip1 : Inode) (d1 : Blocks) (mem1 : ℕ → ℕ)
      → a ≡ a'
      → b ≡ b'
      → ReadEnd copied sb ip d mem dst off n (readi_loop copied sb rounds ip1 d1 mem1 a b t n)
      → ReadEnd copied sb ip d mem dst off n (readi_loop copied sb rounds ip1 d1 mem1 a' b' t n)
  moved rounds a a' b b' t ip1 d1 mem1 p q h =
      subst
        (λ x.
          ReadEnd copied sb ip d mem dst off n (readi_loop copied sb rounds ip1 d1 mem1 x b' t n))
        p
        (subst
          (λ y.
            ReadEnd copied sb ip d mem dst off n (readi_loop copied sb rounds ip1 d1 mem1 a y t n))
          q h)

  readi_loop-ReadEnd :
      (rounds t : ℕ) (ip1 : Inode) (d1 : Blocks) (mem1 : ℕ → ℕ)
      → Reading sb ip d mem dst off n t ip1 d1 mem1
      → n - t ≤ rounds * bsize - (off + t) % bsize
      → ReadEnd copied sb ip d mem dst off n
          (readi_loop copied sb rounds ip1 d1 mem1 (dst + t) (off + t) t n)
  unfolding readi_loop
  readi_loop-ReadEnd zero t ip1 d1 mem1 q enough =
      (t, ip1, d1, mem1, q, inl (refl, inl (omega (arith, q.at_most))))
  readi_loop-ReadEnd (suc rounds) t ip1 d1 mem1 q enough = elim (Bool-cases (ltb t n)) [
    | inr done ↦ (t, ip1, d1, mem1, q, inl (rw done refl, inl (ground (arith, q.at_most))))
    | inl more ↦
        let lt : t < n = ground arith in
        let m : ℕ = min (n - t) (bsize - (off + t) % bsize) in
        let le_left : m ≤ n - t = ground arith in
        let in_block : (off + t) % bsize + m ≤ bsize = ground arith in
        elim (bmap_lem sb small ip1 ((off + t) / bsize) d1 (q.fs) (q.file.inode)) [
          | inl (beyond, e) ↦ absurd (omega arith)
          | inr (addr, ip2, d2, e, w) ↦
              let q2 = Reading-bmap t addr ip1 ip2 d1 d2 mem1 lt q w in
              elim (Bool-cases (addr == 0)) [
                | inl full ↦
                    let z : addr ≡ 0 = ground arith in
                    (
                      t,
                      ip2,
                      d2,
                      mem1,
                      q2,
                      inl (
                        rw (more, e, full) refl,
                        inr (missing t addr ip1 ip2 d1 d2 mem1 lt q w z, w.full z),
                      ),
                    )
                | inr some_block ↦
                    let ne : addr ≢ 0 = ground arith in
                    let c : ℕ = min m (copied (dst + t) m) in
                    let le_c : c ≤ m = ground arith in
                    elim (Bool-cases (ltb (copied (dst + t) m) m)) [
                      | inl failed ↦ (
                        t,
                        ip2,
                        d2,
                        copy_out copied sb mem1 (dst + t) d2 addr ((off + t) % bsize) m,
                        Reading-copy t c t addr ip2 d2 mem1 q2 (w.result) ne (omega arith)
                            (omega arith) (omega arith),
                        inr (
                          rw (more, e, some_block, failed) refl,
                          (dst + t, m, ltb→lt _ _ failed),
                        ),
                      )
                      | inr whole ↦
                          let all : m ≤ c = ground arith in
                          let q3 =
                            Reading-copy t c (t + m) addr ip2 d2 mem1 q2 (w.result) ne (omega arith)
                              (omega arith) (omega arith) in
                          let rest =
                            readi_loop-ReadEnd rounds (t + m) ip2 d2
                              (copy_out copied sb mem1 (dst + t) d2 addr ((off + t) % bsize) m) q3
                              (ground arith) in
                          rw (more, e, some_block, whole)
                            (moved rounds _ _ _ _ (t + m) ip2 d2 _ (omega arith) (omega arith) rest)
                    ]
              ]
        ]
  ]

module _ (copied : ℕ → ℕ → ℕ) (sb : Superblock) (small : sb.size < 4294967296) where
  Reading-nothing :
      (sb : Superblock) (ip : Inode) (d : Blocks) (mem : ℕ → ℕ) (dst off n : ℕ)
      → IsFs sb d
      → IsFile sb ip d
      → Reading sb ip d mem dst off n 0 ip d mem
  Reading-nothing sb ip d mem dst off n v f = record {
    fs = v;
    file = f;
    same_size = refl;
    contents = λ o lt. refl;
    keeps = λ k lt ne. ne;
    at_most = omega arith;
    got = λ i lt. absurd (omega arith);
    memory = λ a apart. refl;
  }

  -- On a file system and a file in order, with fewer than 2^32 blocks, a size within the largest
  -- file, and `off` and `n` below 2^32: `readi` reads nothing from past the end of the file or
  -- from a range that wraps around 2^32. Otherwise it reads as much of the range as lies before
  -- the end, in order: it returns the number of bytes, and the memory holds the bytes of the file
  -- and is as before outside the range; the number is less only where a block is missing and no
  -- block is free. If a copy fails it returns -1. The contents of the file do not change.
  pub readi-ReadEnd :
      (ip : Inode) (d : Blocks) (mem : ℕ → ℕ) (dst off n : ℕ)
      → IsFs sb d
      → IsFile sb ip d
      → ip.size ≤ maxfile * bsize
      → off < 2 ^ 32
      → n < 2 ^ 32
      → (((ip.size < off) ⊎ (2 ^ 32 ≤ off + n))
          × (readi copied sb ip d mem dst off n ≡ ok (some 0, ip, d, mem)))
        ⊎ ReadEnd copied sb ip d mem dst off
            (if ltb ip.size (off + n) then ip.size - off else n)
            (readi copied sb ip d mem dst off n)
  unfolding readi
  readi-ReadEnd ip d mem dst off n v f le off_lt n_lt =
      elim (Bool-cases (ltb ip.size off || ltb ((off + n) % 2 ^ 32) off)) [
        | inl bad ↦ inl (ground arith, rw bad refl)
        | inr good ↦
            let no_wrap : (off + n) % 2 ^ 32 ≡ off + n = ground arith in
            let left : ℕ = if ltb ip.size (off + n) then ip.size - off else n in
            let fits : off + left ≤ maxfile * bsize = ground arith in
            inr (
              rw (good, no_wrap)
                (moved copied sb small ip d mem dst off left fits (left / bsize + 2) (dst + 0) dst
                  (off + 0) off 0 ip d mem (omega arith) (omega arith)
                  (readi_loop-ReadEnd copied sb small ip d mem dst off left fits (left / bsize + 2)
                    0 ip d mem (Reading-nothing sb ip d mem dst off left v f) (omega arith))))
      ]
