-- ===== src/Fs/Roundtrip.antt =====
-- `readi` after `writei`.
use xv.Prelude.{
  ℕ, ◌+◌, ◌-◌, ◌*◌, ◌/◌, ◌^◌, ◌≤◌, ◌<◌, ◌≡◌, sym, ap, ◌∙◌, ◌≢◌, ◌⊎◌, inl, inr, arith, ltb,
  if◌then◌else◌, Bool-cases, Option, some, none,
}
use xv.Panic.{ok, panic, Result}
use xv.Fs.{Inode, Superblock, Blocks, maxfile, bsize}
use xv.Fs.Bitmap.{IsFs}
use xv.Fs.Bmap.{block_of}
use xv.Fs.Contents.{file_byte, IsFile, IsFile-size}
use xv.Fs.WriteBlock.{Wrote}
use xv.Fs.Write.{writei-Wrote}
use xv.Fs.Read.{ReadEnd, readi-ReadEnd}
use xv.Fs.Transfer.{readi, writei}
use mathlib.Core.Path.{subst}

abbrev from_ok {ℓ} : {A : Type ℓ} → A → Result A → A
from_ok a (ok b) = b
from_ok a (panic e) = a

abbrev get : ℕ → Option ℕ → ℕ
get a none = a
get a (some b) = b

abbrev Out : Type 0
Out = Option ℕ × Inode × Blocks

module _ (user : ℕ → ℕ) (copied copied' : ℕ → ℕ → ℕ) (sb : Superblock)
    (small : sb.size < 4294967296) (byte : (a : ℕ) → user a < 256)
    (whole : (a m : ℕ) → m ≤ copied' a m) where
  -- The file after a write of all `n` bytes.
  abbrev Filled : ℕ → ℕ → ℕ → Inode → Blocks → Type 0
  Filled src off n ip' d' =
      IsFs sb d'
      × IsFile sb ip' d'
      × (off + n ≤ ip'.size)
      × (ip'.size ≤ maxfile * bsize)
      × ((o : ℕ) → off ≤ o → o < off + n → file_byte ip' d' o ≡ user (src + (o - off)))
      × ((o : ℕ) → off ≤ o → o < off + n → block_of ip' d' (o / bsize) ≢ 0)

  filled :
      (ip ip1 : Inode) (d d1 : Blocks) (src off n : ℕ)
      → off + n ≤ maxfile * bsize
      → ip.size ≤ maxfile * bsize
      → Wrote user copied sb ip d src off n n ip1 d1
      → Filled src off n (if ltb ip.size (off + n) then record ip1 { size = off + n } else ip1) d1
  filled ip ip1 d d1 src off n fits le w = elim (Bool-cases (ltb ip.size (off + n))) [
    | inl longer ↦
        rw longer
          (w.fs, IsFile-size sb ip1 d1 (off + n) (w.file), omega arith, fits, w.written, w.blocks)
    | inr within ↦
        rw within (
          w.fs,
          w.file,
          ground (arith, w.same_size),
          omega (arith, w.same_size),
          w.written,
          w.blocks,
        )
  ]

  -- The result of a whole write determines the file.
  returned :
      (ip : Inode) (d : Blocks) (n t : ℕ) (ip' ip1 : Inode) (d' d1 : Blocks)
      → ◌≡◌ {A = Result Out} (ok (some n, ip', d')) (ok (some t, ip1, d1))
      → (t ≡ n) × (ip1 ≡ ip') × (d1 ≡ d')
  returned ip d n t ip' ip1 d' d1 e =
      let p : ◌≡◌ {A = Out} (some n, ip', d') (some t, ip1, d1) = ap (from_ok (none, ip, d)) e in
      (sym (ap (λ x. get n (x.0)) p), sym (ap (λ x. x.1) p), sym (ap (λ x. x.2) p))

  written :
      (ip ip' : Inode) (d d' : Blocks) (src off n : ℕ)
      → IsFs sb d
      → IsFile sb ip d
      → ip.size ≤ maxfile * bsize
      → off < 2 ^ 32
      → n < 2 ^ 32
      → writei user copied sb ip d src off n ≡ ok (some n, ip', d')
      → Filled src off n ip' d'
  written ip ip' d d' src off n v f le off_lt n_lt e =
      elim (writei-Wrote user copied sb small byte ip d src off n v f off_lt n_lt) [
        | inl (bad, refused) ↦ absurd (let q = sym refused ∙ e in cc)
        | inr (fits, (t, ip1, d1, done, w)) ↦
            let (same, same_ip, same_d) = returned ip d n t ip' _ d' d1 (sym e ∙ done) in
            let sized : ℕ → Inode =
              λ k. if ltb ip.size (off + k) then record ip1 { size = off + k } else ip1 in
            let w' = subst (λ k. Wrote user copied sb ip d src off n k ip1 d1) same w in
            subst (λ i. Filled src off n i d') (ap sized (sym same) ∙ same_ip)
              (subst (λ x. Filled src off n (sized n) x) same_d
                (filled ip ip1 d d1 src off n fits le w'))
      ]

  -- A read that has come to the end of what was written.
  read_back :
      (ip' : Inode) (d' : Blocks) (mem : ℕ → ℕ) (src dst off n : ℕ)
      → ((o : ℕ) → off ≤ o → o < off + n → file_byte ip' d' o ≡ user (src + (o - off)))
      → ((o : ℕ) → off ≤ o → o < off + n → block_of ip' d' (o / bsize) ≢ 0)
      → (r : Result (Option ℕ × Inode × Blocks × (ℕ → ℕ)))
      → ReadEnd copied' sb ip' d' mem dst off n r
      → (ip'' : Inode) × (d'' : Blocks) × (mem' : ℕ → ℕ) × (r ≡ ok (some n, ip'', d'', mem'))
        × ((i : ℕ) → i < n → mem' (dst + i) ≡ user (src + i))
        × ((a : ℕ) → (a < dst) ⊎ (dst + n ≤ a) → mem' a ≡ mem a)
  read_back ip' d' mem src dst off n bytes blocks r (t, ip'', d'', mem', q, end) = elim end [
    | inr (e, (a, m, failed)) ↦ absurd (omega (arith, whole a m))
    | inl (e, why) ↦
        let all : t ≡ n = elim why [
          | inl done ↦ done
          | inr (gap, full) ↦ elim (Bool-cases (ltb t n)) [
            | inl early ↦ absurd (blocks (off + t) (omega arith) (ground arith) gap)
            | inr late ↦ ground (arith, q.at_most)
          ]
        ] in
        (
          ip'',
          d'',
          mem',
          e ∙ ap (λ k. ok (some k, ip'', d'', mem')) all,
          λ i lt.
              let place : off + i - off ≡ i = omega arith in
              q.got i (omega arith)
              ∙ bytes (off + i) (omega arith) (omega arith)
              ∙ ap (λ k. user (src + k)) place,
          q.memory,
        )
  ]

  -- On a file system and a file in order, with fewer than 2^32 blocks, memory of bytes, and `off`
  -- and `n` below 2^32: if `writei` writes all `n` bytes of a range, then `readi` of that range
  -- into memory where no copy fails returns all `n`, the memory holds there what was written, and
  -- nothing else in it has changed.
  pub readi-writei :
      (ip ip' : Inode) (d d' : Blocks) (mem : ℕ → ℕ) (src dst off n : ℕ)
      → IsFs sb d
      → IsFile sb ip d
      → ip.size ≤ maxfile * bsize
      → off < 2 ^ 32
      → n < 2 ^ 32
      → writei user copied sb ip d src off n ≡ ok (some n, ip', d')
      → (ip'' : Inode) × (d'' : Blocks) × (mem' : ℕ → ℕ) × (readi copied' sb ip' d' mem dst off n
          ≡ ok (some n, ip'', d'', mem'))
        × ((i : ℕ) → i < n → mem' (dst + i) ≡ user (src + i))
        × ((a : ℕ) → (a < dst) ⊎ (dst + n ≤ a) → mem' a ≡ mem a)
  readi-writei ip ip' d d' mem src dst off n v f le off_lt n_lt e =
      let (fs', f', long, le', bytes, blocks) =
        written ip ip' d d' src off n v f le off_lt n_lt e in
      elim (readi-ReadEnd copied' sb small ip' d' mem dst off n fs' f' le' off_lt n_lt) [
        | inl (bad, nothing) ↦ absurd (elim bad [ inl lo ↦ omega arith | inr hi ↦ omega arith ])
        | inr end ↦
            let within : (if ltb ip'.size (off + n) then ip'.size - off else n) ≡ n =
              ground arith in
            read_back ip' d' mem src dst off n bytes blocks _ (
              subst
                (λ k.
                  ReadEnd copied' sb ip' d' mem dst off k (readi copied' sb ip' d' mem dst off n))
                within end)
      ]
