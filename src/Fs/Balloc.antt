-- ===== src/Fs/Balloc.antt =====
-- `balloc` and `bfree`: a free block is taken, a used one is given back.
use Prim.Native.Nat.{bit_and}
use xv.Prelude.{
  ℕ, ◌-◌, ◌/◌, ◌%◌, ◌^◌, ◌≤◌, ◌<◌, ◌≡◌, ap, ◌∙◌, ◌≢◌, inl, inr, true, false, not, arith, ◌==◌,
  if◌then◌else◌, Bool-cases, zero, suc, ◌+◌, ◌*◌, refl, sym, ◌⊎◌, ◌&&◌, ◌||◌, Option, none, some,
  ltb, ltb→lt,
}
use xv.Fs.{
  Superblock, Blocks, bpb, bblock, balloc_scan, balloc_loop, mark_used, bzero, balloc, bsize, bfree,
}
use xv.Fs.Bits.{is_clear, set_bit, clear_bit}
use mathlib.Core.Path.{subst}
use xv.Fs.Bitmap.{
  IsFs, is_used, set_on, set_off, set_used, set_clear, map_same, IsFs-outside, byte_of, bit_of, on,
  off,
}
use xv.Panic.{panic, ok}

-- How a scan of one block of the map ends.
abbrev ScanEnd : Superblock → Blocks → ℕ → ℕ → Option ℕ → Type 0
ScanEnd sb d b bi none = (k : ℕ) → bi ≤ k → k < bpb → b + k < sb.size → is_used sb d (b + k) ≡ true
ScanEnd sb d b bi (some k) = (k < bpb) × (b + k < sb.size) × (is_used sb d (b + k) ≡ false)

used_at :
    (sb : Superblock) (d : Blocks) (b bi : ℕ)
    → b % bpb ≡ 0
    → bi < bpb
    → is_used sb d (b + bi) ≡ not (bit_and (d (bblock sb b) (bi / 8)) (2 ^ (bi % 8)) == 0)
used_at sb d b bi start lt =
    let e : bblock sb (b + bi) ≡ bblock sb b = omega arith in
    let f : (b + bi) % bpb ≡ bi = omega arith in rw (e, f)

balloc_scan-ScanEnd :
    (rounds : ℕ) (sb : Superblock) (d : Blocks) (b bi : ℕ)
    → b % bpb ≡ 0
    → bpb ≤ bi + rounds
    → ScanEnd sb d b bi (balloc_scan rounds sb b bi d)
unfolding balloc_scan
balloc_scan-ScanEnd zero sb d b bi start enough = λ k low high lt. absurd (omega arith)
balloc_scan-ScanEnd (suc rounds) sb d b bi start enough =
    elim (Bool-cases (not (ltb bi bpb && ltb (b + bi) sb.size))) [
      | inl stop ↦ rw stop (λ k low high lt. absurd (ground arith))
      | inr go ↦ elim (Bool-cases (bit_and (d (bblock sb b) (bi / 8)) (2 ^ (bi % 8)) == 0)) [
        | inl free ↦
            rw (go, free)
              (ground arith, ground arith, used_at sb d b bi start (ground arith) ∙ rw free)
        | inr taken ↦
            rw (go, taken)
              (next (balloc_scan rounds sb b (bi + 1) d) taken (ground arith)
                (balloc_scan-ScanEnd rounds sb d b (bi + 1) start (omega arith)))
      ]
    ]
  where
    next :
        (r : Option ℕ)
        → (bit_and (d (bblock sb b) (bi / 8)) (2 ^ (bi % 8)) == 0) ≡ false
        → bi < bpb
        → ScanEnd sb d b (bi + 1) r
        → ScanEnd sb d b bi r
    next none taken lt h = λ k low high below. elim (Bool-cases (k == bi)) [
      | inl here ↦ let e : k ≡ bi = ground arith in rw e (used_at sb d b bi start lt ∙ rw taken)
      | inr later ↦ h k (ground arith) high below
    ]
    next (some k) taken lt h = h

-- `mark_used` writes the bit of the block that is found.
mark_used-on :
    (sb : Superblock) (b bi : ℕ) (d : Blocks)
    → b % bpb ≡ 0
    → bi < bpb
    → mark_used sb b bi d ≡ set_on sb (b + bi) d
unfolding mark_used
mark_used-on sb b bi d start lt =
    let e : bblock sb (b + bi) ≡ bblock sb b = omega arith in
    let f : (b + bi) % bpb ≡ bi = omega arith in rw (e, f)

-- What `balloc` returns: a block that was free, or 0 if none is.
abbrev pub Allocated : Superblock → Blocks → ℕ × Blocks → Type 0
Allocated sb d out =
    ((out ≡ (0, d)) × ((x : ℕ) → x < sb.size → is_used sb d x ≡ true))
    ⊎ ((out.0 < sb.size) × (is_used sb d out.0 ≡ false) × (out.1 ≡ bzero out.0 (set_on sb out.0 d)))

balloc_loop-Allocated :
    (rounds : ℕ) (sb : Superblock) (b : ℕ) (d : Blocks)
    → b % bpb ≡ 0
    → sb.size < b + rounds * bpb
    → ((x : ℕ) → x < b → x < sb.size → is_used sb d x ≡ true)
    → Allocated sb d (balloc_loop rounds sb b d)
unfolding balloc_loop
balloc_loop-Allocated zero sb b d start enough below = inl (refl, λ x lt. below x (omega arith) lt)
balloc_loop-Allocated (suc rounds) sb b d start enough below = elim (Bool-cases (ltb b sb.size)) [
  | inr end ↦ rw end (inl (refl, λ x lt. below x (ground arith) lt))
  | inl more ↦ rw more (
      go (balloc_scan bpb sb b 0 d) (balloc_scan-ScanEnd bpb sb d b 0 start (omega arith))
        (balloc_loop-Allocated rounds sb (b + bpb) d (omega arith) (omega arith)))
]
  where
    go :
        (r : Option ℕ)
        → ScanEnd sb d b 0 r
        → (((x : ℕ) → x < b + bpb → x < sb.size → is_used sb d x ≡ true)
            → Allocated sb d (balloc_loop rounds sb (b + bpb) d))
        → Allocated sb d (elim r [
          | none ↦ balloc_loop rounds sb (b + bpb) d
          | some bi ↦ (b + bi, bzero (b + bi) (mark_used sb b bi d))
        ])
    go none h rest = rest λ x lt fits. elim (Bool-cases (ltb x b)) [
      | inl old ↦ below x (ground arith) fits
      | inr now ↦
          let e : b + (x - b) ≡ x = ground arith in
          subst (λ y. is_used sb d y ≡ true) e (h (x - b) (omega arith) (ground arith) (rw e fits))
    ]
    go (some bi) (lt, fits, free) rest =
        inr (fits, free, ap (bzero (b + bi)) (mark_used-on sb b bi d start lt))

balloc-Allocated : (sb : Superblock) (d : Blocks) → Allocated sb d (balloc sb d)
unfolding balloc
balloc-Allocated sb d =
    balloc_loop-Allocated (sb.size / bpb + 1) sb 0 d refl (omega arith)
      λ x none_below lt. absurd (omega arith)

-- A disk after a block was taken that was free before.
pub record Taken (sb : Superblock) (b : ℕ) (d d' : Blocks) : Type 0 where
  pub in_range : b < sb.size
  pub was_free : is_used sb d b ≡ false
  pub is_data : bblock sb sb.size < b
  pub valid : IsFs sb d'
  pub bits : (x : ℕ) → x ≤ sb.size → is_used sb d' x ≡ (x == b || is_used sb d x)
  pub zeroed : (k : ℕ) → k < bsize → d' b k ≡ 0
  pub others : (x k : ℕ) → bblock sb sb.size < x → x ≢ b → d' x k ≡ d x k

Taken-on :
    (sb : Superblock) (d : Blocks) (b : ℕ)
    → IsFs sb d
    → b < sb.size
    → is_used sb d b ≡ false
    → Taken sb b d (bzero b (set_on sb b d))
unfolding bzero
Taken-on sb d b v lt free = record {
  in_range = lt;
  was_free = free;
  is_data = data_block;
  valid = IsFs-outside (bzero b (set_on sb b d)) marked_valid same bytes;
  bits = λ x le.
      map_same sb (set_on sb b d) (bzero b (set_on sb b d)) x same le
      ∙ set_used sb d b v x
      ∙ ground arith;
  zeroed = λ k lt. ground arith;
  others = λ x k above ne. ground arith;
}
  where
    data_block : bblock sb sb.size < b
    data_block = elim (Bool-cases (ltb (bblock sb sb.size) b)) [
      | inl yes_data ↦ ltb→lt _ _ yes_data
      | inr meta ↦ absurd (let used = v.meta_used b (ground arith) in cc)
    ]

    same : (x k : ℕ) → x ≤ bblock sb sb.size → bzero b (set_on sb b d) x k ≡ set_on sb b d x k
    same x k le = ground (arith, data_block)

    byte_lt : on sb b d < 256
    byte_lt =
        (set_bit (byte_of sb b d) (bit_of b) (bit_of b) (v.bytes _ _) (omega arith) (omega arith)).1

    bytes : (x k : ℕ) → bzero b (set_on sb b d) x k < 256
    bytes x k = ground (arith, byte_lt, v.bytes x k, v.bytes b k)

    marked_valid : IsFs sb (set_on sb b d)
    marked_valid = record {
      bytes = λ x k. ground (arith, byte_lt, v.bytes x k);
      fits = v.fits;
      meta_used = λ x le. set_used sb d b v x ∙ ground (arith, v.meta_used x le);
    }

-- `balloc` returns 0 and changes nothing if no block is free; else it takes a free block.
pub balloc-Taken :
    (sb : Superblock) (d : Blocks)
    → IsFs sb d
    → ((balloc sb d ≡ (0, d)) × ((x : ℕ) → x < sb.size → is_used sb d x ≡ true))
      ⊎ ((b : ℕ) × (d' : Blocks) × (balloc sb d ≡ (b, d')) × Taken sb b d d')
balloc-Taken sb d v = elim (balloc-Allocated sb d) [
  | inl full ↦ inl full
  | inr (lt, free, e) ↦ inr (
    (balloc sb d).0,
    (balloc sb d).1,
    refl,
    subst (Taken sb (balloc sb d).0 d) (sym e) (Taken-on sb d (balloc sb d).0 v lt free),
  )
]

-- On a file system in order, `bfree` of a used block beyond the map clears its bit and changes no
-- other bit and no data block; of a free block it panics.
pub bfree-frees :
    (sb : Superblock) (b : ℕ) (d : Blocks)
    → IsFs sb d
    → bblock sb sb.size < b
    → b < sb.size
    → ((is_used sb d b ≡ false) × (bfree sb b d ≡ panic "freeing free block"))
      ⊎ ((d' : Blocks) × (bfree sb b d ≡ ok d')
          × IsFs sb d'
          × ((x : ℕ) → is_used sb d' x ≡ (if x == b then false else is_used sb d x))
          × ((x k : ℕ) → bblock sb sb.size < x → d' x k ≡ d x k))
unfolding bfree
bfree-frees sb b d v above lt = elim (Bool-cases (is_clear (byte_of sb b d) (bit_of b))) [
  | inl free ↦ inl (rw free, rw free)
  | inr taken ↦ inr (
    set_off sb b d,
    rw taken,
    record {
      bytes = λ x k. ground (arith, byte_lt, v.bytes x k);
      fits = v.fits;
      meta_used = λ x le. set_clear sb d b v x ∙ ground (arith, v.meta_used x le);
    },
    set_clear sb d b v,
    λ x k data_block. ground arith,
  )
]
  where
    byte_lt : off sb b d < 256
    byte_lt =
        (clear_bit (byte_of sb b d) (bit_of b) (bit_of b) (v.bytes _ _) (omega arith)
          (omega arith)).1
