-- ===== src/Fs/Bitmap.antt =====
-- The map of used blocks: what `balloc` and `bfree` do to it.
use Prim.Native.Nat.{bit_and, bit_or}
use xv.Prelude.{
  ℕ, ◌-◌, ◌/◌, ◌%◌, ◌^◌, ◌≤◌, ◌<◌, ◌≡◌, ap, ◌∙◌, ◌≢◌, inl, inr, Bool, true, false, not, arith, ◌==◌,
  if◌then◌else◌, Bool-cases,
}
use xv.Fs.{Superblock, Blocks, bpb, bblock, set_byte}
use xv.Fs.Bits.{is_clear, set_bit, clear_bit}

-- The byte of the map that has the bit of block `b`, and the bit in it.
abbrev pub byte_of : Superblock → ℕ → Blocks → ℕ
byte_of sb b d = d (bblock sb b) (b % bpb / 8)

abbrev pub bit_of : ℕ → ℕ
bit_of b = b % bpb % 8

-- That byte with the bit set and with the bit cleared, and the disk with it.
abbrev pub on : Superblock → ℕ → Blocks → ℕ
on sb b d = bit_or (byte_of sb b d) (2 ^ bit_of b)

abbrev pub off : Superblock → ℕ → Blocks → ℕ
off sb b d = bit_and (byte_of sb b d) (255 - 2 ^ bit_of b)

abbrev pub set_on : Superblock → ℕ → Blocks → Blocks
set_on sb b d = set_byte d (bblock sb b) (b % bpb / 8) (on sb b d)

abbrev pub set_off : Superblock → ℕ → Blocks → Blocks
set_off sb b d = set_byte d (bblock sb b) (b % bpb / 8) (off sb b d)

-- The bit of block `b` is set.
abbrev pub is_used : Superblock → Blocks → ℕ → Bool
is_used sb d b = not (is_clear (byte_of sb b d) (bit_of b))

-- Blocks hold bytes, and every block up to the end of the map is marked used, as mkfs/mkfs.c does.
pub record IsFs (sb : Superblock) (d : Blocks) : Type 0 where
  pub bytes : (b k : ℕ) → d b k < 256
  pub fits : bblock sb sb.size < sb.size
  pub meta_used : (b : ℕ) → b ≤ bblock sb sb.size → is_used sb d b ≡ true

module _ (sb : Superblock) (d : Blocks) (b : ℕ) where
  -- `set_byte` at the byte of block `b`, by the bit of another block.
  is_used-set_byte :
      (v x : ℕ)
      → (bit_of b ≢ bit_of x → is_clear v (bit_of x) ≡ is_clear (byte_of sb b d) (bit_of x))
      → x ≢ b
      → is_used sb (set_byte d (bblock sb b) (b % bpb / 8) v) x ≡ is_used sb d x
  is_used-set_byte v x keep ne = elim (Bool-cases (bblock sb x == bblock sb b)) [
    | inr other ↦ rw other
    | inl block ↦ elim (Bool-cases (x % bpb / 8 == b % bpb / 8)) [
      | inr other ↦ rw (block, other) (let e : bblock sb b ≡ bblock sb x = ground arith in rw e)
      | inl byte ↦
          let e : bblock sb x ≡ bblock sb b = ground arith in
          let f : x % bpb / 8 ≡ b % bpb / 8 = ground arith in
          let now : set_byte d (bblock sb b) (b % bpb / 8) v (bblock sb b) (b % bpb / 8) ≡ v =
            ground arith in
          rw (e, f) (ap not (ap (λ y. is_clear y (bit_of x)) now ∙ keep (omega arith)))
    ]
  ]

  pub set_used :
      IsFs sb d → (x : ℕ) → is_used sb (set_on sb b d) x ≡ (if x == b then true else is_used sb d x)
  set_used v x = elim (Bool-cases (x == b)) [
    | inl self ↦
        let e : x ≡ b = ground arith in
        let bit =
          set_bit (byte_of sb b d) (bit_of b) (bit_of b) (v.bytes _ _) (omega arith)
            (omega arith) in
        let now : byte_of sb b (set_on sb b d) ≡ on sb b d = ground arith in
        let found : is_clear (on sb b d) (bit_of b) ≡ false = bit.0 ∙ ground arith in
        rw (self, e) (ap not (ap (λ y. is_clear y (bit_of b)) now ∙ found))
    | inr other ↦ rw other (
        is_used-set_byte (on sb b d) x
          (λ ne.
            (set_bit (byte_of sb b d) (bit_of b) (bit_of x) (v.bytes _ _) (omega arith)
              (omega arith)).0
            ∙ ground arith)
          (ground arith))
  ]

  pub set_clear :
      IsFs sb d
      → (x : ℕ) → is_used sb (set_off sb b d) x ≡ (if x == b then false else is_used sb d x)
  set_clear v x = elim (Bool-cases (x == b)) [
    | inl self ↦
        let e : x ≡ b = ground arith in
        let bit =
          clear_bit (byte_of sb b d) (bit_of b) (bit_of b) (v.bytes _ _) (omega arith)
            (omega arith) in
        let now : byte_of sb b (set_off sb b d) ≡ off sb b d = ground arith in
        let found : is_clear (off sb b d) (bit_of b) ≡ true = bit.0 ∙ ground arith in
        rw (self, e) (ap not (ap (λ y. is_clear y (bit_of b)) now ∙ found))
    | inr other ↦ rw other (
        is_used-set_byte (off sb b d) x
          (λ ne.
            (clear_bit (byte_of sb b d) (bit_of b) (bit_of x) (v.bytes _ _) (omega arith)
              (omega arith)).0
            ∙ ground arith)
          (ground arith))
  ]

-- What stands in no block of the map does not matter to it.
pub map_same :
    (sb : Superblock) (d d' : Blocks) (x : ℕ)
    → ((b k : ℕ) → b ≤ bblock sb sb.size → d' b k ≡ d b k)
    → x ≤ sb.size
    → is_used sb d' x ≡ is_used sb d x
map_same sb d d' x same le =
    ap (λ y. not (is_clear y (bit_of x))) (same (bblock sb x) (x % bpb / 8) (omega arith))

pub IsFs-outside :
    {sb : Superblock} {d : Blocks} (d' : Blocks)
    → IsFs sb d
    → ((b k : ℕ) → b ≤ bblock sb sb.size → d' b k ≡ d b k)
    → ((b k : ℕ) → d' b k < 256)
    → IsFs sb d'
IsFs-outside {sb} {d} d' v same bytes = record {
  bytes = bytes;
  fits = v.fits;
  meta_used = λ b le. map_same sb d d' b same (omega (arith, v.fits)) ∙ v.meta_used b le;
}
