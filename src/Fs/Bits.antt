-- ===== src/Fs/Bits.antt =====
-- Single bits of a byte: checked for every byte and every two bits.
use Prim.Native.Nat.{bit_and, bit_or}
use xv.Prelude.{
  ℕ, zero, suc, ◌+◌, ◌-◌, ◌*◌, ◌/◌, ◌%◌, ◌^◌, ◌<◌, ◌≡◌, refl, sym, ◌∙◌, inl, inr, Bool, true, false,
  not, ◌&&◌, ◌||◌, arith, ltb, ◌==◌, Bool-cases, ltb→lt,
}

abbrev pub is_clear : ℕ → ℕ → Bool
is_clear byte i = bit_and byte (2 ^ i) == 0

all_below : ℕ → (ℕ → Bool) → Bool
all_below zero p = true
all_below (suc n) p = p n && all_below n p

all_below_lem : (n : ℕ) (p : ℕ → Bool) (x : ℕ) → all_below n p ≡ true → x < n → p x ≡ true
unfolding all_below
all_below_lem zero p x h lt = absurd (omega arith)
all_below_lem (suc n) p x h lt = elim (Bool-cases (x == n)) [
  | inl last ↦ (let e : x ≡ n = ground arith in rw e (ground arith))
  | inr early ↦ all_below_lem n p x (ground arith) (ground arith)
]

abbrev same : Bool → Bool → Bool
same true b = b
same false b = not b

same_lem : (a b : Bool) → same a b ≡ true → a ≡ b
same_lem true b h = sym h
same_lem false true h = cc
same_lem false false h = refl

and_left : (a b : Bool) → (a && b) ≡ true → a ≡ true
and_left true b h = refl
and_left false b h = h

and_right : (a b : Bool) → (a && b) ≡ true → b ≡ true
and_right true b h = h
and_right false b h = cc

abbrev set_test : ℕ → ℕ → ℕ → Bool
set_test byte i j =
    same (is_clear (bit_or byte (2 ^ i)) j) (not (i == j) && is_clear byte j)
    && ltb (bit_or byte (2 ^ i)) 256

abbrev clear_test : ℕ → ℕ → ℕ → Bool
clear_test byte i j =
    same (is_clear (bit_and byte (255 - 2 ^ i)) j) (i == j || is_clear byte j)
    && ltb (bit_and byte (255 - 2 ^ i)) 256

abbrev at : (ℕ → ℕ → ℕ → Bool) → ℕ → Bool
at test x = test (x / 64) (x / 8 % 8) (x % 8)

set_table : all_below 16384 (at set_test) ≡ true
unfolding all_below
set_table = refl

clear_table : all_below 16384 (at clear_test) ≡ true
unfolding all_below
clear_table = refl

module _ (byte i j : ℕ) (small : byte < 256) (i_lt : i < 8) (j_lt : j < 8) where
  index : (test : ℕ → ℕ → ℕ → Bool) → at test (byte * 64 + i * 8 + j) ≡ test byte i j
  index test =
      let a : (byte * 64 + i * 8 + j) / 64 ≡ byte = omega arith in
      let b : (byte * 64 + i * 8 + j) / 8 % 8 ≡ i = omega arith in
      let c : (byte * 64 + i * 8 + j) % 8 ≡ j = omega arith in rw (a, b, c)

  holds : (test : ℕ → ℕ → ℕ → Bool) → all_below 16384 (at test) ≡ true → test byte i j ≡ true
  holds test table = sym (index test) ∙ all_below_lem 16384 (at test) _ table (omega arith)

  -- After `data[bi/8] |= m` the bit is set and the others are as before; the byte is one still.
  pub set_bit :
      (is_clear (bit_or byte (2 ^ i)) j ≡ (not (i == j) && is_clear byte j))
      × (bit_or byte (2 ^ i) < 256)
  set_bit =
      let both = holds set_test set_table in
      (
        same_lem (is_clear (bit_or byte (2 ^ i)) j) (not (i == j) && is_clear byte j)
            (and_left _ _ both),
        ltb→lt _ _ (and_right _ _ both),
      )

  -- After `data[bi/8] &= ~m` the bit is clear and the others are as before.
  pub clear_bit :
      (is_clear (bit_and byte (255 - 2 ^ i)) j ≡ (i == j || is_clear byte j))
      × (bit_and byte (255 - 2 ^ i) < 256)
  clear_bit =
      let both = holds clear_test clear_table in
      (
        same_lem (is_clear (bit_and byte (255 - 2 ^ i)) j) (i == j || is_clear byte j)
            (and_left _ _ both),
        ltb→lt _ _ (and_right _ _ both),
      )
