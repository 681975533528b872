-- ===== src/Strings/Compare.antt =====
-- `strncmp`: when two strings count as equal.
use xv.Prelude.{
  ℕ, zero, suc, ◌+◌, ◌≡◌, refl, ap, ◌≢◌, ◌↔◌, inl, inr, true, not, ◌&&◌, arith, ◌==◌, Bool-cases,
}
use xv.Prelude.Int.{pos, ◌-ℤ◌, eq_of_parts, -ℤ_parts, pos_part, neg_part}
use xv.Strings.{Memory, strncmp}

-- The strings at `p` and `q` are the same, up to a common NUL or for `n` bytes.
pub data Same (m : Memory) : ℕ → ℕ → ℕ → Type 0 where
  cut : (p q : ℕ) → Same m 0 p q
  both_end : (n p q : ℕ) → m p ≡ 0 → m q ≡ 0 → Same m (suc n) p q
  one_more : (n p q : ℕ) → m p ≡ m q → m p ≢ 0 → Same m n (p + 1) (q + 1) → Same m (suc n) p q

difference : (a b : ℕ) → pos a -ℤ pos b ≡ pos 0 → a ≡ b
difference a b e = omega (arith, -ℤ_parts (pos a) (pos b), ap pos_part e, ap neg_part e)

no_difference : (a : ℕ) → pos a -ℤ pos a ≡ pos 0
no_difference a = eq_of_parts (pos a -ℤ pos a) (pos 0) (omega (arith, -ℤ_parts (pos a) (pos a)))

zero-Same : (n p q : ℕ) (m : Memory) → strncmp n p q m ≡ pos 0 → Same m n p q
unfolding strncmp
zero-Same zero p q m e = cut p q
zero-Same (suc n) p q m e = elim (Bool-cases (not (m p == 0) && m p == m q)) [
  | inl more ↦
      one_more n p q (ground arith) (ground arith) (zero-Same n (p + 1) (q + 1) m (ground arith))
  | inr stop ↦
      let same : m p ≡ m q = difference (m p) (m q) (ground arith) in
      both_end n p q (ground arith) (ground arith)
]

Same-zero : (m : Memory) (n p q : ℕ) → Same m n p q → strncmp n p q m ≡ pos 0
unfolding strncmp
Same-zero m _ _ _ (cut p q) = refl
Same-zero m _ _ _ (both_end k p q end_p end_q) = ground (arith, end_p, end_q, no_difference 0)
Same-zero m _ _ _ (one_more k p q e ne rest) =
    let more : (not (m p == 0) && m p == m q) ≡ true = ground arith in
    rw more (Same-zero m k (p + 1) (q + 1) rest)

-- `strncmp` returns 0 just for strings that are the same up to a common NUL or for `n` bytes.
pub strncmp_lem : (n p q : ℕ) (m : Memory) → (strncmp n p q m ≡ pos 0) ↔ Same m n p q
strncmp_lem n p q m = (zero-Same n p q m, Same-zero m n p q)
