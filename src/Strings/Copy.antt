-- ===== src/Strings/Copy.antt =====
-- `safestrcpy`: a bounded copy that always ends in a NUL.
use xv.Prelude.{
  ℕ, zero, suc, ◌+◌, ◌-◌, ◌≤◌, ◌<◌, ◌≡◌, refl, sym, ap, ◌∙◌, ◌≢◌, ◌⊎◌, inl, inr, arith, ◌==◌,
  Bool-cases, update,
}
use xv.Strings.{safestrcpy, Memory, safestrcpy_loop}

-- `m'` holds at `s` the first `len` bytes of the string that `m` holds at `t`, and a NUL behind them;
-- the string ends there or there is no room for more; no byte outside the `n` bytes at `s` is
-- written.
pub record Copied (n s t : ℕ) (m m' : Memory) : Type 0 where
  pub len : ℕ
  pub fits : len < n
  pub prefix : (k : ℕ) → k < len → (m' (s + k) ≡ m (t + k)) × (m (t + k) ≢ 0)
  pub ends_in_nul : m' (s + len) ≡ 0
  pub whole : (m (t + len) ≡ 0) ⊎ (len + 1 ≡ n)
  pub outside : (a : ℕ) → (a < s) ⊎ (s + n ≤ a) → m' a ≡ m a

safestrcpy_loop-Copied :
    (left s t : ℕ) (m : Memory)
    → (t + suc left ≤ s) ⊎ (s + suc left ≤ t)
    → Copied (suc left) s t m (safestrcpy_loop left s t m)
unfolding safestrcpy_loop
safestrcpy_loop-Copied zero s t m apart = record {
  len = 0;
  fits = omega arith;
  prefix = λ k lt. absurd (omega arith);
  ends_in_nul = ground arith;
  whole = inr refl;
  outside = λ a out. ground arith;
}
safestrcpy_loop-Copied (suc left) s t m apart = elim (Bool-cases (m t == 0)) [
  | inl nul ↦ rw nul (record {
    len = 0;
    fits = omega arith;
    prefix = λ k lt. absurd (omega arith);
    ends_in_nul = ground arith;
    whole = inl (ground arith);
    outside = λ a out. ground arith;
  })
  | inr byte ↦
      let v = safestrcpy_loop-Copied left (s + 1) (t + 1) (update m s (m t)) (omega arith) in
      rw byte (record {
        len = suc (v.len);
        fits = omega (arith, v.fits);
        prefix = λ k lt. elim (Bool-cases (k == 0)) [
          | inl here ↦
              let at : s + k ≡ s = ground arith in
              let from : t + k ≡ t = ground arith in
              rw (at, from) (v.outside s (omega arith) ∙ ground arith, ground arith)
          | inr later ↦
              let at : s + k ≡ s + 1 + (k - 1) = ground arith in
              let from : t + 1 + (k - 1) ≡ t + k = ground arith in
              let there : update m s (m t) (t + k) ≡ m (t + k) = ground (arith, v.fits) in
              let w = v.prefix (k - 1) (ground arith) in
              (rw at (w.0 ∙ rw (from, there)), λ z. w.1 (rw (from, there) z))
        ];
        ends_in_nul =
            let at : s + suc (v.len) ≡ s + 1 + v.len = omega arith in rw at (v.ends_in_nul);
        whole = elim (v.whole) [
          | inl z ↦ inl (
              let from : t + 1 + v.len ≡ t + suc (v.len) = omega arith in
              let there : update m s (m t) (t + suc (v.len)) ≡ m (t + suc (v.len)) =
                ground (arith, v.fits) in
              sym there ∙ ap (update m s (m t)) (sym from) ∙ z)
          | inr e ↦ inr (omega arith)
        ];
        outside = λ a out. v.outside a (omega arith) ∙ ground arith;
      })
]

-- If the string at `t` and the buffer of `n > 0` bytes at `s` do not overlap, `safestrcpy` copies as
-- much of the string as fits with a NUL behind it, and writes nothing outside the buffer.
pub safestrcpy_lem :
    (n s t : ℕ) (m : Memory)
    → 0 < n
    → (t + n ≤ s) ⊎ (s + n ≤ t)
    → Copied n s t m (safestrcpy n s t m)
unfolding safestrcpy
safestrcpy_lem zero s t m pos apart = absurd (omega arith)
safestrcpy_lem (suc left) s t m pos apart = safestrcpy_loop-Copied left s t m apart
