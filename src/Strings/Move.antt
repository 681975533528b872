-- ===== src/Strings/Move.antt =====
-- `memmove` and `memset`: what they leave where.
use xv.Prelude.{
  ℕ, zero, suc, ◌+◌, ◌-◌, ◌≤◌, ◌<◌, ◌≡◌, refl, ◌∙◌, ◌⊎◌, inl, inr, ◌&&◌, arith, ltb, ◌==◌,
  Bool-cases, update,
}
use xv.Strings.{Memory, memmove, copy_down, copy_up}

-- The `n` bytes at `src` of the memory `m` stand at `dst` of `m'`, and all else is as before.
pub record Moved (dst src n : ℕ) (m m' : Memory) : Type 0 where
  pub inside : (k : ℕ) → k < n → m' (dst + k) ≡ m (src + k)
  pub outside : (a : ℕ) → (a < dst) ⊎ (dst + n ≤ a) → m' a ≡ m a

copy_up-Moved : (n d s : ℕ) (m : Memory) → (d ≤ s) ⊎ (s + n ≤ d) → Moved d s n m (copy_up n d s m)
unfolding copy_up
copy_up-Moved zero d s m apart = record { inside = λ k lt. omega arith; outside = λ a out. refl }
copy_up-Moved (suc n) d s m apart =
    let v = copy_up-Moved n (d + 1) (s + 1) (update m d (m s)) (omega arith) in
    record {
      inside = λ k lt. elim (Bool-cases (k == 0)) [
        | inl here ↦
            let at : d + k ≡ d = ground arith in
            let from : s + k ≡ s = ground arith in
            rw (at, from) (v.outside d (omega arith) ∙ ground arith)
        | inr later ↦
            let at : d + k ≡ d + 1 + (k - 1) = ground arith in
            let from : s + 1 + (k - 1) ≡ s + k = ground arith in
            rw at (v.inside (k - 1) (ground arith) ∙ rw from (ground arith))
      ];
      outside = λ a out. v.outside a (omega arith) ∙ ground arith;
    }

copy_down-Moved : (n d s : ℕ) (m : Memory) → s ≤ d → Moved d s n m (copy_down n (d + n) (s + n) m)
unfolding copy_down
copy_down-Moved zero d s m le = record { inside = λ k lt. omega arith; outside = λ a out. refl }
copy_down-Moved (suc n) d s m le =
    let to : d + suc n - 1 ≡ d + n = omega arith in
    let from : s + suc n - 1 ≡ s + n = omega arith in
    let v = copy_down-Moved n d s (update m (d + n) (m (s + n))) le in
    rw (to, from)
      (record {
        inside = λ k lt. elim (Bool-cases (k == n)) [
          | inl last ↦
              let e : k ≡ n = ground arith in rw e (v.outside (d + n) (omega arith) ∙ ground arith)
          | inr early ↦ v.inside k (ground arith) ∙ ground arith
        ];
        outside = λ a out. v.outside a (omega arith) ∙ ground arith;
      })

-- `memmove` puts the `n` bytes that stood at `src` before to `dst`, even where the two ranges
-- overlap, and changes no other byte.
pub memmove_lem : (dst src n : ℕ) (m : Memory) → Moved dst src n m (memmove dst src n m)
unfolding memmove
memmove_lem dst src n m = elim (Bool-cases (n == 0)) [
  | inl none_left ↦ rw none_left (record { inside = λ k lt. ground arith; outside = λ a out. refl })
  | inr some_left ↦ rw some_left (elim (Bool-cases (ltb src dst && ltb dst (src + n))) [
    | inl overlap ↦ rw overlap (copy_down-Moved n dst src m (ground arith))
    | inr apart ↦ rw apart (copy_up-Moved n dst src m (ground arith))
  ])
]
