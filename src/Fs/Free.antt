-- ===== src/Fs/Free.antt =====
-- The loops of `itrunc`: the blocks of a range are freed, and no other.
use xv.Prelude.{
  ℕ, zero, suc, ◌+◌, ◌≤◌, ◌<◌, ◌≡◌, refl, sym, ap, ◌∙◌, ◌≢◌, inl, inr, true, false, arith, ◌==◌,
  if◌then◌else◌, Bool-cases,
}
use xv.Panic.{ok}
use xv.Fs.{Superblock, Blocks, bblock, bfree, free_each}
use xv.Fs.Bitmap.{IsFs, is_used}
use xv.Fs.Balloc.{bfree-frees}
use mathlib.Core.Path.{subst}

-- A block that `bfree` frees without a panic.
abbrev pub Freeable : Superblock → Blocks → ℕ → Type 0
Freeable sb d x = (bblock sb sb.size < x) × (x < sb.size) × (is_used sb d x ≡ true)

-- The disk after the blocks `a i`, `a (i + 1)`, ..., `left` of them, were freed.
pub record Freed (sb : Superblock) (a : ℕ → ℕ) (i left : ℕ) (d d' : Blocks) : Type 0 where
  pub fs : IsFs sb d'
  pub freed : (j : ℕ) → i ≤ j → j < i + left → a j ≢ 0 → is_used sb d' (a j) ≡ false
  pub others :
      (x : ℕ)
      → ((j : ℕ) → i ≤ j → j < i + left → a j ≢ 0 → a j ≢ x)
      → is_used sb d' x ≡ is_used sb d x
  pub data_same : (x k : ℕ) → bblock sb sb.size < x → d' x k ≡ d x k

module _ (sb : Superblock) where
  bfree-Freeable :
      (b : ℕ) (d : Blocks)
      → IsFs sb d
      → Freeable sb d b
      → (d' : Blocks) × (bfree sb b d ≡ ok d')
        × IsFs sb d'
        × ((x : ℕ) → is_used sb d' x ≡ (if x == b then false else is_used sb d x))
        × ((x k : ℕ) → bblock sb sb.size < x → d' x k ≡ d x k)
  bfree-Freeable b d v (above, lt, used) = elim (bfree-frees sb b d v above lt) [
    | inl (free, e) ↦ absurd cc
    | inr done ↦ done
  ]

  pub Freed-one :
      (a : ℕ → ℕ) (i : ℕ) (d : Blocks)
      → IsFs sb d
      → (a i ≢ 0 → Freeable sb d (a i))
      → (d' : Blocks) × ((if a i == 0 then ok d else bfree sb (a i) d) ≡ ok d')
        × Freed sb a i 1 d d'
  Freed-one a i d v can = elim (Bool-cases (a i == 0)) [
    | inl absent ↦ (
      d,
      rw absent,
      record {
        fs = v;
        freed = λ j low high ne. let e : j ≡ i = omega arith in absurd (ne (ap a e ∙ ground arith));
        others = λ x none_such. refl;
        data_same = λ x k above. refl;
      },
    )
    | inr there ↦
        let (d', e, v', bits, same) = bfree-Freeable (a i) d v (can (ground arith)) in
        (
          d',
          rw there e,
          record {
            fs = v';
            freed = λ j low high ne.
                let here : j ≡ i = omega arith in
                let gone : is_used sb d' (a i) ≡ false = bits (a i) ∙ ground arith in
                subst (λ k. is_used sb d' (a k) ≡ false) (sym here) gone;
            others = λ x none_such.
                let other = none_such i (omega arith) (omega arith) (ground arith) in
                bits x ∙ ground arith;
            data_same = same;
          },
        )
  ]

  Freed-both :
      (a : ℕ → ℕ) (i left : ℕ) (d d1 d2 : Blocks)
      → ((k : ℕ) → i < k → k < i + suc left → a k ≢ 0 → a i ≢ a k)
      → Freed sb a i 1 d d1
      → Freed sb a (i + 1) left d1 d2
      → Freed sb a i (suc left) d d2
  Freed-both a i left d d1 d2 apart p q = record {
    fs = q.fs;
    freed = λ j low high ne. elim (Bool-cases (j == i)) [
      | inl here ↦
          let e : j ≡ i = ground arith in
          q.others (a j)
            (λ k lo hi n same. apart k (omega arith) (omega arith) n (ap a (sym e) ∙ sym same))
          ∙ p.freed j low (omega arith) ne
      | inr later ↦ q.freed j (ground arith) (omega arith) ne
    ];
    others = λ x none_such.
        q.others x (λ j lo hi ne. none_such j (omega arith) (omega arith) ne)
        ∙ p.others x (λ j lo hi ne. none_such j lo (omega arith) ne);
    data_same = λ x k above. q.data_same x k above ∙ p.data_same x k above;
  }

  pub free_each-Freed :
      (left : ℕ) (addr : Blocks → ℕ → ℕ) (a : ℕ → ℕ) (i : ℕ) (d : Blocks)
      → IsFs sb d
      → ((d' : Blocks)
          → ((x k : ℕ) → bblock sb sb.size < x → d' x k ≡ d x k)
          → (j : ℕ) → addr d' j ≡ a j)
      → ((j : ℕ) → i ≤ j → j < i + left → a j ≢ 0 → Freeable sb d (a j))
      → ((j k : ℕ) → i ≤ j → j < k → k < i + left → a k ≢ 0 → a j ≢ a k)
      → (d' : Blocks) × (free_each sb addr left i d ≡ ok d') × Freed sb a i left d d'
  unfolding free_each
  free_each-Freed zero addr a i d v reads can apart = (
    d,
    refl,
    record {
      fs = v;
      freed = λ j low high. absurd (omega arith);
      others = λ x none_such. refl;
      data_same = λ x k above. refl;
    },
  )
  free_each-Freed (suc left) addr a i d v reads can apart =
      let now : addr d i ≡ a i = reads d (λ x k above. refl) i in
      let (d1, e1, p) = Freed-one a i d v (can i (omega arith) (omega arith)) in
      let next : (k : ℕ) → i < k → k < i + suc left → a k ≢ 0 → a i ≢ a k =
        λ k. apart i k (omega arith) in
      let (d2, e2, q) =
        free_each-Freed left addr a (i + 1) d1 (p.fs)
          (λ d' same. reads d' (λ x k above. same x k above ∙ p.data_same x k above))
          (λ j lo hi ne.
            let (above, lt, used) = can j (omega arith) (omega arith) ne in
            (
              above,
              lt,
              p.others (a j) (λ k low high n same.
                    apart k j (omega arith) (omega arith) (omega arith) ne same)
                  ∙ used,
            ))
          (λ j k lo mid hi. apart j k (omega arith) mid (omega arith)) in
      (d2, rw (now, e1, e2) refl, Freed-both a i left d d1 d2 next p q)
