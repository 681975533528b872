-- ===== src/Vm/Grow.antt =====
-- What a new table in the tree, and a new PTE at level 0, change of the translation.
use xv.Prelude.{
  ℕ, zero, suc, ◌+◌, ◌*◌, ◌%◌, ◌≤◌, ◌<◌, ◌≡◌, refl, sym, ap, ◌∙◌, ◌≢◌, ◌⊎◌, inl, inr, true, false,
  List, ◌∷◌, arith, ◌==◌, Bool-cases, update, NotIn,
}
use xv.Vm.{px, pte_v, pte2pa, pa2pte}
use xv.Kalloc.{Kmem, pgsize}
use xv.Kalloc.Chain.{FreeList}
use mathlib.Core.Path.{subst}
use xv.Vm.Tables.{Tree, OnWay, OnWay-down, seen, px_bound}

-- `child` is a new table without entries, which the entry at `slot` now leads to.
pub record Grown (child slot : ℕ) (m new : Kmem) : Type 0 where
  pub zeros : (a : ℕ) → child ≤ a → a < child + pgsize → new.mem a ≡ 0
  pub link : new.mem slot ≡ pa2pte child + 1
  pub same : (a : ℕ) → (a < child) ⊎ (child + pgsize ≤ a) → a ≢ slot → new.mem a ≡ m.mem a

-- A table without entries translates nothing.
pub seen-zeros :
    (level child va : ℕ) (m : Kmem)
    → ((a : ℕ) → child ≤ a → a < child + pgsize → m.mem a ≡ 0)
    → seen level child va m ≡ 0
unfolding seen
seen-zeros zero child va m zeros = zeros _ (omega arith) (omega (arith, px_bound 0 va))
seen-zeros (suc level) child va m zeros =
    let e : m.mem (child + 8 * px (suc level) va) ≡ 0 =
      zeros _ (omega arith) (omega (arith, px_bound (suc level) va)) in
    rw e refl

module _ {end_addr root : ℕ} {lev pre : ℕ → ℕ} {m new : Kmem} {pages : List ℕ}
    (t : Tree end_addr root lev pre m pages) (l table i child : ℕ)
    (table_lev : lev table ≡ suc (suc l)) (i_bound : i < 512)
    (empty : pte_v (m.mem (table + 8 * i)) ≡ false) (aligned : child % pgsize ≡ 0)
    (fresh : lev child ≡ 0) (grown : Grown child (table + 8 * i) m new) where
  -- Words of the tables other than the new entry are as before.
  pub Grown-same :
      (p level j : ℕ)
      → lev p ≡ suc level
      → j < 512
      → p + 8 * j ≢ table + 8 * i
      → new.mem (p + 8 * j) ≡ m.mem (p + 8 * j)
  Grown-same p level j at lt ne =
      let here = t.tables p level at in
      grown.same (p + 8 * j)
        (elim (Bool-cases (p == child)) [
          | inl e ↦ (let eq : p ≡ child = ground arith in absurd (omega (arith, ap lev eq)))
          | inr e ↦ (let neq : p ≢ child = ground arith in omega (arith, here.0))
        ])
        ne

  -- The translation of every address is as before.
  pub seen-Grown :
      (level p va : ℕ) → OnWay lev pre level p va → seen level p va new ≡ seen level p va m
  unfolding seen
  seen-Grown zero p va way = Grown-same p 0 (px 0 va) way.0 (px_bound 0 va) (λ e.
      let here = t.tables p 0 way.0 in
      let there = t.tables table (suc l) table_lev in
      let eq : p ≡ table = omega (arith, px_bound 0 va, here.0, there.0) in
      absurd (omega (arith, ap lev eq, way.0)))
  seen-Grown (suc level) p va way = elim (Bool-cases (p + 8 * px (suc level) va == table + 8 * i)) [
    | inl here ↦
        let eq : p + 8 * px (suc level) va ≡ table + 8 * i = ground arith in
        let v : pte_v (pa2pte child + 1) ≡ true = ground arith in
        let back : pte2pa (pa2pte child + 1) ≡ child = omega arith in
        rw (eq, empty, grown.link, v, back) (seen-zeros level child va new grown.zeros)
    | inr other ↦
        let word =
          Grown-same p (suc level) (px (suc level) va) way.0 (px_bound (suc level) va)
            (ground arith) in
        elim (Bool-cases (pte_v (m.mem (p + 8 * px (suc level) va)))) [
          | inl valid ↦ rw (word, valid) (seen-Grown level _ va (OnWay-down level p va t way valid))
          | inr stop ↦ rw (word, stop) refl
        ]
  ]

  -- The tree with the new table in it.
  pub Grown-Tree :
      {rest : List ℕ}
      → pages ≡ child ∷ rest
      → child ≢ 0
      → FreeList end_addr new rest
      → NotIn child rest
      → Tree end_addr root
          (update lev child (suc l))
          (update pre child (pre table * 512 + i))
          new
          rest
  Grown-Tree {rest} e nonzero free out = record {
    free = free;
    root_lev = ground (arith, t.root_lev);
    root_pre = ground (arith, t.root_pre, t.root_lev);
    tables = λ p k at. elim (Bool-cases (p == child)) [
      | inl here ↦
          let eq : child ≡ p = ground arith in
          let bound = (t.tables table (suc l) table_lev).2 in
          (
            omega (arith, eq),
            omega (arith, eq),
            ground (arith, bound),
            subst (λ x. NotIn x rest) eq out,
          )
      | inr other ↦
          let old : lev p ≡ suc k = ground arith in
          let here = t.tables p k old in
          (here.0, here.1, here.2, (subst (λ x. NotIn p x) e here.3).1)
    ];
    links = λ p k j at lt valid. elim (Bool-cases (p == child)) [
      | inl here ↦
          let eq : p ≡ child = ground arith in
          let none_there : new.mem (p + 8 * j) ≡ 0 = grown.zeros _ (omega arith) (omega arith) in
          absurd (ground arith)
      | inr other ↦
          let old : lev p ≡ suc (suc k) = ground arith in
          elim (Bool-cases (p + 8 * j == table + 8 * i)) [
            | inl same_slot ↦
                let there = t.tables table (suc l) table_lev in
                let here = t.tables p (suc k) old in
                let eq : p + 8 * j ≡ table + 8 * i = ground arith in
                let eq_p : p ≡ table = omega (arith, here.0, there.0) in
                let eq_j : j ≡ i = omega arith in
                let eq_l : suc (suc k) ≡ suc (suc l) = sym old ∙ ap lev eq_p ∙ table_lev in
                let back : pte2pa (pa2pte child + 1) ≡ child = omega arith in
                rw (eq, grown.link, back) (ground (arith), ground (arith, ap pre eq_p))
            | inr moved ↦
                let word = Grown-same p (suc k) j old lt (ground arith) in
                let below = t.links p k j old lt (sym (ap pte_v word) ∙ valid) in
                rw word (ground (arith, below.0), ground (arith, below.0, below.1))
          ]
    ];
  }
