-- ===== src/Vm/Store.antt =====
-- What the store of a PTE at level 0 changes of the translation.
use xv.Prelude.{
  ℕ, zero, suc, ◌+◌, ◌*◌, ◌/◌, ◌<◌, ◌≡◌, refl, sym, ap, ◌∙◌, ◌≢◌, inl, inr, false, List, arith,
  Bool-cases,
}
use xv.Vm.{px, walk_from, pte_v, pte2pa, store}
use xv.Kalloc.{Kmem, pgsize}
use xv.Kalloc.Chain.{Chain-SameBut}
use xv.Vm.Tables.{Tree, OnWay, OnWay-down, seen, px_bound, page_split}

-- An index depends only on the page.
px-page : (l v w : ℕ) → l < 3 → v / pgsize ≡ w / pgsize → px l v ≡ px l w
unfolding px
px-page zero v w lt e = omega arith
px-page (suc zero) v w lt e = omega arith
px-page (suc (suc zero)) v w lt e = omega arith
px-page (suc (suc (suc l))) v w lt e = absurd (omega arith)

-- So does the translation.
pub seen-page :
    (l p v w : ℕ) (m : Kmem) → l < 3 → v / pgsize ≡ w / pgsize → seen l p v m ≡ seen l p w m
unfolding seen
seen-page zero p v w m lt e = ap (λ x. m.mem (p + 8 * x)) (px-page zero v w lt e)
seen-page (suc l) p v w m lt e =
    let below = seen-page l (pte2pa (m.mem (p + 8 * px (suc l) w))) v w m (omega arith) e in
    rw (seen, px-page (suc l) v w lt e, below) refl

module _ {end_addr root : ℕ} {lev pre : ℕ → ℕ} {m : Kmem} {pages : List ℕ}
    (t : Tree end_addr root lev pre m pages) (leaf va value : ℕ)
    (way : OnWay lev pre 0 leaf va) where
  -- The words of the other tables are as before.
  above-same :
      (p level j : ℕ)
      → lev p ≡ suc (suc level)
      → j < 512
      → (store (leaf + 8 * px 0 va) value m).mem (p + 8 * j) ≡ m.mem (p + 8 * j)
  unfolding store
  above-same p level j at lt =
      let here = t.tables p (suc level) at in
      let there = t.tables leaf 0 way.0 in
      let ne : p + 8 * j ≢ leaf + 8 * px 0 va = λ e.
        let eq : p ≡ leaf = omega (arith, px_bound 0 va, here.0, there.0) in
        omega (arith, ap lev eq, at, way.0) in
      ground arith

  pub store-Tree : Tree end_addr root lev pre (store (leaf + 8 * px 0 va) value m) pages
  unfolding store
  store-Tree =
      let there = t.tables leaf 0 way.0 in
      record {
        free = record {
          chain =
              Chain-SameBut end_addr leaf m.mem _ m.freelist pages
                (λ a out. ground (arith, px_bound 0 va)) there.0 t.free.are_pages there.3
                t.free.chain;
          are_pages = t.free.are_pages;
          distinct = t.free.distinct;
        };
        root_lev = t.root_lev;
        root_pre = t.root_pre;
        tables = t.tables;
        links = λ p l j at lt v.
            let word = above-same p l j at lt in
            let below = t.links p l j at lt (sym (ap pte_v word) ∙ v) in rw word below;
      }

  -- Addresses on other pages translate as before.
  pub seen-store_ne :
      (level p other : ℕ)
      → OnWay lev pre level p other
      → other / pgsize ≢ va / pgsize
      → seen level p other (store (leaf + 8 * px 0 va) value m) ≡ seen level p other m
  unfolding seen store
  seen-store_ne zero p other w ne =
      let here = t.tables p 0 w.0 in
      let there = t.tables leaf 0 way.0 in
      let apart : p + 8 * px 0 other ≢ leaf + 8 * px 0 va = λ e.
        let eq : p ≡ leaf = omega (arith, px_bound 0 other, px_bound 0 va, here.0, there.0) in
        ne (omega (arith, ap pre eq, w.1, way.1, page_split other, page_split va)) in
      ground arith
  seen-store_ne (suc level) p other w ne =
      let word = above-same p level (px (suc level) other) w.0 (px_bound (suc level) other) in
      elim (Bool-cases (pte_v (m.mem (p + 8 * px (suc level) other)))) [
        | inl valid ↦
            rw (word, valid) (seen-store_ne level _ other (OnWay-down level p other t w valid) ne)
        | inr stop ↦ rw (word, stop) refl
      ]

  -- The address itself translates by the new PTE.
  pub seen-store_self :
      (level p : ℕ)
      → OnWay lev pre level p va
      → walk_from level p va false m ≡ (leaf + 8 * px 0 va, m)
      → seen level p va (store (leaf + 8 * px 0 va) value m) ≡ value
  unfolding seen store walk_from
  seen-store_self zero p w e =
      let eq : p + 8 * px 0 va ≡ leaf + 8 * px 0 va = ap (λ x. x.0) e in ground arith
  seen-store_self (suc level) p w e =
      let word = above-same p level (px (suc level) va) w.0 (px_bound (suc level) va) in
      elim (Bool-cases (pte_v (m.mem (p + 8 * px (suc level) va)))) [
        | inl valid ↦
            rw (word, valid)
              (seen-store_self level _ (OnWay-down level p va t w valid) (rw valid at e))
        | inr stop ↦
            let z : 0 ≡ leaf + 8 * px 0 va = ap (λ x. x.0) (rw stop at e) in
            absurd (omega (arith, (t.tables leaf 0 way.0).1, z))
      ]
