-- ===== src/Vm/Walk.antt =====
-- `walk` with `alloc`: it finds the PTE of an address, and builds the tables on the way.
use xv.Prelude.{
  ℕ, zero, suc, ◌+◌, ◌*◌, ◌<◌, ◌≡◌, refl, sym, ap, ◌∙◌, ◌≢◌, ◌⊎◌, inl, inr, true, false, List, [],
  ◌∷◌, arith, ◌==◌, Bool-cases, update,
}
use xv.Vm.{px, walk_from, pte_v, pte2pa, pa2pte, store, zero_page}
use xv.Kalloc.{Kmem, kalloc, memset_page}
use xv.Kalloc.Chain.{FreeList, Chain-SameBut, kalloc-FreeList, kalloc-none}
use xv.Vm.Tables.{Tree, OnWay, OnWay-down, seen, above_split, px_bound, walk_from-reads}
use xv.Vm.Grow.{Grown, Grown-Tree, Grown-same, seen-Grown}

-- `new` has the tables of `m` and perhaps more, and translates every address as `m` does.
pub record Grows (end_addr root : ℕ) (lev pre : ℕ → ℕ) (m new : Kmem) : Type 0 where
  pub lev_new : ℕ → ℕ
  pub pre_new : ℕ → ℕ
  pub pages : List ℕ
  pub tree : Tree end_addr root lev_new pre_new new pages
  pub kept : (p : ℕ) → lev p ≢ 0 → (lev_new p ≡ lev p) × (pre_new p ≡ pre p)
  pub shows : (level p va : ℕ) → OnWay lev pre level p va → seen level p va new ≡ seen level p va m
  pub entries :
      (p l j : ℕ)
      → lev p ≡ suc (suc l)
      → j < 512
      → pte_v (m.mem (p + 8 * j)) ≡ true
      → new.mem (p + 8 * j) ≡ m.mem (p + 8 * j)

Grows-refl :
    {end_addr root : ℕ} {lev pre : ℕ → ℕ} {m : Kmem} {pages : List ℕ}
    → Tree end_addr root lev pre m pages
    → Grows end_addr root lev pre m m
Grows-refl {lev} {pre} {pages} t = record {
  lev_new = lev;
  pre_new = pre;
  pages = pages;
  tree = t;
  kept = λ p at. (refl, refl);
  shows = λ level p va way. refl;
  entries = λ p l j at lt v. refl;
}

pub OnWay-Grows :
    {end_addr root level p : ℕ} {lev pre : ℕ → ℕ} {m new : Kmem} (va : ℕ)
    (g : Grows end_addr root lev pre m new)
    → OnWay lev pre level p va
    → OnWay g.lev_new g.pre_new level p va
OnWay-Grows {p} va g way =
    let old = g.kept p (omega (arith, way.0)) in (old.0 ∙ way.0, old.1 ∙ way.1)

Grows-trans :
    {end_addr root : ℕ} {lev pre : ℕ → ℕ} {m mid new : Kmem} (g : Grows end_addr root lev pre m mid)
    → Grows end_addr root g.lev_new g.pre_new mid new
    → Grows end_addr root lev pre m new
Grows-trans g h = record {
  lev_new = h.lev_new;
  pre_new = h.pre_new;
  pages = h.pages;
  tree = h.tree;
  kept = λ p at.
      let old = g.kept p at in
      let later = h.kept p (λ e. at (sym old.0 ∙ e)) in (later.0 ∙ old.0, later.1 ∙ old.1);
  shows = λ level p va way. h.shows level p va (OnWay-Grows va g way) ∙ g.shows level p va way;
  entries = λ p l j at lt v.
      let old = g.kept p (omega (arith, at)) in
      let first = g.entries p l j at lt v in
      h.entries p l j (old.0 ∙ at) lt (ap pte_v first ∙ v) ∙ first;
}

suc_of : (n : ℕ) → n ≢ 0 → (k : ℕ) × (n ≡ suc k)
suc_of zero ne = absurd (ne refl)
suc_of (suc k) ne = (k, refl)

-- What the step of `walk` that makes a table does.
abbrev with_table : ℕ → ℕ → Kmem → Kmem
with_table child slot m = store slot (pa2pte child + 1) (zero_page child m)

module _ {end_addr root : ℕ} {lev pre : ℕ → ℕ} {m : Kmem} where
  -- The step that allocates a table, where a page is free.
  grow_step :
      (level p i child : ℕ) (rest : List ℕ)
      → Tree end_addr root lev pre m (child ∷ rest)
      → lev p ≡ suc (suc level)
      → i < 512
      → pte_v (m.mem (p + 8 * i)) ≡ false
      → (m1 : Kmem) × (kalloc m ≡ (child, m1))
        × (child ≢ 0)
        × (g : Grows end_addr root lev pre m (with_table child (p + 8 * i) m1)) × (g.lev_new child
            ≡ suc level)
        × (g.pre_new child ≡ pre p * 512 + i)
        × ((with_table child (p + 8 * i) m1).mem (p + 8 * i) ≡ pa2pte child + 1)
  unfolding zero_page store memset_page
  grow_step level p i child rest t at lt empty =
      let (m1, e, free, same) = kalloc-FreeList end_addr child rest t.free in
      let here = t.tables p (suc level) at in
      let apart : p ≢ child = λ eq. here.3.0 (sym eq) in
      let page = t.free.are_pages.0 in
      let fresh : lev child ≡ 0 = elim (Bool-cases (lev child == 0)) [
        | inl z ↦ ground arith
        | inr nz ↦
            let (l', eq) = suc_of (lev child) (ground arith) in
            absurd ((t.tables child l' eq).3.0 refl)
      ] in
      let grown : Grown child (p + 8 * i) m (with_table child (p + 8 * i) m1) = record {
        zeros = λ a low high. ground (arith, here.0, page.0);
        link = ground arith;
        same = λ a out ne. ground (arith, same a out);
      } in
      let new_free : FreeList end_addr (with_table child (p + 8 * i) m1) rest = record {
        chain =
            Chain-SameBut end_addr p (zero_page child m1).mem _ m1.freelist rest
              (λ a out. ground arith) here.0 t.free.are_pages.1 here.3.1
              (Chain-SameBut end_addr child m1.mem _ m1.freelist rest (λ a out. ground arith) page.0
                t.free.are_pages.1 t.free.distinct.0 free.chain);
        are_pages = free.are_pages;
        distinct = free.distinct;
      } in
      (
        m1,
        e,
        t.free.chain.1,
        record {
          lev_new = update lev child (suc level);
          pre_new = update pre child (pre p * 512 + i);
          pages = rest;
          tree =
              Grown-Tree t level p i child at lt empty page.0 fresh grown refl t.free.chain.1
                new_free t.free.distinct.0;
          kept = λ q used.
              let ne : q ≢ child = λ eq. used (ap lev eq ∙ fresh) in (ground arith, ground arith);
          shows =
              λ k q va way. seen-Grown t level p i child at lt empty page.0 fresh grown k q va way;
          entries = λ q k j used bound v.
              Grown-same t level p i child at lt empty page.0 fresh grown q (suc k) j used bound
                (λ eq. absurd (cc (ap (λ x. pte_v (m.mem x)) eq)));
        },
        ground arith,
        ground arith,
        ground arith,
      )

-- Where `walk` with `alloc` ends: without memory, or at the PTE that a walk without it finds now.
abbrev Ended : ℕ → ℕ → ℕ → ℕ → Kmem → Type 0
Ended level p va pte new =
    ((pte ≡ 0) × (new.freelist ≡ 0)) ⊎ ((walk_from level p va false new ≡ (pte, new)) × (pte ≢ 0))

abbrev Walked : ℕ → ℕ → (ℕ → ℕ) → (ℕ → ℕ) → ℕ → ℕ → ℕ → Kmem → Type 0
Walked end_addr root lev pre level p va m =
    (pte : ℕ) × (new : Kmem) × (walk_from level p va true m ≡ (pte, new))
    × Grows end_addr root lev pre m new
    × Ended level p va pte new

-- Where the entry is not valid and the walk goes on from a new table.
walk_from-table :
    (level p va child : ℕ) (m m1 : Kmem)
    → kalloc m ≡ (child, m1)
    → child ≢ 0
    → pte_v (m.mem (p + 8 * px (suc level) va)) ≡ false
    → (walk_from (suc level) p va true m
        ≡ walk_from level child va true (with_table child (p + 8 * px (suc level) va) m1))
unfolding walk_from
walk_from-table level p va child m m1 e nonzero empty =
    let no : (child == 0) ≡ false = ground arith in rw (empty, e, no) refl

-- Past a valid entry.
Ended-down :
    (level p va child pte : ℕ) (new : Kmem)
    → pte_v (new.mem (p + 8 * px (suc level) va)) ≡ true
    → pte2pa (new.mem (p + 8 * px (suc level) va)) ≡ child
    → Ended level child va pte new
    → Ended (suc level) p va pte new
unfolding walk_from
Ended-down level p va child pte new v to (inl full) = inl full
Ended-down level p va child pte new v to (inr found) = inr (rw (v, to, found.0) refl, found.1)

module _ {end_addr root : ℕ} where
  -- A valid entry on the way leads on.
  walk_from-down :
      (level p va child : ℕ) {lev pre : ℕ → ℕ} (m : Kmem)
      → OnWay lev pre (suc level) p va
      → pte_v (m.mem (p + 8 * px (suc level) va)) ≡ true
      → pte2pa (m.mem (p + 8 * px (suc level) va)) ≡ child
      → Walked end_addr root lev pre level child va m
      → Walked end_addr root lev pre (suc level) p va m
  unfolding walk_from
  walk_from-down level p va child m way v to (pte, new, e, g, end) =
      let word = g.entries p level (px (suc level) va) way.0 (px_bound (suc level) va) v in
      let v' : pte_v (new.mem (p + 8 * px (suc level) va)) ≡ true = ap pte_v word ∙ v in
      let to' : pte2pa (new.mem (p + 8 * px (suc level) va)) ≡ child = ap pte2pa word ∙ to in
      (pte, new, rw (v, to, e) refl, g, Ended-down level p va child pte new v' to' end)

  -- Where the entry is not valid and no page is free.
  walk_from-full :
      (level p va : ℕ) {lev pre : ℕ → ℕ} (m : Kmem)
      → Tree end_addr root lev pre m []
      → pte_v (m.mem (p + 8 * px (suc level) va)) ≡ false
      → Walked end_addr root lev pre (suc level) p va m
  unfolding walk_from
  walk_from-full level p va m t empty =
      let e = kalloc-none end_addr t.free in
      (0, m, rw (empty, e) refl, Grows-refl t, inl (refl, t.free.chain))

  pub walk_from-grows :
      (level p va : ℕ) {lev pre : ℕ → ℕ} (m : Kmem) (pages : List ℕ)
      → Tree end_addr root lev pre m pages
      → OnWay lev pre level p va
      → Walked end_addr root lev pre level p va m
  unfolding walk_from
  walk_from-grows zero p va m pages t way =
      let (pte, e, end) = walk_from-reads zero p va t way in
      (p + 8 * px 0 va, m, refl, Grows-refl t, inr (refl, omega (arith, (t.tables p 0 way.0).1)))
  walk_from-grows (suc level) p va m [] t way =
      elim (Bool-cases (pte_v (m.mem (p + 8 * px (suc level) va)))) [
        | inl valid ↦
            walk_from-down level p va _ m way valid refl
              (walk_from-grows level _ va m [] t (OnWay-down level p va t way valid))
        | inr empty ↦ walk_from-full level p va m t empty
      ]
  walk_from-grows (suc level) p va m (child ∷ rest) t way =
      elim (Bool-cases (pte_v (m.mem (p + 8 * px (suc level) va)))) [
        | inl valid ↦
            walk_from-down level p va _ m way valid refl
              (walk_from-grows level _ va m (child ∷ rest) t (OnWay-down level p va t way valid))
        | inr empty ↦
            let (m1, e, nonzero, g, at, prefix, link) =
              grow_step level p (px (suc level) va) child rest t way.0 (px_bound (suc level) va)
                empty in
            let split = above_split level va (omega (arith, (t.tables p (suc level) way.0).2)) in
            let (pte, new, e', h, end) =
              walk_from-grows level child va _ g.pages g.tree
                (at, omega (arith, prefix, way.1, split)) in
            let page = t.free.are_pages.0.0 in
            let old = g.kept p (omega (arith, way.0)) in
            let word =
              h.entries p level (px (suc level) va) (old.0 ∙ way.0) (px_bound (suc level) va)
                (rw link (ground arith))
              ∙ link in
            (
              pte,
              new,
              walk_from-table level p va child m m1 e nonzero empty ∙ e',
              Grows-trans g h,
              Ended-down level p va child pte new (rw word (ground arith)) (rw word (omega arith))
                  end,
            )
      ]
