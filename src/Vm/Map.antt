-- ===== src/Vm/Map.antt =====
-- `walkaddr` and one page of `mappages` against the hardware's translation.
use xv.Prelude.{
  ℕ, ◌+◌, ◌-◌, ◌*◌, ◌/◌, ◌≤◌, ◌<◌, ◌≡◌, refl, sym, ap, ◌∙◌, ◌⊎◌, inl, inr, Bool, true, false, ◌&&◌,
  List, arith, leb, ltb, ◌==◌, Bool-cases, if◌then◌else◌,
}
use xv.Prelude.Int.{ℤ, pos, negsuc}
use xv.Panic.{ok}
use xv.Vm.{px, walk, walkaddr, pte_v, pte_bit, pte2pa, store, maxva, map_page, make_pte}
use xv.Kalloc.{Kmem, pgsize}
use xv.Vm.Tables.{Tree, OnWay, seen, walk_from-reads}
use xv.Vm.Walk.{OnWay-Grows, walk_from-grows}
use xv.Vm.Store.{seen-page, store-Tree, seen-store_ne, seen-store_self}

-- `root` is a page table, beside the free pages of the allocator.
pub record IsPageTable (end_addr root : ℕ) (m : Kmem) : Type 0 where
  pub lev : ℕ → ℕ
  pub pre : ℕ → ℕ
  pub pages : List ℕ
  pub tree : Tree end_addr root lev pre m pages

-- The PTE by which the hardware translates `va`, 0 for none.
abbrev pub shown : ℕ → ℕ → Kmem → ℕ
shown root va m = seen 2 root va m

OnWay-root :
    {end_addr root va : ℕ} {lev pre : ℕ → ℕ} {m : Kmem} {pages : List ℕ}
    → Tree end_addr root lev pre m pages
    → va < maxva
    → OnWay lev pre 2 root va
OnWay-root t lt = (t.root_lev, omega (arith, t.root_pre))

-- In a page table, `walkaddr` of any address returns 0 where that is out of range or the hardware finds no
-- valid PTE with `PTE_U`, and the page of the PTE that the hardware finds elsewhere. It never panics.
pub walkaddr_lem :
    (end_addr root va : ℕ) (m : Kmem)
    → IsPageTable end_addr root m
    → walkaddr root va m
      ≡ ok (
          if ltb va maxva && (pte_v (shown root va m) && pte_bit 4 (shown root va m))
          then pte2pa (shown root va m)
          else 0)
unfolding walkaddr walk
walkaddr_lem end_addr root va m table = elim (Bool-cases (leb maxva va)) [
  | inl high ↦ let low : ltb va maxva ≡ false = ground arith in rw (high, low) refl
  | inr in_range ↦
      let low : ltb va maxva ≡ true = ground arith in
      let (pte, e, end) =
        walk_from-reads 2 root va table.tree (OnWay-root table.tree (ground arith)) in
      elim end [
        | inl (null, none_seen) ↦
            let here : (pte == 0) ≡ true = ground arith in
            rw (in_range, low, e, here, none_seen) refl
        | inr (leaf, way, at, nonzero, at_pte) ↦
            let here : (pte == 0) ≡ false = ground arith in
            rw (in_range, low, e, here, at_pte) (ground arith)
      ]
]

-- The pages from that of `a` on, `left` of them after the first.
abbrev pub InRange : ℕ → ℕ → ℕ → Type 0
InRange left a v = (a / pgsize ≤ v / pgsize) × (v / pgsize ≤ a / pgsize + left)

abbrev pub OutOfRange : ℕ → ℕ → ℕ → Type 0
OutOfRange left a v = (v / pgsize < a / pgsize) ⊎ (a / pgsize + left < v / pgsize)

-- What `mappages` does with the pages from `a` on: it maps them all, or runs out of memory and fails;
-- the other addresses below `MAXVA` translate as before.
pub record Mapping (end_addr root left a pa perm : ℕ) (m : Kmem) (r : ℤ) (new : Kmem) : Type 0 where
  pub table : IsPageTable end_addr root new
  pub others : (v : ℕ) → v < maxva → OutOfRange left a v → shown root v new ≡ shown root v m
  pub result :
      ((r ≡ pos 0)
        × ((v : ℕ)
            → v < maxva
            → InRange left a v
            → shown root v new ≡ make_pte (pa + (v / pgsize - a / pgsize) * pgsize) perm))
      ⊎ ((r ≡ negsuc 0) × (new.freelist ≡ 0))

unfoldable pub status : Bool → ℤ
status mapped = if mapped then pos 0 else negsuc 0

module _ {end_addr root : ℕ} where
  -- One page: the loop's body.
  pub map_page-Mapping :
      (a pa perm : ℕ) (m : Kmem)
      → IsPageTable end_addr root m
      → a < maxva
      → pte_v (shown root a m) ≡ false
      → (mapped : Bool) × (new : Kmem) × (map_page root a pa perm m ≡ ok (mapped, new))
        × Mapping end_addr root 0 a pa perm m (status mapped) new
  unfolding map_page walk status
  map_page-Mapping a pa perm m table lt free =
      let t = table.tree in
      let way = OnWay-root t lt in
      let (pte, m1, e, g, end) = walk_from-grows 2 root a m table.pages t way in
      let in_range : leb maxva a ≡ false = ground arith in
      let way1 = OnWay-Grows a g way in
      let (pte', e', found) = walk_from-reads 2 root a g.tree way1 in
      elim end [
        | inl (null, full) ↦
            let here : (pte == 0) ≡ true = ground arith in
            (
              false,
              m1,
              rw (in_range, e, here) refl,
              record {
                table = record { lev = g.lev_new; pre = g.pre_new; pages = g.pages; tree = g.tree };
                others = λ v low out. g.shows 2 root v (OnWay-root t low);
                result = inr (refl, full);
              },
            )
        | inr (at, nonzero) ↦
            let same_pte : pte' ≡ pte = ap (λ x. x.0) (sym e' ∙ at) in
            elim found [
              | inl (null, none_seen) ↦ absurd (nonzero (sym same_pte ∙ null))
              | inr (leaf, leaf_way, at_leaf, nz, at_pte) ↦
                  let here : (pte == 0) ≡ false = ground arith in
                  let eq : pte ≡ leaf + 8 * px 0 a = sym same_pte ∙ at_leaf in
                  let word : m1.mem pte ≡ shown root a m =
                    ap m1.mem (sym same_pte) ∙ sym at_pte ∙ g.shows 2 root a way in
                  let unused : pte_v (m1.mem pte) ≡ false = ap pte_v word ∙ free in
                  let value = make_pte pa perm in
                  let own =
                    seen-store_self g.tree leaf a value leaf_way 2 root way1 (rw eq at at) in
                  (
                    true,
                    store (leaf + 8 * px 0 a) value m1,
                    rw (in_range, e, here, unused, eq) refl,
                    record {
                      table = record {
                        lev = g.lev_new;
                        pre = g.pre_new;
                        pages = g.pages;
                        tree = store-Tree g.tree leaf a value leaf_way;
                      };
                      others = λ v low out.
                          seen-store_ne g.tree leaf a value leaf_way 2 root v
                            (OnWay-Grows v g (OnWay-root t low)) (omega (arith, out))
                          ∙ g.shows 2 root v (OnWay-root t low);
                      result = inl (
                        refl,
                        λ v low within.
                            let page : v / pgsize ≡ a / pgsize =
                              omega (arith, within.0, within.1) in
                            let first : pa + (v / pgsize - a / pgsize) * pgsize ≡ pa =
                              omega arith in
                            seen-page 2 root v a _ (omega arith) page
                            ∙ own
                            ∙ ap (λ x. make_pte x perm) (sym first),
                      );
                    },
                  )
            ]
      ]
