-- ===== src/Vm/Create.antt =====
-- `uvmcreate`: an empty page table.
use xv.Prelude.{
  ℕ, ◌+◌, ◌*◌, ◌≤◌, ◌<◌, ◌≡◌, refl, inl, inr, false, List, ◌∷◌, arith, ◌==◌, Bool-cases,
  if◌then◌else◌, NotIn,
}
use xv.Vm.{uvmcreate, zero_page}
use xv.Kalloc.{Kmem, pgsize, memset_page}
use xv.Kalloc.Chain.{FreeList, Chain-SameBut, kalloc-FreeList}
use mathlib.Core.Path.{subst}
use xv.Vm.Grow.{seen-zeros}
use xv.Vm.Map.{IsPageTable, shown}

-- With a free page, `uvmcreate` gives a page table that translates nothing.
pub uvmcreate-IsPageTable :
    (end_addr root : ℕ) (rest : List ℕ) (m : Kmem)
    → FreeList end_addr m (root ∷ rest)
    → (new : Kmem) × (uvmcreate m ≡ (root, new))
      × IsPageTable end_addr root new
      × ((va : ℕ) → shown root va new ≡ 0)
unfolding uvmcreate zero_page memset_page
uvmcreate-IsPageTable end_addr root rest m v =
    let (m1, e, w, same) = kalloc-FreeList end_addr root rest v in
    let page = v.are_pages.0 in
    let some_page : (root == 0) ≡ false = ground (arith, v.chain.1) in
    let zeros : (a : ℕ) → root ≤ a → a < root + pgsize → (zero_page root m1).mem a ≡ 0 =
      λ a low high. ground arith in
    (
      zero_page root m1,
      rw (e, some_page) refl,
      record {
        lev = λ p. if p == root then 3 else 0;
        pre = λ p. 0;
        pages = rest;
        tree = record {
          free = record {
            chain =
                Chain-SameBut end_addr root m1.mem _ m1.freelist rest (λ a out. ground arith) page.0
                  v.are_pages.1 v.distinct.0 w.chain;
            are_pages = w.are_pages;
            distinct = w.distinct;
          };
          root_lev = ground arith;
          root_pre = refl;
          tables = λ p l at. elim (Bool-cases (p == root)) [
            | inl here ↦
                let eq : root ≡ p = ground arith in
                (
                  omega (arith, page.0, eq),
                  ground (arith, v.chain.1, eq),
                  ground arith,
                  subst (λ x. NotIn x rest) eq v.distinct.0,
                )
            | inr other ↦ absurd (ground arith)
          ];
          links = λ p l i at lt valid.
              let eq : p ≡ root = ground arith in
              let word : (zero_page root m1).mem (p + 8 * i) ≡ 0 =
                zeros _ (omega arith) (omega arith) in
              absurd (ground arith);
        };
      },
      λ va. seen-zeros 2 root va _ zeros,
    )
