-- ===== src/Kalloc/Chain.antt =====
-- The free list as a chain of distinct pages.
use xv.Prelude.{
  ℕ, ◌+◌, ◌%◌, ◌≤◌, ◌<◌, ◌≡◌, refl, ap, ◌≢◌, ◌⊎◌, inl, inr, not, ◌||◌, List, [], ◌∷◌, arith, ltb,
  leb, ◌==◌, Bool-cases, update, All, NotIn, Distinct,
}
use xv.Kalloc.{kalloc, kfree, pgsize, Kmem, phystop, memset_page, junk_given, junk_freed}
use xv.Panic.{panic, ok}

abbrev pub IsPage : ℕ → ℕ → Type 0
IsPage end_addr p = (p % pgsize ≡ 0) × (end_addr ≤ p) × (p < phystop)

-- The words that lead from `head` through just these pages to 0.
abbrev pub Chain : (ℕ → ℕ) → ℕ → List ℕ → Type 0
Chain mem head [] = head ≡ 0
Chain mem head (p ∷ ps) = (head ≡ p) × (p ≢ 0) × Chain mem (mem p) ps

pub record FreeList (end_addr : ℕ) (m : Kmem) (pages : List ℕ) : Type 0 where
  pub chain : Chain m.mem m.freelist pages
  pub are_pages : All (IsPage end_addr) pages
  pub distinct : Distinct pages

-- What lies outside the page `p` is the same in both memories.
abbrev pub SameBut : ℕ → (ℕ → ℕ) → (ℕ → ℕ) → Type 0
SameBut p mem new = (a : ℕ) → (a < p) ⊎ (p + pgsize ≤ a) → new a ≡ mem a

pub Chain-SameBut :
    (end_addr p : ℕ) (mem new : ℕ → ℕ) (head : ℕ) (pages : List ℕ)
    → SameBut p mem new
    → p % pgsize ≡ 0
    → All (IsPage end_addr) pages
    → NotIn p pages
    → Chain mem head pages
    → Chain new head pages
Chain-SameBut end_addr p mem new head [] same aligned ok_all fresh c = c
Chain-SameBut end_addr p mem new head (q ∷ qs) same aligned ok_all fresh c =
    let kept : new q ≡ mem q = same q (omega (arith, ok_all.0, fresh.0)) in
    (
      c.0,
      c.1,
      rw kept (Chain-SameBut end_addr p mem new (mem q) qs same aligned ok_all.1 fresh.1 c.2),
    )

module _ (end_addr : ℕ) where
  -- `kfree` of an address that is no page of the allocator panics.
  pub kfree-panic :
      (p : ℕ) (m : Kmem) → (IsPage end_addr p → ⊥) → kfree end_addr p m ≡ panic "kfree"
  unfolding kfree
  kfree-panic p m bad =
      elim (Bool-cases (not (p % pgsize == 0) || (ltb p end_addr || leb phystop p))) [
        | inl stop ↦ rw stop
        | inr go ↦ absurd (bad (ground arith, ground arith, ground arith))
      ]

  -- `kfree` of a page that is not free puts it in front, and writes nothing outside it.
  pub kfree-FreeList :
      (p : ℕ) {m : Kmem} {pages : List ℕ}
      → 0 < end_addr
      → IsPage end_addr p
      → NotIn p pages
      → FreeList end_addr m pages
      → (m' : Kmem) × (kfree end_addr p m ≡ ok m')
        × FreeList end_addr m' (p ∷ pages)
        × SameBut p m.mem m'.mem
  unfolding kfree memset_page
  kfree-FreeList p {m} {pages} pos page fresh v =
      let same : SameBut p m.mem (update (memset_page p junk_freed m.mem) p m.freelist) =
        λ a out. ground arith in
      (
        record { mem = update (memset_page p junk_freed m.mem) p m.freelist; freelist = p },
        ground arith,
        record {
          chain = (
            refl,
            omega arith,
            (let here : update (memset_page p junk_freed m.mem) p m.freelist p ≡ m.freelist =
                  ground arith in
                rw here (
                  Chain-SameBut end_addr p m.mem _ m.freelist pages same page.0 v.are_pages fresh
                    v.chain)),
          );
          are_pages = (page, v.are_pages);
          distinct = (fresh, v.distinct);
        },
        same,
      )

  -- `kalloc` takes the first page off the chain and writes nothing outside it.
  pub kalloc-FreeList :
      {m : Kmem} (p : ℕ) (pages : List ℕ)
      → FreeList end_addr m (p ∷ pages)
      → (m' : Kmem) × (kalloc m ≡ (p, m')) × FreeList end_addr m' pages × SameBut p m.mem m'.mem
  unfolding kalloc memset_page
  kalloc-FreeList {m} p pages v =
      let same : SameBut p m.mem (memset_page m.freelist junk_given m.mem) =
        λ a out. ground (arith, v.chain.0) in
      let at : m.mem m.freelist ≡ m.mem p = ap m.mem v.chain.0 in
      (
        record { mem = memset_page m.freelist junk_given m.mem; freelist = m.mem m.freelist },
        ground (arith, v.chain.0, v.chain.1),
        record {
          chain = rw at (
              Chain-SameBut end_addr p m.mem _ (m.mem p) pages same v.are_pages.0.0 v.are_pages.1
                v.distinct.0 v.chain.2);
          are_pages = v.are_pages.1;
          distinct = v.distinct.1;
        },
        same,
      )

  pub kalloc-none : {m : Kmem} → FreeList end_addr m [] → kalloc m ≡ (0, m)
  unfolding kalloc
  kalloc-none v = ground (arith, v.chain)
