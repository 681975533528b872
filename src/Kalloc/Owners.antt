-- ===== src/Kalloc/Owners.antt =====
-- The allocator with its callers: who owns which page, from `kinit` on.
use xv.Prelude.{
  ℕ, zero, suc, ◌+◌, ◌-◌, ◌*◌, ◌/◌, ◌%◌, ◌≤◌, ◌<◌, ◌≡◌, refl, sym, ap, ◌∙◌, ◌≢◌, ◌⊎◌, inl, inr,
  Bool, true, false, List, [], ◌∷◌, arith, leb, ◌==◌, Bool-cases, update, All, NotIn, All-map,
}
use xv.Panic.{ok}
use xv.Kalloc.Chain.{
  FreeList, IsPage, kfree-FreeList, SameBut, kalloc-none, kalloc-FreeList, Chain-SameBut,
}
use xv.Kalloc.{Kmem, kinit, freerange_loop, pgsize, freerange, kalloc, kfree, phystop, pgroundup}
use mathlib.Core.Path.{subst}

module _ {end_addr : ℕ} where
  -- The rounds of `freerange` from an aligned `p` on free every page from there to `PHYSTOP`.
  freerange_loop-FreeList :
      (rounds p : ℕ) {m : Kmem} {pages : List ℕ}
      → 0 < end_addr
      → p % pgsize ≡ 0
      → end_addr ≤ p
      → phystop ≤ p + rounds * pgsize
      → FreeList end_addr m pages
      → All (λ q. q < p) pages
      → (m' : Kmem) × (all : List ℕ) × (freerange_loop end_addr rounds p phystop m ≡ ok m')
        × FreeList end_addr m' all
        × ((q : ℕ) → IsPage end_addr q → NotIn q all → NotIn q pages × (q < p))
  unfolding freerange_loop
  freerange_loop-FreeList zero p {m} {pages} pos aligned low enough v below =
      (m, pages, refl, v, λ q page out. (out, omega (arith, page)))
  freerange_loop-FreeList (suc rounds) p {m} {pages} pos aligned low enough v below =
      elim (Bool-cases (leb (p + pgsize) phystop)) [
        | inl room ↦
            let (m1, e, v1, same) =
              kfree-FreeList end_addr p pos (aligned, low, ground arith)
                (All-map (λ q. q < p) (λ x. x ≢ p) pages (λ x lt. omega arith) below) v in
            let (m2, all, e2, v2, cover) =
              freerange_loop-FreeList rounds (p + pgsize) pos (omega arith) (omega arith)
                (omega arith) v1
                (
                  omega arith,
                  All-map (λ q. q < p) (λ q. q < p + pgsize) pages (λ x lt. omega arith) below,
                ) in
            (
              m2,
              all,
              rw (room, e) e2,
              v2,
              λ q page out.
                  let (others, lt) = cover q page out in (others.1, omega (arith, page, others.0)),
            )
        | inr full ↦ (m, pages, rw full, v, λ q page out. (out, ground (arith, page)))
      ]

-- From a free list that is empty, `kinit` frees every page from `end` to `PHYSTOP` without a panic,
-- each of them once.
pub kinit_lem :
    (end_addr : ℕ) (mem : ℕ → ℕ)
    → 0 < end_addr
    → (m : Kmem) × (pages : List ℕ) × (kinit end_addr mem ≡ ok m)
      × FreeList end_addr m pages
      × ((p : ℕ) → IsPage end_addr p → NotIn p pages → ⊥)
unfolding kinit freerange pgroundup
kinit_lem end_addr mem pos =
    let (m, pages, e, v, cover) =
      freerange_loop-FreeList (phystop / pgsize) ((end_addr + pgsize - 1) / pgsize * pgsize)
        {m = record { mem = mem; freelist = 0 }} {pages = []} pos (omega arith) (omega arith)
        (omega arith) (record { chain = refl; are_pages = tt; distinct = tt }) tt in
    (m, pages, e, v, λ p page out. omega (arith, page, (cover p page out).1))

-- `owned p` says that a caller holds the page `p`.
pub record System : Type 0 where
  pub kmem : Kmem
  pub owned : ℕ → Bool

-- A caller frees only what it holds, and writes only into what it holds.
pub data Step (end_addr : ℕ) (s : System) : System → Type 0 where
  allocs :
      {p : ℕ} {m : Kmem}
      → kalloc s.kmem ≡ (p, m)
      → p ≢ 0
      → Step end_addr s (record { kmem = m; owned = update s.owned p true })
  fails : {m : Kmem} → kalloc s.kmem ≡ (0, m) → Step end_addr s (record s { kmem = m })
  frees :
      {p : ℕ} {m : Kmem}
      → s.owned p ≡ true
      → kfree end_addr p s.kmem ≡ ok m
      → Step end_addr s (record { kmem = m; owned = update s.owned p false })
  writes :
      {p : ℕ} (a v : ℕ)
      → s.owned p ≡ true
      → p ≤ a
      → a < p + pgsize
      → Step end_addr s (record s { kmem = record (s.kmem) { mem = update s.kmem.mem a v } })

pub data Reach (end_addr : ℕ) : System → Type 0 where
  start :
      (mem : ℕ → ℕ) {m : Kmem}
      → kinit end_addr mem ≡ ok m
      → Reach end_addr (record { kmem = m; owned = λ p. false })
  next : {s t : System} → Reach end_addr s → Step end_addr s t → Reach end_addr t

-- Every page is either owned or one of the free `pages`.
pub record Owners (end_addr : ℕ) (s : System) (pages : List ℕ) : Type 0 where
  pub valid : FreeList end_addr s.kmem pages
  pub owned_pages : (p : ℕ) → s.owned p ≡ true → IsPage end_addr p
  pub not_free : (p : ℕ) → s.owned p ≡ true → NotIn p pages
  pub no_leak : (p : ℕ) → IsPage end_addr p → s.owned p ≡ false → NotIn p pages → ⊥

abbrev pub Inv : ℕ → System → Type 0
Inv end_addr s = (pages : List ℕ) × Owners end_addr s pages

-- What `kalloc` gives to its caller.
abbrev pub Given : ℕ → System → ℕ → Kmem → Type 0
Given end_addr s p m =
    IsPage end_addr p
    × (s.owned p ≡ false)
    × SameBut p s.kmem.mem m.mem
    × Inv end_addr (record { kmem = m; owned = update s.owned p true })

module _ {end_addr : ℕ} {s : System} where
  alloc-Given :
      (p : ℕ) (ps : List ℕ)
      → Owners end_addr s (p ∷ ps)
      → (m : Kmem) × (kalloc s.kmem ≡ (p, m)) × Given end_addr s p m
  alloc-Given p ps v =
      let (m, e, w, same) = kalloc-FreeList end_addr p ps v.valid in
      let page = v.valid.are_pages.0 in
      (
        m,
        e,
        (
          page,
          (elim (Bool-cases (s.owned p)) [
            | inl held ↦ absurd ((v.not_free p held).0 refl)
            | inr free ↦ free
          ]),
          same,
          (
            ps,
            record {
              valid = w;
              owned_pages = λ r h. elim (Bool-cases (r == p)) [
                | inl here ↦ (let at : p ≡ r = ground arith in subst (IsPage end_addr) at page)
                | inr other ↦ v.owned_pages r (ground arith)
              ];
              not_free = λ r h. elim (Bool-cases (r == p)) [
                | inl here ↦
                    (let at : p ≡ r = ground arith in subst (λ x. NotIn x ps) at v.valid.distinct.0)
                | inr other ↦ (v.not_free r (ground arith)).1
              ];
              no_leak = λ r other h out. v.no_leak r other (ground arith) ((ground arith), out);
            },
          ),
        ),
      )

  free-Inv :
      (pages : List ℕ) (p : ℕ)
      → 0 < end_addr
      → Owners end_addr s pages
      → s.owned p ≡ true
      → (m : Kmem) × (kfree end_addr p s.kmem ≡ ok m)
        × Inv end_addr (record { kmem = m; owned = update s.owned p false })
  free-Inv pages p pos v held =
      let page = v.owned_pages p held in
      let (m, e, w, same) = kfree-FreeList end_addr p pos page (v.not_free p held) v.valid in
      (
        m,
        e,
        (
          p ∷ pages,
          record {
            valid = w;
            owned_pages = λ r h. v.owned_pages r (ground arith);
            not_free = λ r h. ((ground arith), v.not_free r (ground arith));
            no_leak = λ r other h out. v.no_leak r other (ground (arith, out.0)) out.1;
          },
        ),
      )

  write-Inv :
      (pages : List ℕ) (p a x : ℕ)
      → Owners end_addr s pages
      → s.owned p ≡ true
      → p ≤ a
      → a < p + pgsize
      → Owners end_addr (record s { kmem = record (s.kmem) { mem = update s.kmem.mem a x } }) pages
  write-Inv pages p a x v held low high = record {
    valid = record {
      chain =
          Chain-SameBut end_addr p s.kmem.mem _ s.kmem.freelist pages (λ b out. ground arith)
            (v.owned_pages p held).0 v.valid.are_pages (v.not_free p held) v.valid.chain;
      are_pages = v.valid.are_pages;
      distinct = v.valid.distinct;
    };
    owned_pages = v.owned_pages;
    not_free = v.not_free;
    no_leak = v.no_leak;
  }

same_memory :
    {end_addr : ℕ} {s : System} {m : Kmem}
    → m ≡ s.kmem
    → Inv end_addr s
    → Inv end_addr (record s { kmem = m })
same_memory {end_addr} {s} e v = subst (λ x. Inv end_addr (record s { kmem = x })) (sym e) v

ok_inj : {m n : Kmem} → ok m ≡ ok n → m ≡ n
ok_inj e = cc

Step-Inv :
    {end_addr : ℕ} {s t : System}
    → 0 < end_addr
    → Step end_addr s t
    → Inv end_addr s
    → Inv end_addr t
Step-Inv {end_addr} pos (allocs e ne) ([], v) =
    absurd (ne (ap (λ x. x.0) (sym e ∙ kalloc-none end_addr v.valid)))
Step-Inv {end_addr} {s} pos (allocs e ne) (q ∷ qs, v) =
    let (m, e', given) = alloc-Given q qs v in
    let at : (q, m) ≡ _ = sym e' ∙ e in
    subst (λ x. Inv end_addr (record { kmem = x.1; owned = update s.owned x.0 true })) at given.3
Step-Inv {end_addr} {s} pos (fails e) ([], v) =
    same_memory (ap (λ x. x.1) (sym e ∙ kalloc-none end_addr v.valid)) ([], v)
Step-Inv {end_addr} {s} pos (fails e) (q ∷ qs, v) =
    let (m, e', given) = alloc-Given q qs v in absurd (v.valid.chain.1 (ap (λ x. x.0) (sym e' ∙ e)))
Step-Inv {end_addr} {s} pos (frees {p} held e) (pages, v) =
    let (m, e', w) = free-Inv pages p pos v held in
    subst (λ x. Inv end_addr (record { kmem = x; owned = update s.owned p false }))
      (ok_inj (sym e' ∙ e)) w
Step-Inv pos (writes {p} a x held low high) (pages, v) =
    (pages, write-Inv pages p a x v held low high)

Reach-Inv : {end_addr : ℕ} {s : System} → 0 < end_addr → Reach end_addr s → Inv end_addr s
Reach-Inv {end_addr} pos (start mem e) =
    let (m, pages, e', v, cover) = kinit_lem end_addr mem pos in
    (
      pages,
      record {
        valid = subst (λ x. FreeList end_addr x pages) (ok_inj (sym e' ∙ e)) v;
        owned_pages = λ p h. cc;
        not_free = λ p h. cc;
        no_leak = λ p page h out. cover p page out;
      },
    )
Reach-Inv pos (next r st) = Step-Inv pos st (Reach-Inv pos r)

-- Whatever the callers do with the pages that they hold, `kalloc` gives either 0, and then every page
-- of the machine is held by some caller, or a page that no caller holds, and then it writes nothing
-- outside that page.
pub kalloc_fresh :
    {end_addr : ℕ} {s : System}
    → 0 < end_addr
    → Reach end_addr s
    → ((kalloc s.kmem ≡ (0, s.kmem)) × ((p : ℕ) → IsPage end_addr p → s.owned p ≡ true))
      ⊎ ((p : ℕ) × (m : Kmem) × (kalloc s.kmem ≡ (p, m))
          × (p ≢ 0)
          × IsPage end_addr p
          × (s.owned p ≡ false)
          × SameBut p s.kmem.mem m.mem)
kalloc_fresh {end_addr} {s} pos r = go (Reach-Inv pos r)
  where
    go :
        Inv end_addr s
        → ((kalloc s.kmem ≡ (0, s.kmem)) × ((p : ℕ) → IsPage end_addr p → s.owned p ≡ true))
          ⊎ ((p : ℕ) × (m : Kmem) × (kalloc s.kmem ≡ (p, m))
              × (p ≢ 0)
              × IsPage end_addr p
              × (s.owned p ≡ false)
              × SameBut p s.kmem.mem m.mem)
    go ([], v) = inl (
      kalloc-none end_addr v.valid,
      λ p page. elim (Bool-cases (s.owned p)) [
        | inl held ↦ held
        | inr free ↦ absurd (v.no_leak p page free tt)
      ],
    )
    go (p ∷ ps, v) =
        let (m, e, (page, free, same, w)) = alloc-Given p ps v in
        inr (p, m, e, v.valid.chain.1, page, free, same)

-- Whatever the callers do with the pages that they hold, `kfree` of a page that is held does not panic
-- and writes nothing outside that page.
pub kfree_owned :
    {end_addr : ℕ} {s : System} (p : ℕ)
    → 0 < end_addr
    → Reach end_addr s
    → s.owned p ≡ true
    → (m : Kmem) × (kfree end_addr p s.kmem ≡ ok m) × SameBut p s.kmem.mem m.mem
kfree_owned p pos r held =
    let (pages, v) = Reach-Inv pos r in
    let (m, e, w, same) =
      kfree-FreeList _ p pos (v.owned_pages p held) (v.not_free p held) v.valid in
    (m, e, same)
