-- ===== src/Vm/Tables.antt =====
-- The tree of page tables. `lev p` is 1 more than the level of the table in the page `p`, or 0 where `p`
-- holds none; `pre p` is the part of the virtual addresses above that level's index.
use xv.Prelude.{
  ℕ, zero, suc, ◌+◌, ◌*◌, ◌/◌, ◌%◌, ◌^◌, ◌<◌, ◌≡◌, refl, ◌≢◌, ◌⊎◌, inl, inr, true, false, List,
  arith, Bool-cases, NotIn, if◌then◌else◌,
}
use xv.Vm.{px, walk_from, pte_v, pte2pa}
use xv.Kalloc.{Kmem, pgsize}
use xv.Kalloc.Chain.{FreeList}

-- `va` without the index of the level and what is below it
abbrev pub above : ℕ → ℕ → ℕ
above level va = va / 2 ^ (12 + 9 * suc level)

pub above_split : (l va : ℕ) → l < 2 → above l va ≡ above (suc l) va * 512 + px (suc l) va
unfolding px
above_split zero va lt = omega arith
above_split (suc zero) va lt = omega arith
above_split (suc (suc l)) va lt = absurd (omega arith)

pub px_bound : (l va : ℕ) → px l va < 512
unfolding px
px_bound l va = omega arith

pub page_split : (va : ℕ) → va / pgsize ≡ above 0 va * 512 + px 0 va
unfolding px
page_split va = omega arith

-- The translation as the hardware makes it, from the table `p` of the level on: the PTE of `va`, or 0
-- where an entry on the way is not valid.
unfoldable pub seen : ℕ → ℕ → ℕ → Kmem → ℕ
seen zero p va m = m.mem (p + 8 * px 0 va)
seen (suc level) p va m =
    let below = seen level (pte2pa (m.mem (p + 8 * px (suc level) va))) va m in
    if pte_v (m.mem (p + 8 * px (suc level) va)) then below else 0

pub record Tree (end_addr root : ℕ) (lev pre : ℕ → ℕ) (m : Kmem) (pages : List ℕ) : Type 0 where
  pub free : FreeList end_addr m pages
  pub root_lev : lev root ≡ 3
  pub root_pre : pre root ≡ 0
  pub tables : (p l : ℕ) → lev p ≡ suc l → (p % pgsize ≡ 0) × (p ≢ 0) × (l < 3) × NotIn p pages
  pub links :
      (p l i : ℕ)
      → lev p ≡ suc (suc l)
      → i < 512
      → pte_v (m.mem (p + 8 * i)) ≡ true
      → (lev (pte2pa (m.mem (p + 8 * i))) ≡ suc l)
        × (pre (pte2pa (m.mem (p + 8 * i))) ≡ pre p * 512 + i)

-- `p` is the table of the level on the way to `va`.
abbrev pub OnWay : (ℕ → ℕ) → (ℕ → ℕ) → ℕ → ℕ → ℕ → Type 0
OnWay lev pre level p va = (lev p ≡ suc level) × (pre p ≡ above level va)

module _ {end_addr root : ℕ} {lev pre : ℕ → ℕ} {m : Kmem} {pages : List ℕ} where
  pub OnWay-down :
      (level p va : ℕ)
      → Tree end_addr root lev pre m pages
      → OnWay lev pre (suc level) p va
      → pte_v (m.mem (p + 8 * px (suc level) va)) ≡ true
      → OnWay lev pre level (pte2pa (m.mem (p + 8 * px (suc level) va))) va
  OnWay-down level p va t way v =
      let lower = t.links p level (px (suc level) va) way.0 (px_bound (suc level) va) v in
      let here = t.tables p (suc level) way.0 in
      let split = above_split level va (omega (arith, here.2)) in
      (lower.0, omega (arith, lower.1, way.1, split))

  -- A walk that allocates nothing changes nothing, and ends where the hardware's translation does.
  pub walk_from-reads :
      (level p va : ℕ)
      → Tree end_addr root lev pre m pages
      → OnWay lev pre level p va
      → (pte : ℕ) × (walk_from level p va false m ≡ (pte, m))
        × (((pte ≡ 0) × (seen level p va m ≡ 0))
            ⊎ ((leaf : ℕ) × OnWay lev pre 0 leaf va
                × (pte ≡ leaf + 8 * px 0 va)
                × (pte ≢ 0)
                × (seen level p va m ≡ m.mem pte)))
  unfolding walk_from seen
  walk_from-reads zero p va t way =
      (p + 8 * px 0 va, refl, inr (p, way, refl, omega (arith, (t.tables p 0 way.0).1), refl))
  walk_from-reads (suc level) p va t way =
      elim (Bool-cases (pte_v (m.mem (p + 8 * px (suc level) va)))) [
        | inl valid ↦
            let (pte, e, end) = walk_from-reads level _ va t (OnWay-down level p va t way valid) in
            (pte, rw (valid, e) refl, rw valid end)
        | inr stop ↦ (0, rw stop refl, inl (refl, rw stop refl))
      ]
