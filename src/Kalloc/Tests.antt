-- ===== src/Kalloc/Tests.antt =====
-- The allocator at work on concrete pages.
use xv.Prelude.{ℕ, ◌≡◌, refl, ◌≢◌, ◌⊎◌, true, false, arith, update}
use xv.Kalloc.Owners.{Reach, start, next, allocs, kalloc_fresh}
use xv.Kalloc.{
  Kmem, kinit, memset_page, kfree, freerange, kalloc, junk_given, junk_freed, pgroundup,
  freerange_loop,
}
use xv.Kalloc.Chain.{IsPage, SameBut}

-- The kernel ends 65,536 bytes below `PHYSTOP`.
abbrev first : ℕ
first = 2281635840

-- The kernel ends two pages below `PHYSTOP`.
abbrev two_left : ℕ
two_left = 2281693184

abbrev booted : Kmem
booted = record {
  mem =
      update
        (memset_page 2281697280 junk_freed
          (update (memset_page 2281693184 junk_freed (λ a. a)) 2281693184 0))
        2281697280 2281693184;
  freelist = 2281697280;
}

booted-Reach : Reach two_left (record { kmem = booted; owned = λ p. false })
unfolding kinit freerange pgroundup freerange_loop kfree
booted-Reach = start (λ a. a) refl

abbrev one_given : Kmem
one_given = record { mem = memset_page 2281697280 junk_given booted.mem; freelist = 2281693184 }

one_given-Reach :
    Reach two_left (record { kmem = one_given; owned = update (λ p. false) 2281697280 true })
unfolding kalloc memset_page
one_given-Reach = next booted-Reach (allocs refl (omega arith))

kalloc_fresh_example :
    ((kalloc one_given ≡ (0, one_given))
      × ((p : ℕ) → IsPage two_left p → update (λ q. false) 2281697280 true p ≡ true))
    ⊎ ((p : ℕ) × (m : Kmem) × (kalloc one_given ≡ (p, m))
        × (p ≢ 0)
        × IsPage two_left p
        × (update (λ q. false) 2281697280 true p ≡ false)
        × SameBut p one_given.mem m.mem)
kalloc_fresh_example = kalloc_fresh (omega arith) one_given-Reach
