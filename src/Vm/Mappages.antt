-- ===== src/Vm/Mappages.antt =====
-- `mappages`: the loop over the pages of the range.
use Prim.Native.Nat.{bit_or, bit_or-bitwise}
use xv.Prelude.{
  ℕ, zero, suc, ◌+◌, ◌-◌, ◌*◌, ◌/◌, ◌≤◌, ◌<◌, ◌≡◌, ◌⊎◌, refl, ap, ◌∙◌, inl, inr, true, false, arith,
  ◌==◌, Bool-cases,
}
use xv.Prelude.Int.{ℤ, pos, negsuc}
use xv.Panic.{ok}
use xv.Vm.{
  pte_v, pte2pa, pte_flags, maxva, map_page, mappages_loop, mappages, make_pte, pgrounddown,
}
use xv.Kalloc.{Kmem, pgsize}
use xv.Vm.Map.{IsPageTable, shown, InRange, OutOfRange, Mapping, status, map_page-Mapping}

module _ {end_addr root : ℕ} where
  -- The first page and then the others.
  Mapping-next :
      (left a pa perm : ℕ) {m m1 new : Kmem} {r : ℤ}
      → Mapping end_addr root 0 a pa perm m (pos 0) m1
      → Mapping end_addr root left (a + pgsize) (pa + pgsize) perm m1 r new
      → Mapping end_addr root (suc left) a pa perm m r new
  Mapping-next left a pa perm first rest = record {
    table = rest.table;
    others = λ v low out.
        rest.others v low (omega (arith, out)) ∙ first.others v low (omega (arith, out));
    result = elim rest.result [
      | inr full ↦ inr full
      | inl (zero_r, mapped) ↦ inl (
        zero_r,
        λ v low within. elim (Bool-cases (v / pgsize == a / pgsize)) [
          | inl here ↦
              let eq : v / pgsize ≡ a / pgsize = ground arith in
              rest.others v low (omega arith) ∙ (elim first.result [
                | inl (z, done) ↦ done v low (omega arith, omega arith)
                | inr (bad, full) ↦ cc
              ])
          | inr later ↦
              let gt : a / pgsize < v / pgsize = ground (arith, within.0) in
              let eq : pa + pgsize + (v / pgsize - (a + pgsize) / pgsize) * pgsize
                  ≡ pa + (v / pgsize - a / pgsize) * pgsize =
                omega arith in
              mapped v low (omega arith, omega (arith, within.1)) ∙ ap (λ x. make_pte x perm) eq
        ],
      )
    ];
  }

  Mapping-stop :
      (left a pa perm : ℕ) {m m1 : Kmem}
      → Mapping end_addr root 0 a pa perm m (negsuc 0) m1
      → Mapping end_addr root left a pa perm m (negsuc 0) m1
  Mapping-stop left a pa perm first = record {
    table = first.table;
    others = λ v low out. first.others v low (omega (arith, out));
    result = elim first.result [ inl (bad, _) ↦ cc | inr full ↦ inr full ];
  }

  mappages_loop-Mapping :
      (left a pa perm : ℕ) (m : Kmem)
      → IsPageTable end_addr root m
      → a + left * pgsize < maxva
      → ((v : ℕ) → v < maxva → InRange left a v → pte_v (shown root v m) ≡ false)
      → (r : ℤ) × (new : Kmem) × (mappages_loop left root a pa perm m ≡ ok (r, new))
        × Mapping end_addr root left a pa perm m r new
  unfolding mappages_loop status
  mappages_loop-Mapping zero a pa perm m table lt free =
      let (mapped, new, e, first) =
        map_page-Mapping a pa perm m table (omega arith)
          (free a (omega arith) (omega arith, omega arith)) in
      (status mapped, new, rw e refl, first)
  mappages_loop-Mapping (suc left) a pa perm m table lt free =
      let (mapped, m1, e, first) =
        map_page-Mapping a pa perm m table (omega arith)
          (free a (omega arith) (omega arith, omega arith)) in
      elim mapped
          as (λ b.
            map_page root a pa perm m ≡ ok (b, m1)
            → Mapping end_addr root 0 a pa perm m (status b) m1
            → (r : ℤ) × (new : Kmem) × (mappages_loop (suc left) root a pa perm m ≡ ok (r, new))
              × Mapping end_addr root (suc left) a pa perm m r new) [
                | true ↦ λ e first.
                    let (r, new, e', rest) =
                      mappages_loop-Mapping left (a + pgsize) (pa + pgsize) perm m1 first.table
                        (omega arith)
                        (λ v low within.
                          ap pte_v (first.others v low (omega (arith, within.0)))
                          ∙ free v low (omega (arith, within.0), omega (arith, within.1))) in
                    (r, new, rw (e, e') refl, Mapping-next left a pa perm first rest)
                | false ↦
                    λ e first. (negsuc 0, m1, rw e refl, Mapping-stop (suc left) a pa perm first)
              ]
        e first

mappages-mappages_loop :
    (root va size pa perm left : ℕ) (m : Kmem)
    → 0 < size
    → left ≡ (va + size - 1) / pgsize - va / pgsize
    → mappages root va size pa perm m ≡ mappages_loop left root (pgrounddown va) pa perm m
unfolding mappages
mappages-mappages_loop root va size pa perm left m pos_size pages =
    let some_size : (size == 0) ≡ false = ground arith in
    let count : (pgrounddown (va + size - 1) - pgrounddown va) / pgsize ≡ left = omega arith in
    rw (some_size, count) refl

mappages-Mapping :
    {end_addr root : ℕ} (va size pa perm left : ℕ) (m : Kmem)
    → IsPageTable end_addr root m
    → 0 < size
    → va + size ≤ maxva
    → left ≡ (va + size - 1) / pgsize - va / pgsize
    → ((v : ℕ) → v < maxva → InRange left va v → pte_v (shown root v m) ≡ false)
    → (r : ℤ) × (new : Kmem) × (mappages root va size pa perm m ≡ ok (r, new))
      × Mapping end_addr root left va pa perm m r new
mappages-Mapping {root} va size pa perm left m table pos_size fits pages free =
    let start : pgrounddown va / pgsize ≡ va / pgsize = omega arith in
    let (r, new, e, mapping) =
      mappages_loop-Mapping left (pgrounddown va) pa perm m table (omega arith)
        (λ v low within. free v low (omega (arith, within.0), omega (arith, within.1))) in
    (
      r,
      new,
      mappages-mappages_loop root va size pa perm left m pos_size pages ∙ e,
      record {
        table = mapping.table;
        others = λ v low out. mapping.others v low (omega (arith, out));
        result = elim mapping.result [
          | inl (z, mapped) ↦ inl (
            z,
            λ v low within.
                mapped v low (omega (arith, within.0), omega (arith, within.1))
                ∙ ap (λ x. make_pte (pa + (v / pgsize - x) * pgsize) perm) start,
          )
          | inr full ↦ inr full
        ];
      },
    )

-- The bits of a PTE, of a `perm` without bits of an address.
make_pte_lem :
    (pa perm : ℕ)
    → perm < 1024
    → (pte_v (make_pte pa perm) ≡ true)
      × (pte2pa (make_pte pa perm) ≡ pgrounddown pa)
      × (pte_flags (make_pte pa perm) / 2 ≡ perm / 2)
unfolding make_pte
make_pte_lem pa perm small =
    let none_high : perm / 1024 ≡ 0 = omega arith in
    let all : bit_or 0 (pa / 4096) ≡ pa / 4096 = λ i. bit_or-bitwise 0 (pa / 4096) i in
    rw (none_high, all) (ground arith, omega arith, omega arith)

-- In `new`, the pages from that of `va` on, `left` of them after the first, are those from `pa` on with
-- `perm`, or memory has run out.
pub record IsMapped (end_addr root left va pa perm : ℕ) (m : Kmem) (r : ℤ) (new : Kmem)
    : Type 0 where
  pub table : IsPageTable end_addr root new
  pub others : (v : ℕ) → v < maxva → OutOfRange left va v → shown root v new ≡ shown root v m
  pub result :
      ((r ≡ pos 0)
        × ((v : ℕ)
            → v < maxva
            → InRange left va v
            → (pte_v (shown root v new) ≡ true)
              × (pte2pa (shown root v new) ≡ pgrounddown (pa + (v / pgsize - va / pgsize) * pgsize))
              × (pte_flags (shown root v new) / 2 ≡ perm / 2)))
      ⊎ ((r ≡ negsuc 0) × (new.freelist ≡ 0))

-- In a page table, take `mappages` of a range of at least one byte below `MAXVA`, no page of which has a
-- valid PTE, with a `perm` below 1024, as every caller's is. It does not panic. Either it returns 0,
-- and the hardware then translates every address of the range's pages by a PTE whose valid bit is
-- set, whose page is the one at the same distance from `pa`, and whose flags are `perm` but for the
-- valid bit; or it returns -1 and no page of memory is free. Either way the result is a page table
-- beside the free pages, and every other address below `MAXVA` translates as before.
pub mappages_lem :
    (end_addr root va size pa perm : ℕ) (m : Kmem)
    → IsPageTable end_addr root m
    → 0 < size
    → va + size ≤ maxva
    → perm < 1024
    → ((v : ℕ)
        → v < maxva
        → InRange ((va + size - 1) / pgsize - va / pgsize) va v
        → pte_v (shown root v m) ≡ false)
    → (r : ℤ) × (new : Kmem) × (mappages root va size pa perm m ≡ ok (r, new))
      × IsMapped end_addr root ((va + size - 1) / pgsize - va / pgsize) va pa perm m r new
mappages_lem end_addr root va size pa perm m table pos_size fits small free =
    let (r, new, e, mapping) =
      mappages-Mapping va size pa perm ((va + size - 1) / pgsize - va / pgsize) m table pos_size
        fits refl free in
    (
      r,
      new,
      e,
      record {
        table = mapping.table;
        others = mapping.others;
        result = elim mapping.result [
          | inl (z, mapped) ↦ inl (
            z,
            λ v low within.
                rw (mapped v low within)
                  (make_pte_lem (pa + (v / pgsize - va / pgsize) * pgsize) perm small),
          )
          | inr full ↦ inr full
        ];
      },
    )
