-- ===== src/Vm/Tests.antt =====
-- The page tables on concrete memory.
use xv.Prelude.{ℕ, ◌≡◌, refl, false, [], ◌∷◌, arith, ap, ltb, if◌then◌else◌, ◌&&◌, ◌==◌}
use xv.Prelude.Int.{ℤ}
use xv.Panic.{ok, Result, ◌>>=◌}
use xv.Vm.{
  uvmcreate, pte_v, pte_bit, pte2pa, maxva, mappages, walkaddr, uvmunmap, uvmalloc, uvmdealloc,
  store, not_zero,
}
use xv.Kalloc.{Kmem}
use xv.Kalloc.Chain.{FreeList}
use xv.Vm.Map.{IsPageTable, shown, walkaddr_lem}
use xv.Vm.Mappages.{IsMapped, mappages_lem}
use xv.Vm.Create.{uvmcreate-IsPageTable}

-- six free pages
abbrev free_memory : Kmem
free_memory = record {
  mem = λ a.
      if a == 8192
      then 12288
      else if a == 12288
      then 16384
      else if a == 16384
      then 20480
      else if a == 20480
      then 24576
      else if a == 24576
      then 28672
      else 0;
  freelist = 8192;
}

free_memory-FreeList : FreeList 4096 free_memory (8192 ∷ 12288 ∷ 16384 ∷ 20480 ∷ 24576 ∷ 28672 ∷ [])
free_memory-FreeList = record {
  chain = ground arith;
  are_pages = ground arith;
  distinct = ground arith;
}

abbrev empty_table :
    (new : Kmem) × (uvmcreate free_memory ≡ (8192, new))
    × IsPageTable 4096 8192 new
    × ((va : ℕ) → shown 8192 va new ≡ 0)
empty_table =
    uvmcreate-IsPageTable 4096 8192 (12288 ∷ 16384 ∷ 20480 ∷ 24576 ∷ 28672 ∷ []) free_memory
      free_memory-FreeList

mappages_lem_example :
    (r : ℤ) × (new : Kmem) × (mappages 8192 5000 4000 20480 6 empty_table.0 ≡ ok (r, new))
    × IsMapped 4096 8192 1 5000 20480 6 empty_table.0 r new
mappages_lem_example =
    mappages_lem 4096 8192 5000 4000 20480 6 empty_table.0 empty_table.2 (omega arith) (omega arith)
      (omega arith) (λ v low within. ap pte_v (empty_table.3 v))

walkaddr_lem_example :
    walkaddr 8192 5000 empty_table.0
    ≡ ok (
        if ltb 5000 maxva
          && (pte_v (shown 8192 5000 empty_table.0) && pte_bit 4 (shown 8192 5000 empty_table.0))
        then pte2pa (shown 8192 5000 empty_table.0)
        else 0)
walkaddr_lem_example = walkaddr_lem 4096 8192 5000 empty_table.0 empty_table.2

-- Two pages mapped for the user, looked up, and unmapped.
session : Result (ℕ × ℕ × ℕ)
unfolding uvmcreate mappages walkaddr uvmunmap
session = do
  let (root, m) = uvmcreate free_memory
  (r, m1) ← mappages root 5000 4000 20480 22 m
  pa ← walkaddr root 8200 m1
  m2 ← uvmunmap 4096 root 4096 2 false m1
  gone ← walkaddr root 8200 m2
  ok (root, pa, gone)

session_runs : session ≡ ok (8192, 24576, 0)
unfolding session store
session_runs = refl

-- Memory for two pages, and back.
grown : Result (ℕ × ℕ × ℕ × ℕ)
unfolding uvmcreate uvmalloc walkaddr uvmdealloc
grown = do
  let (root, m) = uvmcreate free_memory
  (sz, m1) ← uvmalloc 4096 root 0 8000 4 m
  pa ← walkaddr root 4096 m1
  (back, m2) ← uvmdealloc 4096 root sz 100 m1
  ok (sz, pa, back, m2.freelist)

grown_runs : grown ≡ ok (8000, 24576, 100, 24576)
unfolding grown store not_zero
grown_runs = refl

-- Seven pages are more than there are: everything is taken back but the tables.
too_much : Result (ℕ × ℕ)
unfolding uvmcreate uvmalloc
too_much = do
  let (root, m) = uvmcreate free_memory
  (sz, m1) ← uvmalloc 4096 root 0 28672 4 m
  ok (sz, m1.freelist)

too_much_runs : too_much ≡ ok (0, 28672)
unfolding too_much store not_zero
too_much_runs = refl
