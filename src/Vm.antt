-- ===== src/Vm.antt =====
-- kernel/vm.c and the page-table macros of kernel/riscv.h: the Sv39 page tables, in the memory of 64-bit
-- words of the page allocator. Addresses stay below 2^64 and no sum of them wraps around.
mod Tables
mod Grow
mod Walk
mod Store
mod Map
mod Mappages
mod Create
mod Copy
mod Tests
use Prim.Native.Nat.{bit_or}
use xv.Prelude.{
  ℕ, zero, suc, ◌+◌, ◌-◌, ◌*◌, ◌/◌, ◌%◌, ◌^◌, ◌&&◌, Bool, true, false, not, ltb, leb, ◌==◌,
  if◌then◌else◌, update,
}
use xv.Prelude.Int.{ℤ, pos, negsuc}
use xv.Panic.{Result, ok, panic, ◌>>=◌, ◌>>◌, panic_if}
use xv.Kalloc.{Kmem, kalloc, kfree, memset_page, pgsize, pgroundup}

-- one beyond the highest virtual address, a bit less than Sv39 allows
abbrev pub maxva : ℕ
maxva = 274877906944

-- A set bit is tested as an odd quotient: bit 0 is `PTE_V`, bits 1 to 4 are R, W, X and U.
abbrev pub pte_bit : ℕ → ℕ → Bool
pte_bit n pte = pte / 2 ^ n % 2 == 1

abbrev pub pte_v : ℕ → Bool
pte_v pte = pte % 2 == 1

abbrev pub pa2pte : ℕ → ℕ
pa2pte pa = pa / 4096 * 1024

abbrev pub pte2pa : ℕ → ℕ
pte2pa pte = pte / 1024 * 4096

abbrev pub pte_flags : ℕ → ℕ
pte_flags pte = pte % 1024

abbrev pub pgrounddown : ℕ → ℕ
pgrounddown a = a / pgsize * pgsize

-- `PX(level, va)`: the 9-bit index of `va` at the level
pub px : ℕ → ℕ → ℕ
px level va = va / 2 ^ (12 + 9 * level) % 512

-- `PA2PTE(pa) | perm | PTE_V`: the bits from 10 on, where `PA2PTE(pa)` has all of its own, and below
-- them those of `perm` with bit 0 set
pub make_pte : ℕ → ℕ → ℕ
make_pte pa perm = bit_or (perm / 1024) (pa / 4096) * 1024 + (perm % 1024 / 2 * 2 + 1)

pub not_zero : ℤ → Bool
not_zero (pos zero) = false
not_zero r = true

-- `*pte = value`
pub store : ℕ → ℕ → Kmem → Kmem
store pte value m = record m { mem = update m.mem pte value }

-- `memset(page, 0, PGSIZE)`
pub zero_page : ℕ → Kmem → Kmem
unfolding memset_page
zero_page page m = record m { mem = memset_page page 0 m.mem }

-- The loop of `walk` from `level` on; address 0 stands for a null pointer.
pub walk_from : (level : ℕ) → (pagetable va : ℕ) → Bool → Kmem → ℕ × Kmem
unfolding px
walk_from zero pagetable va alloc m = (pagetable + 8 * px 0 va, m)
walk_from (suc level) pagetable va alloc m =
    let pte = pagetable + 8 * px (suc level) va in
    let down = walk_from level (pte2pa (m.mem pte)) va alloc m in
    let (child, m1) = kalloc m in
    let fresh =
      walk_from level child va alloc (store pte (pa2pte child + 1) (zero_page child m1)) in
    if pte_v (m.mem pte)
    then down
    else if not alloc
    then (0, m)
    else if child == 0
    then (0, m1)
    else fresh

pub walk : (pagetable va : ℕ) → Bool → Kmem → Result (ℕ × Kmem)
unfolding walk_from
walk pagetable va alloc m = do panic_if (leb maxva va) "walk"; ok (walk_from 2 pagetable va alloc m)

pub walkaddr : (pagetable va : ℕ) → Kmem → Result ℕ
unfolding walk
walkaddr pagetable va m = if leb maxva va then ok 0 else do
  (pte, _) ← walk pagetable va false m
  ok (
      if pte == 0
      then 0
      else if not (pte_v (m.mem pte))
      then 0
      else if not (pte_bit 4 (m.mem pte))
      then 0
      else pte2pa (m.mem pte))

-- The body of the loop of `mappages`; false where `walk` fails.
pub map_page : (pagetable a pa perm : ℕ) → Kmem → Result (Bool × Kmem)
unfolding walk make_pte
map_page pagetable a pa perm m = do
  (pte, m1) ← walk pagetable a true m
  (if pte == 0 then ok (false, m1) else do
    panic_if (pte_v (m1.mem pte)) "mappages: remap"
    ok (true, store pte (make_pte pa perm) m1))

-- The loop of `mappages` from `a` on, where `left` is `(last - a) / PGSIZE`: `a == last` says that it is 0.
pub mappages_loop : (left pagetable a pa perm : ℕ) → Kmem → Result (ℤ × Kmem)
unfolding map_page
mappages_loop zero pagetable a pa perm m = do
  (mapped, m1) ← map_page pagetable a pa perm m
  ok (if mapped then pos 0 else negsuc 0, m1)
mappages_loop (suc left) pagetable a pa perm m = do
  (mapped, m1) ← map_page pagetable a pa perm m
  (if mapped
      then mappages_loop left pagetable (a + pgsize) (pa + pgsize) perm m1
      else ok (negsuc 0, m1))

pub mappages : (pagetable va size pa perm : ℕ) → Kmem → Result (ℤ × Kmem)
unfolding mappages_loop
mappages pagetable va size pa perm m = do
  panic_if (size == 0) "mappages: size"
  mappages_loop ((pgrounddown (va + size - 1) - pgrounddown va) / pgsize) pagetable (pgrounddown va)
      pa perm m

kvmmap : (kpgtbl va pa sz perm : ℕ) → Kmem → Result Kmem
unfolding mappages
kvmmap kpgtbl va pa sz perm m = do
  (r, m1) ← mappages kpgtbl va sz pa perm m
  panic_if (not_zero r) "kvmmap"
  ok m1

-- The linker's `end` is a parameter.
module _ (end_addr : ℕ) where
  -- `if(do_free) kfree((void*)pa);`
  unmap_free : Bool → ℕ → Kmem → Result Kmem
  unfolding kfree
  unmap_free true pa m = kfree end_addr pa m
  unmap_free false pa m = ok m

  -- The loop of `uvmunmap` from the page `a` on.
  uvmunmap_loop : (npages pagetable a : ℕ) → Bool → Kmem → Result Kmem
  unfolding walk unmap_free
  uvmunmap_loop zero pagetable a do_free m = ok m
  uvmunmap_loop (suc npages) pagetable a do_free m = do
    (pte, _) ← walk pagetable a false m
    panic_if (pte == 0) "uvmunmap: walk"
    panic_if (not (pte_v (m.mem pte))) "uvmunmap: not mapped"
    panic_if (pte_flags (m.mem pte) == 1) "uvmunmap: not a leaf"
    m1 ← unmap_free do_free (pte2pa (m.mem pte)) m
    uvmunmap_loop npages pagetable (a + pgsize) do_free (store pte 0 m1)

  pub uvmunmap : (pagetable va npages : ℕ) → Bool → Kmem → Result Kmem
  unfolding uvmunmap_loop
  uvmunmap pagetable va npages do_free m = do
    panic_if (not (va % pgsize == 0)) "uvmunmap: not aligned"
    uvmunmap_loop npages pagetable va do_free m

  pub uvmdealloc : (pagetable oldsz newsz : ℕ) → Kmem → Result (ℕ × Kmem)
  unfolding uvmunmap pgroundup
  uvmdealloc pagetable oldsz newsz m =
      if leb oldsz newsz
      then ok (oldsz, m)
      else if not (ltb (pgroundup newsz) (pgroundup oldsz))
      then ok (newsz, m)
      else do
        m1 ←
            uvmunmap pagetable (pgroundup newsz) ((pgroundup oldsz - pgroundup newsz) / pgsize) true
              m
        ok (newsz, m1)

  -- What `uvmalloc` does when it fails at `a`: the pages so far are taken back, and it returns 0.
  undo_alloc : (pagetable a oldsz : ℕ) → Kmem → Result (ℕ × Kmem)
  unfolding uvmdealloc
  undo_alloc pagetable a oldsz m = do (_, m1) ← uvmdealloc pagetable a oldsz m; ok (0, m1)

  -- The loop of `uvmalloc` from the page `a` on, for at most so many rounds. `PTE_R | PTE_U | xperm` is
  -- written for an `xperm` without these two bits.
  uvmalloc_loop : (rounds pagetable a oldsz newsz xperm : ℕ) → Kmem → Result (ℕ × Kmem)
  unfolding undo_alloc mappages zero_page kfree
  uvmalloc_loop zero pagetable a oldsz newsz xperm m = ok (newsz, m)
  uvmalloc_loop (suc rounds) pagetable a oldsz newsz xperm m =
      let (page, m1) = kalloc m in
      if not (ltb a newsz)
      then ok (newsz, m)
      else if page == 0
      then undo_alloc pagetable a oldsz m1
      else do
        (r, m2) ← mappages pagetable a pgsize page (18 + xperm) (zero_page page m1)
        (if not_zero r
            then kfree end_addr page m2 >>= undo_alloc pagetable a oldsz
            else uvmalloc_loop rounds pagetable (a + pgsize) oldsz newsz xperm m2)

  -- `newsz / PGSIZE + 1` rounds are enough.
  pub uvmalloc : (pagetable oldsz newsz xperm : ℕ) → Kmem → Result (ℕ × Kmem)
  unfolding uvmalloc_loop
  uvmalloc pagetable oldsz newsz xperm m =
      if ltb newsz oldsz
      then ok (oldsz, m)
      else uvmalloc_loop (newsz / pgsize + 1) pagetable (pgroundup oldsz) (pgroundup oldsz) newsz
          xperm m

pub uvmcreate : Kmem → ℕ × Kmem
unfolding kalloc zero_page
uvmcreate m =
    let (pagetable, m1) = kalloc m in
    if pagetable == 0 then (0, m1) else (pagetable, zero_page pagetable m1)

uvmclear : (pagetable va : ℕ) → Kmem → Result Kmem
unfolding walk
uvmclear pagetable va m = do
  (pte, _) ← walk pagetable va false m
  panic_if (pte == 0) "uvmclear"
  ok (store pte (if pte_bit 4 (m.mem pte) then m.mem pte - 16 else m.mem pte) m)
