-- ===== src/Vm/Copy.antt =====
-- kernel/vm.c: the copies between the kernel and a user's pages, over a memory of bytes whose 64-bit words
-- stand with the low byte first. The page tables are in the same memory, and each round walks them
-- anew.
mod Out
mod In
mod Tests
use xv.Prelude.{
  ℕ, zero, suc, ◌+◌, ◌-◌, ◌*◌, ◌/◌, ◌%◌, Bool, true, false, ltb, leb, ◌==◌, if◌then◌else◌, update,
  ◌&&◌, not, ◌||◌,
}
use xv.Prelude.Int.{ℤ, pos, negsuc}
use xv.Panic.{Result, ok, panic, ◌>>=◌, ◌>>◌}
use xv.Strings.{Memory, memmove}
use xv.Kalloc.{Kmem, pgsize}
use xv.Vm.{walkaddr, pgrounddown}

-- the 64-bit word at an address
pub word : Memory → ℕ → ℕ
word m a =
    m a
    + 256
      * (m (a + 1)
          + 256
            * (m (a + 2)
                + 256
                  * (m (a + 3)
                      + 256
                        * (m (a + 4) + 256 * (m (a + 5) + 256 * (m (a + 6) + 256 * m (a + 7)))))))

-- The memory as `walkaddr` sees it, which allocates nothing.
abbrev pub view : Memory → Kmem
view m = record { mem = word m; freelist = 0 }

-- `n`, of the address and what is left
pub chunk : ℕ → ℕ → ℕ
chunk va len = let n = pgsize - (va - pgrounddown va) in if ltb len n then len else n

-- The loop of `copyout`, for at most so many rounds.
pub copyout_loop : (rounds pagetable dstva src len : ℕ) → Memory → Result (ℤ × Memory)
unfolding chunk walkaddr memmove
copyout_loop zero pagetable dstva src len m = ok (negsuc 0, m)
copyout_loop (suc rounds) pagetable dstva src len m =
    let va0 = pgrounddown dstva in
    let n = chunk dstva len in
    if len == 0 then ok (pos 0, m) else do
      pa0 ← walkaddr pagetable va0 (view m)
      (if pa0 == 0
          then ok (negsuc 0, m)
          else copyout_loop rounds pagetable (va0 + pgsize) (src + n) (len - n)
              (memmove (pa0 + (dstva - va0)) src n m))

-- `len / PGSIZE + 3` rounds are enough: one for each page that the range touches, and one to stop.
pub copyout : (pagetable dstva src len : ℕ) → Memory → Result (ℤ × Memory)
unfolding copyout_loop
copyout pagetable dstva src len m = copyout_loop (len / pgsize + 3) pagetable dstva src len m

-- The loop of `copyin`, for at most so many rounds.
pub copyin_loop : (rounds pagetable dst srcva len : ℕ) → Memory → Result (ℤ × Memory)
unfolding chunk walkaddr memmove
copyin_loop zero pagetable dst srcva len m = ok (negsuc 0, m)
copyin_loop (suc rounds) pagetable dst srcva len m =
    let va0 = pgrounddown srcva in
    let n = chunk srcva len in
    if len == 0 then ok (pos 0, m) else do
      pa0 ← walkaddr pagetable va0 (view m)
      (if pa0 == 0
          then ok (negsuc 0, m)
          else copyin_loop rounds pagetable (dst + n) (va0 + pgsize) (len - n)
              (memmove dst (pa0 + (srcva - va0)) n m))

-- `len / PGSIZE + 3` rounds are enough here too.
pub copyin : (pagetable dst srcva len : ℕ) → Memory → Result (ℤ × Memory)
unfolding copyin_loop
copyin pagetable dst srcva len m = copyin_loop (len / pgsize + 3) pagetable dst srcva len m
