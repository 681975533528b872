-- ===== src/Kalloc.antt =====
-- kernel/kalloc.c: the allocator of physical pages, whose free list runs through the free pages.
pub mod Chain
pub mod Owners
mod Tests
use xv.Panic.{Result, ok, panic, ◌>>=◌, ◌>>◌, panic_if}
use xv.Prelude.{
  ℕ, zero, suc, ◌+◌, ◌-◌, ◌*◌, ◌/◌, ◌%◌, not, ◌&&◌, ◌||◌, ltb, leb, ◌==◌, if◌then◌else◌, update,
}

-- `PGSIZE` and `PHYSTOP`
abbrev pub pgsize : ℕ
pgsize = 4096

abbrev pub phystop : ℕ
phystop = 2281701376

-- The 64-bit word at each address, and `kmem.freelist`, 0 for none. A `struct run` is one such word.
pub record Kmem : Type 0 where
  pub mem : ℕ → ℕ
  pub freelist : ℕ

-- `memset(pa, c, PGSIZE)`, where `word` is the word of eight bytes `c`
unfoldable pub memset_page : ℕ → ℕ → (ℕ → ℕ) → ℕ → ℕ
memset_page pa word mem a = if leb pa a && ltb a (pa + pgsize) then word else mem a

-- the words of bytes 1 and of bytes 5
abbrev pub junk_freed : ℕ
junk_freed = 72340172838076673

abbrev pub junk_given : ℕ
junk_given = 361700864190383365

unfoldable pub kalloc : Kmem → ℕ × Kmem
unfolding memset_page
kalloc m = if m.freelist == 0 then (0, m) else (
  m.freelist,
  record { mem = memset_page m.freelist junk_given m.mem; freelist = m.mem m.freelist },
)

unfoldable pub pgroundup : ℕ → ℕ
pgroundup sz = (sz + pgsize - 1) / pgsize * pgsize

-- The linker's `end` is a parameter.
module _ (end_addr : ℕ) where
  unfoldable pub kfree : ℕ → Kmem → Result Kmem
  unfolding memset_page
  kfree pa m = do
    panic_if (not (pa % pgsize == 0) || (ltb pa end_addr || leb phystop pa)) "kfree"
    ok (record { mem = update (memset_page pa junk_freed m.mem) pa m.freelist; freelist = pa })

  -- The loop of `freerange` from `p` on, for at most so many rounds.
  pub freerange_loop : ℕ → ℕ → ℕ → Kmem → Result Kmem
  unfolding kfree
  freerange_loop zero p pa_end m = ok m
  freerange_loop (suc rounds) p pa_end m =
      let next = kfree p m >>= freerange_loop rounds (p + pgsize) pa_end in
      if leb (p + pgsize) pa_end then next else ok m

  -- `pa_end / PGSIZE` rounds are enough.
  pub freerange : ℕ → ℕ → Kmem → Result Kmem
  unfolding freerange_loop pgroundup
  freerange pa_start pa_end = freerange_loop (pa_end / pgsize) (pgroundup pa_start) pa_end

  -- The free list is empty at first, as all static data.
  pub kinit : (ℕ → ℕ) → Result Kmem
  unfolding freerange
  kinit mem = freerange end_addr phystop (record { mem = mem; freelist = 0 })
