-- ===== src/Spinlock.antt =====
-- kernel/spinlock.c: `push_off` and `pop_off` of one CPU, and the locks that use them.
pub mod Nesting
mod Tests
use xv.Panic.{Result, ok, panic, ◌>>=◌, ◌>>◌, panic_if}
use xv.Prelude.{
  ℕ, ◌+◌, ◌-◌, Bool, true, false, not, ◌&&◌, Option, none, some, ltb, ◌==◌, if◌then◌else◌,
}

-- `noff` and `intena` of `struct cpu`, and whether interrupts are on.
pub record Cpu : Type 0 where
  pub noff : ℕ
  pub intena : Bool
  pub intr : Bool

pub push_off : Cpu → Cpu
push_off c = record {
  noff = c.noff + 1;
  intena = if c.noff == 0 then c.intr else c.intena;
  intr = false;
}

pub pop_off : Cpu → Result Cpu
pop_off c = do
  panic_if c.intr "pop_off - interruptible"
  panic_if (ltb c.noff 1) "pop_off"
  ok (record c { noff = c.noff - 1; intr = if c.noff - 1 == 0 && c.intena then true else c.intr })

-- `locked`, and the CPU that holds the lock.
pub record Spinlock : Type 0 where
  pub locked : Bool
  pub holder : Option ℕ

pub holding : ℕ → Spinlock → Bool
holding me lk = lk.locked && elim (lk.holder) [ none ↦ false | some i ↦ i == me ]

-- `acquire` by CPU `me` of a lock that is free once it spins.
pub acquire : ℕ → Spinlock → Cpu → Result (Spinlock × Cpu)
unfolding push_off holding
acquire me lk c = do
  panic_if (holding me lk) "acquire"
  ok (record { locked = true; holder = some me }, push_off c)

pub release : ℕ → Spinlock → Cpu → Result (Spinlock × Cpu)
unfolding pop_off holding
release me lk c = do
  panic_if (not (holding me lk)) "release"
  c' ← pop_off c
  ok (record { locked = false; holder = none }, c')
