-- ===== src/Sched.antt =====
-- The choices of `scheduler` in kernel/proc.c, one for each scheduler that the Makefile can build. A
-- choice is made over the table of processes as the pass sees it, each entry under its lock.
pub mod Pick
pub mod Fcfs
pub mod Pbs
mod Tie
mod Tests
pub mod Lottery
use xv.Prelude.Int.{ℤ, pos, ◌+ℤ◌, ◌-ℤ◌, ltb_ℤ}
use xv.Panic.{Result, ok, panic, ◌>>=◌, ◌>>◌, panic_if}
use xv.Proc.{Proc, ProcState, runnable, running, Table, is_state}
use xv.Prelude.{
  ℕ, ◌+◌, ◌*◌, ◌/◌, Bool, true, false, not, ◌&&◌, Option, none, some, [], ◌∷◌, ltb, ◌==◌,
  if◌then◌else◌,
}

-- FCFS: `proc_to_run` after the entries from `i` on, with the index that the pointer stands for.
pub fcfs_scan : ℕ → Option (ℕ × Proc) → Table → Option (ℕ × Proc)
unfolding is_state
fcfs_scan i best [] = best
fcfs_scan i best (p ∷ ps) =
    fcfs_scan (i + 1)
      (if not (is_state p.state runnable) then best else elim best [
        | none ↦ some (i, p)
        | some (j, q) ↦
            if ltb p.tick_creation_time q.tick_creation_time then some (i, p) else some (j, q)
      ])
      ps

pub fcfs : Table → Option (ℕ × Proc)
unfolding fcfs_scan
fcfs t = fcfs_scan 0 none t

-- LBS: `max_tickets`
pub max_tickets : Table → ℤ
unfolding is_state
max_tickets [] = pos 0
max_tickets (p ∷ ps) =
    if is_state p.state runnable then p.tickets +ℤ max_tickets ps else max_tickets ps

-- LBS: the second loop, from the entry `i` on, with the number that `random(max_tickets)` has drawn.
pub lbs_scan : ℤ → ℤ → ℕ → Table → Option ℕ
unfolding is_state
lbs_scan rand counter i [] = none
lbs_scan rand counter i (p ∷ ps) =
    let rest = lbs_scan rand counter (i + 1) ps in
    let counter' = counter +ℤ p.tickets in
    let rest' = lbs_scan rand counter' (i + 1) ps in
    if is_state p.state runnable
    then (if not (ltb_ℤ counter' rand) then some i else rest')
    else rest

pub lbs : ℤ → Table → Option ℕ
unfolding lbs_scan
lbs rand t = lbs_scan rand (pos 0) 0 t

-- The end of `dynamic_priority`, from `min` on.
hold_priority : ℤ → ℤ
hold_priority formula =
    let min = if ltb_ℤ (pos 100) formula then pos 100 else formula in
    if ltb_ℤ (pos 0) min then min else pos 0

-- `dynamic_priority(proc_to_calc)`; `none` for a division by zero.
pub dynamic_priority : Proc → Option ℤ
dynamic_priority p =
    if p.number_times == 0
    then some p.priority_pbs
    else if p.last_run_time + p.last_sleep_time == 0
    then none
    else some (
        hold_priority (
          p.priority_pbs
          +ℤ pos (p.last_sleep_time / (p.last_run_time + p.last_sleep_time) * 10)
          -ℤ pos 5))

-- PBS: whether a runnable entry with priority `dp`, scheduled `n` times and created at `tick`,
-- replaces the one with priority `min`, scheduled `m` times and created at `tock`.
pub pbs_replaces : (dp : ℤ) (n tick : ℕ) (min : ℤ) (m tock : ℕ) → Bool
pbs_replaces dp n tick min m tock =
    if ltb_ℤ dp min
    then true
    else if ltb_ℤ min dp
    then false
    else if ltb n m
    then true
    else n == m && ltb tick tock

-- PBS: `pbs_proc_to_run`, with its index and `min_priority`, and whether the scheduler holds its lock.
pub record Choice : Type 0 where
  pub index : ℕ
  pub proc : Proc
  pub min : ℤ
  pub held : Bool

-- PBS: a runnable entry with priority `dp` against the choice so far. A replacement releases the lock of
-- the choice that it replaces, and `release` panics where that is not held. Only an entry with a
-- lower priority keeps its lock by the `continue`; one that wins a tie runs on to the `release` of
-- its own lock.
pub pbs_consider : ℕ → Proc → ℤ → Option Choice → Result (Option Choice)
unfolding pbs_replaces
pbs_consider i p dp none = ok (some (record { index = i; proc = p; min = dp; held = true }))
pbs_consider i p dp (some c) =
    if pbs_replaces dp p.number_times p.tick_creation_time c.min c.proc.number_times
      c.proc.tick_creation_time
    then (panic_if (not c.held) "release"
        >> ok (some (record { index = i; proc = p; min = dp; held = ltb_ℤ dp c.min })))
    else ok (some c)

-- PBS: the loop from the entry `i` on. A division by zero has no result in C.
pub pbs_scan : ℕ → Option Choice → Table → Result (Option Choice)
unfolding is_state pbs_consider dynamic_priority
pbs_scan i best [] = ok best
pbs_scan i best (p ∷ ps) =
    let skip = pbs_scan (i + 1) best ps in
    let considered : Result (Option Choice) = elim (dynamic_priority p) [
      | none ↦ panic "division by zero"
      | some dp ↦ pbs_consider i p dp best >>= λ best'. pbs_scan (i + 1) best' ps
    ] in
    if not (is_state p.state runnable) then skip else considered

pub pbs : Table → Result (Option Choice)
unfolding pbs_scan
pbs t = pbs_scan 0 none t

-- What the PBS branch writes into the chosen entry, and what the other branches write.
pub run_pbs : Proc → Proc
run_pbs p = record p { state = running; last_run_time = 0; last_sleep_time = 0 }

-- The chosen process as it is resumed: the first thing it does, in `forkret` or behind `sched`, is to
-- release its own lock.
pub pbs_resume : Choice → Result Proc
unfolding run_pbs
pbs_resume c = do panic_if (not c.held) "release"; ok (run_pbs c.proc)

pub run : Proc → Proc
run p = record p { state = running }
