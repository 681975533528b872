-- ===== src/Proc/Tests.antt =====
-- The process table at work on concrete tables.
use xv.Prelude.{ℕ, ◌≡◌, refl, true, false, Option, none, some, [], ◌∷◌, arith, get_elem?, set}
use xv.Proc.{ProcState, Table, exit, sleeping, Proc, no_chan, zombie, runnable, wait, reaped}
use xv.Proc.Exit.{IsFree, parent_at, adopt, exit_lem, exit_then_wait}
use xv.Prelude.Int.{pos}

-- An entry with a pid, a state, a parent and a time of creation, and the rest as `allocproc` sets it.
abbrev pub entry : ℕ → ProcState → Option ℕ → ℕ → Proc
entry pid state parent created = record {
  state = state;
  chan = no_chan;
  killed = false;
  xstate = pos 0;
  pid = pid;
  parent = parent;
  sz = 4096;
  pagetable = 100;
  trapframe = 200;
  rtime = 0;
  ctime = created;
  etime = 0;
  trace_flag = 0;
  interval = 0;
  ticks_left = 0;
  sig_handler = 0;
  tick_creation_time = created;
  tickets = pos 1;
  start_time_pbs = created;
  number_times = 0;
  priority_pbs = pos 60;
  niceness_var = 5;
  last_sleep_time = 0;
  last_run_time = 0;
  total_run_time = 0;
  priority = 0;
  in_queue = false;
  curr_rtime = 0;
  curr_wtime = 0;
}

-- `init`, a shell, and two processes, the last one a child of the other
abbrev pub four : Table
four =
    entry 1 sleeping none 0
    ∷ entry 2 runnable (some 0) 9
    ∷ entry 3 runnable (some 1) 5
    ∷ entry 4 runnable (some 2) 7
    ∷ []

exit_then_wait_example :
    let t' = exit 2 0 (pos 3) 50 four in
    (j : ℕ) × (c : Proc) × (f : Proc) × (get_elem? t' j ≡ some c)
    × (c.parent ≡ some 1)
    × (c.state ≡ zombie)
    × IsFree f
    × (wait true false 1 t' ≡ (reaped c, set t' j f))
exit_then_wait_example =
    exit_then_wait 2 0 1 (pos 3) 50 false four (entry 3 runnable (some 1) 5) refl refl (omega arith)

exit_lem_example :
    ((j : ℕ) → parent_at (exit 2 0 (pos 3) 50 four) j ≡ adopt 2 0 (parent_at four j))
    × ((q : Proc) × (get_elem? (exit 2 0 (pos 3) 50 four) 2 ≡ some q)
        × (q.state ≡ zombie)
        × (q.xstate ≡ pos 3)
        × (q.etime ≡ 50))
exit_lem_example = exit_lem 2 0 (pos 3) 50 four (entry 3 runnable (some 1) 5) refl
