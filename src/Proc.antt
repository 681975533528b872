-- ===== src/Proc.antt =====
-- kernel/proc.h and kernel/proc.c: the process table and what the kernel does to its entries. Each
-- entry is read and written under its own lock, `parent` under `wait_lock`; the functions below are
-- what is done while these are held.
pub mod Exit
pub mod Tests
pub mod Time
use xv.Prelude.{
  ℕ, ◌+◌, Bool, true, false, ◌&&◌, not, Option, none, some, List, [], ◌∷◌, ◌==◌, if◌then◌else◌,
  length, suc, ◌||◌, ◌^◌, get_elem?, set, zero, ◌-◌, ◌%◌,
}
use xv.Prelude.Int.{ℤ, pos}

-- `enum procstate`
pub data ProcState : Type 0 where
  unused used sleeping runnable running zombie : ProcState

-- `p->state == s`
unfoldable pub is_state : ProcState → ProcState → Bool
is_state unused unused = true
is_state used used = true
is_state sleeping sleeping = true
is_state runnable runnable = true
is_state running running = true
is_state zombie zombie = true
is_state _ _ = false

-- What a process sleeps on: an address, that of a table entry or another one.
pub data Chan : Type 0 where
  no_chan : Chan
  on_proc : ℕ → Chan
  on_addr : ℕ → Chan

pub same_chan : Chan → Chan → Bool
same_chan no_chan no_chan = true
same_chan (on_proc i) (on_proc j) = i == j
same_chan (on_addr a) (on_addr b) = a == b
same_chan _ _ = false

-- `struct proc`, without its locks, its saved registers, its kernel stack and `name`. An entry of
-- the table is named by its index, and `parent` is that of the parent. `sz`, `pagetable` and `trapframe` say what memory the entry owns, 0 for none.
pub record Proc : Type 0 where
  pub state : ProcState
  pub chan : Chan
  pub killed : Bool
  pub xstate : ℤ
  pub pid : ℕ
  pub parent : Option ℕ
  pub sz : ℕ
  pub pagetable : ℕ
  pub trapframe : ℕ
  pub rtime : ℕ
  pub ctime : ℕ
  pub etime : ℕ
  pub trace_flag : ℕ
  pub interval : ℕ
  pub ticks_left : ℕ
  pub sig_handler : ℕ
  pub tick_creation_time : ℕ
  pub tickets : ℤ
  pub start_time_pbs : ℕ
  pub number_times : ℕ
  pub priority_pbs : ℤ
  pub niceness_var : ℕ
  pub last_sleep_time : ℕ
  pub last_run_time : ℕ
  pub total_run_time : ℕ
  pub priority : ℕ
  pub in_queue : Bool
  pub curr_rtime : ℕ
  pub curr_wtime : ℕ

-- `struct proc proc[NPROC]`
abbrev pub nproc : ℕ
nproc = 64

abbrev pub Table : Type 0
Table = List Proc

-- A loop over the table that calls `f` on each entry with its index.
pub each : (ℕ → Proc → Proc) → ℕ → Table → Table
each f i [] = []
each f i (p ∷ ps) = f i p ∷ each f (i + 1) ps

pub is_index : Option ℕ → ℕ → Bool
is_index none i = false
is_index (some j) i = j == i

-- `wakeup(chan)` called by entry `me`, or by none.
pub wakeup : Option ℕ → Chan → Table → Table
unfolding each is_state is_index same_chan
wakeup me chan =
    each
      (λ i p.
        if not (is_index me i) && (is_state p.state sleeping && same_chan p.chan chan)
        then record p { state = runnable }
        else p)
      0

-- `kill(pid)`: whether a process is found, and the table.
pub kill : ℕ → Table → Bool × Table
unfolding is_state
kill pid [] = (false, [])
kill pid (p ∷ ps) =
    let (found, qs) = kill pid ps in
    if p.pid == pid
    then (
      true,
      (if is_state p.state sleeping
            then record p { killed = true; state = runnable }
            else record p { killed = true })
          ∷ ps,
    )
    else (found, p ∷ qs)

-- `setpriority(new_priority, proc_pid)`: the old priority, or -1 (`none`) if no process has the pid.
pub setpriority : ℤ → ℕ → Table → Option ℤ × Table
setpriority new pid [] = (none, [])
setpriority new pid (p ∷ ps) =
    let (old, qs) = setpriority new pid ps in
    if p.pid == pid
    then (some p.priority_pbs, record p { priority_pbs = new } ∷ ps)
    else (old, p ∷ qs)

-- One round of `reparent`, at entry `i`: a child of entry `me` goes to entry `init`, and `init` is
-- waked up.
pub reparent_one : ℕ → ℕ → ℕ → Table → Table
unfolding is_index
reparent_one me init i t = elim (get_elem? t i) [
  | none ↦ t
  | some p ↦
      if is_index p.parent me
      then wakeup (some me) (on_proc init) (set t i (record p { parent = some init }))
      else t
]

-- The rounds of `reparent` from entry `i` on.
pub reparent : ℕ → ℕ → ℕ → ℕ → Table → Table
unfolding reparent_one
reparent me init zero i t = t
reparent me init (suc left) i t = reparent me init left (i + 1) (reparent_one me init i t)

-- `wakeup(p->parent)`
pub wake_parent : ℕ → Table → Table
wake_parent me t = elim (get_elem? t me) [
  | none ↦ t
  | some p ↦ elim (p.parent) [ none ↦ t | some q ↦ wakeup (some me) (on_proc q) t ]
]

-- `p->xstate = status; p->state = ZOMBIE; p->etime = ticks;`
pub to_zombie : ℤ → ℕ → Proc → Proc
to_zombie status ticks p = record p { xstate = status; state = zombie; etime = ticks }

abbrev pub modify : ℕ → (Proc → Proc) → Table → Table
modify i f t = elim (get_elem? t i) [ none ↦ t | some p ↦ set t i (f p) ]

-- `exit(status)` of entry `me` at time `ticks`, from where it takes `wait_lock` up to `sched`.
pub exit : ℕ → ℕ → ℤ → ℕ → Table → Table
unfolding reparent wake_parent to_zombie
exit me init status ticks t =
    modify me (to_zombie status ticks) (wake_parent me (reparent me init (length t) 0 t))

-- The entry part of `freeproc`; the pages that it frees are named by the fields before.
pub freeproc : Proc → Proc
freeproc p = record p {
  trapframe = 0;
  pagetable = 0;
  sz = 0;
  pid = 0;
  parent = none;
  chan = no_chan;
  killed = false;
  xstate = pos 0;
  state = unused;
  etime = 0;
  rtime = 0;
  ctime = 0;
}

-- What `allocproc` writes at `found`, with the pid and the pages that it is given at time `ticks`.
pub init_entry : (pid ticks trapframe pagetable : ℕ) → Proc → Proc
init_entry pid ticks trapframe pagetable p = record p {
  pid = pid;
  state = used;
  tick_creation_time = ticks;
  tickets = pos 1;
  priority_pbs = pos 60;
  niceness_var = 5;
  start_time_pbs = ticks;
  number_times = 0;
  last_run_time = 0;
  last_sleep_time = 0;
  priority = 0;
  in_queue = false;
  curr_rtime = 0;
  curr_wtime = 0;
  rtime = 0;
  ctime = ticks;
  trapframe = trapframe;
  pagetable = pagetable;
}

-- The pages that `allocproc` asks for: none of them, the trapframe alone, or both.
pub data Pages : Type 0 where
  no_trapframe : Pages
  no_pagetable : (trapframe : ℕ) → Pages
  both : (trapframe pagetable : ℕ) → Pages

-- The entry after `allocproc`, and whether it is handed out.
pub fill_entry : ℕ → ℕ → Pages → Proc → Bool × Proc
unfolding init_entry freeproc
fill_entry pid ticks no_trapframe p = (false, freeproc (init_entry pid ticks 0 p.pagetable p))
fill_entry pid ticks (no_pagetable t) p = (false, freeproc (init_entry pid ticks t 0 p))
fill_entry pid ticks (both t g) p = (true, init_entry pid ticks t g p)

-- `allocproc` with `nextpid`: the index of the entry that it hands out, if any, `nextpid` and the
-- table after it. The first unused entry is taken.
pub allocproc : ℕ → ℕ → Pages → ℕ → Table → Option ℕ × ℕ × Table
unfolding fill_entry is_state
allocproc nextpid ticks pages i [] = (none, nextpid, [])
allocproc nextpid ticks pages i (p ∷ ps) =
    let (got, next, qs) = allocproc nextpid ticks pages (i + 1) ps in
    let (good, q) = fill_entry nextpid ticks pages p in
    if is_state p.state unused
    then ((if good then some i else none), nextpid + 1, q ∷ ps)
    else (got, next, p ∷ qs)

-- How a scan of `wait` or `waitx` ends: with a child that it has freed, with -1, or asleep.
pub data WaitEnd : Type 0 where
  reaped : Proc → WaitEnd
  failed : WaitEnd
  sleeps : WaitEnd

-- The scan of `wait` from an entry on. `copied` says that `addr` is 0 or `copyout` succeeds.
pub wait_scan : (copied killed : Bool) (me : ℕ) (havekids : Bool) → Table → WaitEnd × Table
unfolding is_index is_state freeproc
wait_scan copied killed me havekids [] = ((if not havekids || killed then failed else sleeps), [])
wait_scan copied killed me havekids (p ∷ ps) =
    let (e, qs) = wait_scan copied killed me (havekids || is_index p.parent me) ps in
    if is_index p.parent me && is_state p.state zombie
    then (if copied then (reaped p, freeproc p ∷ ps) else (failed, p ∷ ps))
    else (e, p ∷ qs)

-- One round of the loop of `wait`: the pid of the child.
pub wait : (copied killed : Bool) (me : ℕ) → Table → WaitEnd × Table
unfolding wait_scan
wait copied killed me t = wait_scan copied killed me false t

-- `*rtime` and `*wtime` of `waitx`, in `uint` arithmetic
pub times : Proc → ℕ × ℕ
times p = (p.rtime, (p.etime + 2 ^ 32 + 2 ^ 32 - p.ctime - p.rtime) % 2 ^ 32)

-- `sleep(chan, lk)` up to `sched`, `yield` up to `sched`, and what the scheduler does to the entry
-- that it runs.
pub to_sleep : Chan → Proc → Proc
to_sleep chan p = record p { chan = chan; state = sleeping }

pub yield : Proc → Proc
yield p = record p { state = runnable }

-- The part of `fork` that changes the child's entry: `allocproc` has filled it, `uvmcopy` has
-- succeeded.
pub fork_child : Proc → ℕ → Proc → Proc
fork_child p me np = record np {
  sz = p.sz;
  trace_flag = p.trace_flag;
  parent = some me;
  state = runnable;
}
