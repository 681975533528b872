-- ===== src/Mlfq.antt =====
-- The queues of the MLFQ scheduler of kernel/proc.c: `enqueue`, `dequeue` and `delqueue` on one
-- `struct priority_queue`, and what they write into the process.
pub mod Contents
mod Tests
pub mod Walk
use xv.Panic.{Result, ok, panic, ◌>>=◌, ◌>>◌, panic_if}
use xv.Proc.{Proc, nproc}
use xv.Prelude.{
  ℕ, zero, suc, ◌+◌, ◌-◌, ◌%◌, Bool, true, false, ◌||◌, List, ◌==◌, if◌then◌else◌, set, get_or,
}

-- `struct priority_queue`; a pointer to an entry of the process table is its index.
pub record PriorityQueue : Type 0 where
  pub front : ℕ
  pub back : ℕ
  pub length : ℕ
  pub procs : List ℕ

-- `NPROC + 1`
abbrev pub slots : ℕ
slots = 65

-- `x++; if (x == NPROC + 1) x = 0;`
pub step_round : ℕ → ℕ
step_round x = if x + 1 == slots then 0 else x + 1

-- `enqueue(process)` on the queue of its priority
pub enqueue : PriorityQueue → ℕ → Result PriorityQueue
unfolding step_round
enqueue q process = do
  panic_if (q.length == nproc) "Full queue"
  ok (record q {
    procs = set q.procs q.back process;
    back = step_round q.back;
    length = q.length + 1;
  })

pub mark_enqueued : Proc → Proc
mark_enqueued p = record p { curr_rtime = 0; curr_wtime = 0; in_queue = true }

-- `dequeue(process)`: it drops the front of the queue.
pub dequeue : PriorityQueue → Result PriorityQueue
unfolding step_round
dequeue q = do
  panic_if (q.length == 0) "Empty queue"
  ok (record q { front = step_round q.front; length = q.length - 1 })

pub mark_dequeued : Proc → Proc
mark_dequeued p = record p { in_queue = false }

-- The loop of `delqueue` from `curr` on, with `init_flag`; the pointers are compared by the pids of
-- their entries. `NPROC + 1` rounds are enough to come to `back`.
pub delqueue_loop : (ℕ → ℕ) → ℕ → ℕ → ℕ → ℕ → Bool → List ℕ → List ℕ
delqueue_loop pid_of pid zero back curr init_flag procs = procs
delqueue_loop pid_of pid (suc rounds) back curr init_flag procs =
    let flag = init_flag || pid_of (get_or procs curr 0) == pid in
    let procs' = if flag then set procs curr (get_or procs ((curr + 1) % slots) 0) else procs in
    let rest = delqueue_loop pid_of pid rounds back ((curr + 1) % slots) flag procs' in
    if curr == back then procs else rest

-- `delqueue(process)` on the queue of its priority, for a process with this pid
pub delqueue : (ℕ → ℕ) → ℕ → PriorityQueue → PriorityQueue
unfolding delqueue_loop
delqueue pid_of pid q = record q {
  procs = delqueue_loop pid_of pid slots q.back q.front false q.procs;
  back = if q.back == 0 then nproc else q.back - 1;
  length = q.length - 1;
}

pub mark_deleted : Proc → Proc
mark_deleted p = record p { curr_wtime = 0 }
