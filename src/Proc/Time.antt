-- ===== src/Proc/Time.antt =====
-- The times that kernel/proc.c keeps of a process: `update_time` on each tick, and `waitx`, which
-- hands them to the parent.
use xv.Prelude.{ℕ, ◌+◌, Bool, false, Option, none, some, if◌then◌else◌}
use xv.Proc.{
  Proc, running, sleeping, is_state, Table, each, WaitEnd, reaped, failed, sleeps, wait_scan, times,
}

-- What `update_time` does to an entry when the kernel is built for PBS.
pub tick_pbs : Proc → Proc
unfolding is_state
tick_pbs p =
    if is_state p.state running
    then record p {
      curr_rtime = p.curr_rtime + 1;
      rtime = p.rtime + 1;
      last_run_time = p.last_run_time + 1;
      total_run_time = p.total_run_time + 1;
    }
    else if is_state p.state sleeping
    then record p { last_sleep_time = p.last_sleep_time + 1 }
    else p

pub update_time : Table → Table
unfolding each tick_pbs
update_time = each (λ i p. tick_pbs p) 0

-- `waitx(addr, wtime, rtime)`, one round of its loop: how it ends, the table, and the times of the
-- child that it frees.
pub waitx : (copied killed : Bool) (me : ℕ) → Table → WaitEnd × Table × Option (ℕ × ℕ)
unfolding wait_scan times
waitx copied killed me t =
    let (e, t') = wait_scan copied killed me false t in
    (e, t', elim e [ reaped c ↦ some (times c) | failed ↦ none | sleeps ↦ none ])
