-- ===== src/Alarm.antt =====
-- `sigalarm` and `sigreturn` of kernel/sysproc.c with the timer branch of `usertrap` of
-- kernel/trap.c: a user function that is called every so many ticks.
pub mod Round
mod Tests
use xv.Prelude.{ℕ, ◌+◌, Bool, false, Option, none, some, List, [], ◌∷◌, ◌==◌, if◌then◌else◌}
use xv.Prelude.Int.{◌-ℤ◌, ℤ, pos, negsuc}

-- `struct trapframe`: what the user program continues from.
pub record Frame : Type 0 where
  pub epc : ℕ
  pub a0 : ℕ
  pub others : ℕ → ℕ

-- The page that `sigalarm_tf` points to: none yet, a copy of the frame, or a page that is freed.
pub data Saved : Type 0 where
  never : Saved
  copy : Frame → Saved
  freed : Saved

-- The fields of `struct proc` that the alarm uses.
pub record Task : Type 0 where
  pub frame : Frame
  pub interval : ℤ
  pub ticks_left : ℤ
  pub sig_handler : ℕ
  pub sigalarm_tf : Saved

pub is_zero : ℤ → Bool
is_zero (pos n) = n == 0
is_zero (negsuc n) = false

-- `usertrap` on a timer interrupt, for a page that `kalloc` has given. `int` does not wrap around.
pub timer_tick : Task → Task
unfolding is_zero
timer_tick p =
    if is_zero p.interval
    then p
    else if is_zero (p.ticks_left -ℤ pos 1)
    then record p {
      ticks_left = p.ticks_left -ℤ pos 1;
      sigalarm_tf = copy p.frame;
      frame = record (p.frame) { epc = p.sig_handler };
    }
    else record p { ticks_left = p.ticks_left -ℤ pos 1 }

pub sys_sigalarm : ℤ → ℕ → Task → Task
sys_sigalarm interval handler p = record p {
  interval = interval;
  sig_handler = handler;
  ticks_left = interval;
}

-- `none` where `sigalarm_tf` points to no copy of a frame.
pub sys_sigreturn : Task → Option (ℕ × Task)
sys_sigreturn p = elim (p.sigalarm_tf) [
  | never ↦ none
  | freed ↦ none
  | copy f ↦ some (f.a0, record p { frame = f; ticks_left = p.interval; sigalarm_tf = freed })
]

-- The system call branch of `usertrap` for `sigreturn`: `syscall` stores the result in `a0`.
pub trap_sigreturn : Task → Option Task
unfolding sys_sigreturn
trap_sigreturn p =
    elim (sys_sigreturn (record p { frame = record (p.frame) { epc = p.frame.epc + 4 } })) [
      | none ↦ none
      | some (result, q) ↦ some (record q { frame = record (q.frame) { a0 = result } })
    ]

-- A timer interrupt in user code with the registers `f`, and a row of them.
pub trap_timer : Frame → Task → Task
unfolding timer_tick
trap_timer f p = timer_tick (record p { frame = f })

pub trap_timers : List Frame → Task → Task
trap_timers [] p = p
trap_timers (f ∷ fs) p = trap_timers fs (trap_timer f p)
