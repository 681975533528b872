-- ===== src/Alarm/Tests.antt =====
-- An alarm every two ticks.
use xv.Prelude.{ℕ, ◌≡◌, some, [], ◌∷◌, arith}
use xv.Alarm.{Task, Frame, trap_timer, trap_timers, sys_sigalarm, never, trap_sigreturn}
use xv.Prelude.Int.{pos}
use xv.Alarm.Round.{alarm_returns}

abbrev user_frame : ℕ → Frame
user_frame pc = record { epc = pc; a0 = 5; others = λ r. r }

abbrev idle : Task
idle = record {
  frame = user_frame 0;
  interval = pos 0;
  ticks_left = pos 0;
  sig_handler = 0;
  sigalarm_tf = never;
}

alarm_returns_example :
    let q = trap_timers (user_frame 404 ∷ user_frame 408 ∷ []) (
      trap_timer
        (user_frame 20)
        (trap_timers (user_frame 10 ∷ []) (sys_sigalarm (pos 2) 400 idle))) in
    ((trap_timer (user_frame 412) q).frame ≡ user_frame 412)
    × ((r : Task) × (trap_sigreturn (record q { frame = user_frame 412 }) ≡ some r)
        × (r.frame ≡ user_frame 20)
        × (r.ticks_left ≡ pos 2)
        × (r.interval ≡ pos 2))
alarm_returns_example =
    alarm_returns 1 400 idle (user_frame 10 ∷ []) (user_frame 20)
      (user_frame 404 ∷ user_frame 408 ∷ []) (user_frame 412) (omega arith)
