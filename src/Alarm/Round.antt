-- ===== src/Alarm/Round.antt =====
-- One round of the alarm: armed, silent, fired, handled, armed again.
use xv.Prelude.{
  ℕ, suc, ◌+◌, ◌-◌, ◌≤◌, ◌<◌, ◌≡◌, refl, sym, ap, ◌∙◌, inl, inr, true, false, some, List, [], ◌∷◌,
  arith, leb, ◌==◌, if◌then◌else◌, Bool-cases, length,
}
use xv.Prelude.Int.{ℤ, pos, ◌-ℤ◌, negsuc}
use xv.Alarm.{
  Saved, Task, trap_timer, trap_timers, Frame, timer_tick, is_zero, trap_sigreturn, copy,
  sys_sigalarm, sys_sigreturn, freed,
}
use mathlib.Core.Path.{subst}

abbrev Late : ℤ → Type 0
Late (pos n) = n ≡ 0
Late (negsuc n) = Unit {0}

dec_pos : (n : ℕ) → 1 ≤ n → pos n -ℤ pos 1 ≡ pos (n - 1)
unfolding ◌-ℤ◌
dec_pos n le = ground arith

dec-Late : (left : ℤ) → Late left → Late (left -ℤ pos 1) × (is_zero (left -ℤ pos 1) ≡ false)
unfolding is_zero ◌-ℤ◌
dec-Late (pos n) late = rw late (tt, refl)
dec-Late (negsuc n) late =
    let below : leb (suc n + 1) 0 ≡ false = ground arith in rw below (tt, refl)

-- What ticks do not change while the counter does not come to 0.
record Waiting (interval left : ℤ) (h : ℕ) (tf : Saved) (p : Task) : Type 0 where
  same_interval : p.interval ≡ interval
  counter : p.ticks_left ≡ left
  same_handler : p.sig_handler ≡ h
  same_copy : p.sigalarm_tf ≡ tf

module _ {n h : ℕ} {tf : Saved} where
  quiet_tick :
      (f : Frame) {left : ℤ} {p : Task}
      → Waiting (pos (suc n)) left h tf p
      → is_zero (left -ℤ pos 1) ≡ false
      → Waiting (pos (suc n)) (left -ℤ pos 1) h tf (trap_timer f p) × ((trap_timer f p).frame ≡ f)
  unfolding trap_timer timer_tick
  quiet_tick f {left} {p} w ne =
      let armed : is_zero (p.interval) ≡ false =
        rw (w.same_interval) (unfold is_zero in ground arith) in
      let later : is_zero (p.ticks_left -ℤ pos 1) ≡ false = rw (w.counter) ne in
      rw (armed, later)
        (
          record {
            same_interval = w.same_interval;
            counter = ap (λ x. x -ℤ pos 1) (w.counter);
            same_handler = w.same_handler;
            same_copy = w.same_copy;
          },
          refl,
        )

  -- Any row of interrupts after which ticks are left.
  quiet_ticks :
      (left : ℕ) (fs : List Frame) {p : Task}
      → length fs < left
      → Waiting (pos (suc n)) (pos left) h tf p
      → Waiting (pos (suc n)) (pos (left - length fs)) h tf (trap_timers fs p)
  unfolding trap_timers
  quiet_ticks left [] {p} lt w =
      let e : left - 0 ≡ left = omega arith in
      subst (λ x. Waiting (pos (suc n)) (pos x) h tf p) (sym e) w
  quiet_ticks left (f ∷ fs) {p} lt w =
      let one_less : pos left -ℤ pos 1 ≡ pos (left - 1) = dec_pos left (omega arith) in
      let e : left - 1 - length fs ≡ left - suc (length fs) = omega arith in
      subst (λ x. Waiting (pos (suc n)) (pos x) h tf (trap_timers fs (trap_timer f p))) e
        (quiet_ticks (left - 1) fs (omega arith) (
          subst (λ x. Waiting (pos (suc n)) x h tf (trap_timer f p)) one_less
            (quiet_tick f w (unfold is_zero in rw one_less (ground arith))).0))

  -- Any row of interrupts once the counter has come to 0.
  trap_timers-Late :
      (left : ℤ) (fs : List Frame) {p : Task}
      → Late left
      → Waiting (pos (suc n)) left h tf p
      → (last : ℤ) × Late last × Waiting (pos (suc n)) last h tf (trap_timers fs p)
  unfolding trap_timers
  trap_timers-Late left [] late w = (left, late, w)
  trap_timers-Late left (f ∷ fs) late w =
      let (still, ne) = dec-Late left late in
      trap_timers-Late (left -ℤ pos 1) fs still (quiet_tick f w ne).0

armed :
    (n h : ℕ) (p : Task)
    → Waiting (pos (suc n)) (pos (suc n)) h p.sigalarm_tf (sys_sigalarm (pos (suc n)) h p)
unfolding sys_sigalarm
armed n h p = record { same_interval = refl; counter = refl; same_handler = refl; same_copy = refl }

-- The tick at which the counter comes to 0.
last_tick :
    (f : Frame) {n h : ℕ} {tf : Saved} {p : Task}
    → Waiting (pos (suc n)) (pos 1) h tf p
    → Waiting (pos (suc n)) (pos 0) h (copy f) (trap_timer f p)
      × ((trap_timer f p).frame ≡ record f { epc = h })
unfolding trap_timer timer_tick ◌-ℤ◌
last_tick f {p} w =
    let armed : is_zero (p.interval) ≡ false =
      rw (w.same_interval) (unfold is_zero in ground arith) in
    let now : is_zero (p.ticks_left -ℤ pos 1) ≡ true = rw (w.counter) (unfold is_zero in refl) in
    rw (armed, now)
      (
        record {
          same_interval = w.same_interval;
          counter = ap (λ x. x -ℤ pos 1) (w.counter) ∙ refl;
          same_handler = w.same_handler;
          same_copy = refl;
        },
        ap (λ x. record f { epc = x }) (w.same_handler),
      )

-- After `sigalarm` with an interval of `n + 1` ticks, a tick before the last one leaves the registers
-- of the program alone, and the last one makes it continue at the handler with all other registers
-- as they were.
pub alarm_fires :
    (n h : ℕ) (p : Task) (fs : List Frame) (f : Frame)
    → length fs ≤ n
    → (trap_timer f (trap_timers fs (sys_sigalarm (pos (suc n)) h p))).frame
      ≡ (if length fs == n then record f { epc = h } else f)
alarm_fires n h p fs f le = elim (Bool-cases (length fs == n)) [
  | inl last ↦
      let w = quiet_ticks (suc n) fs (omega arith) (armed n h p) in
      let e : suc n - length fs ≡ 1 = ground arith in
      rw last
        (last_tick f (
          subst
            (λ x.
              Waiting (pos (suc n)) (pos x) h p.sigalarm_tf
                (trap_timers fs (sys_sigalarm (pos (suc n)) h p)))
            e w)).1
  | inr early ↦
      let w = quiet_ticks (suc n) fs (omega arith) (armed n h p) in
      let e : pos (suc n - length fs) -ℤ pos 1 ≡ pos (suc n - length fs - 1) =
        dec_pos _ (omega arith) in
      rw early (quiet_tick f w (unfold is_zero in rw e (ground arith))).1
]

trap_sigreturn_lem :
    (f : Frame) (p : Task)
    → p.sigalarm_tf ≡ copy f
    → trap_sigreturn p ≡ some (record p { frame = f; ticks_left = p.interval; sigalarm_tf = freed })
unfolding trap_sigreturn sys_sigreturn
trap_sigreturn_lem f p e = rw e

-- When the last tick of an interval has interrupted the program with the registers `f`, no further
-- tick enters the handler again, and `sigreturn`, called after any number of them, puts back just
-- those registers and starts the interval anew.
pub alarm_returns :
    (n h : ℕ) (p : Task) (fs : List Frame) (f : Frame) (later : List Frame) (g : Frame)
    → length fs ≡ n
    → let q = trap_timers later (trap_timer f (trap_timers fs (sys_sigalarm (pos (suc n)) h p))) in
      ((trap_timer g q).frame ≡ g)
      × ((r : Task) × (trap_sigreturn (record q { frame = g }) ≡ some r)
          × (r.frame ≡ f)
          × (r.ticks_left ≡ pos (suc n))
          × (r.interval ≡ pos (suc n)))
alarm_returns n h p fs f later g e =
    let w = quiet_ticks (suc n) fs (omega arith) (armed n h p) in
    let one_left : suc n - length fs ≡ 1 = omega arith in
    let fired = last_tick f (
      subst
        (λ x.
          Waiting (pos (suc n)) (pos x) h p.sigalarm_tf
            (trap_timers fs (sys_sigalarm (pos (suc n)) h p)))
        one_left w) in
    let (left, late, v) = trap_timers-Late (pos 0) later refl fired.0 in
    (
      (quiet_tick g v (dec-Late left late).1).1,
      (_, trap_sigreturn_lem f _ v.same_copy, refl, v.same_interval, v.same_interval),
    )
