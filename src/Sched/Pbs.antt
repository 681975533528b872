-- ===== src/Sched/Pbs.antt =====
-- Priority scheduling: what is chosen where no two dynamic priorities are the same.
use xv.Proc.{Proc, runnable, running, Table, is_state}
use xv.Sched.{
  Choice, pbs_consider, pbs_replaces, pbs_scan, pbs, pbs_resume, run_pbs, dynamic_priority,
}
use xv.Sched.Pick.{scan_by, IsOrder, scan_by-first}
use xv.Panic.{ok}
use xv.Prelude.Int.{ℤ, pos, ltb_ℤ, eq_of_parts}
use xv.Prelude.{
  ℕ, zero, suc, ◌+◌, ◌-◌, ◌<◌, ◌≡◌, refl, ap, ◌∙◌, ◌≢◌, ◌⊎◌, inl, inr, Bool, true, false, Option,
  none, some, [], ◌∷◌, arith, Bool-cases, get_elem?, All,
}
use mathlib.Core.Path.{subst}

abbrev pub dp_of : Option ℤ → ℤ
dp_of none = pos 0
dp_of (some d) = d

abbrev precedes : Proc → Proc → Bool
precedes p q =
    pbs_replaces (dp_of (dynamic_priority p)) p.number_times p.tick_creation_time
      (dp_of (dynamic_priority q)) q.number_times q.tick_creation_time

replaces_irreflexive : (d : ℤ) (n t : ℕ) → pbs_replaces d n t d n t ≡ false
unfolding pbs_replaces
replaces_irreflexive d n t = ground arith

replaces_trans :
    (d e f : ℤ) (n m k s t u : ℕ)
    → pbs_replaces d n s e m t ≡ true
    → pbs_replaces e m t f k u ≡ true
    → pbs_replaces d n s f k u ≡ true
unfolding pbs_replaces
replaces_trans d e f n m k s t u h g = ground arith

replaces_split :
    (d e f : ℤ) (n m k s t u : ℕ)
    → pbs_replaces d n s f k u ≡ true
    → pbs_replaces e m t f k u ≡ false
    → pbs_replaces d n s e m t ≡ true
unfolding pbs_replaces
replaces_split d e f n m k s t u h g = ground arith

precedes-IsOrder : IsOrder precedes
precedes-IsOrder = record {
  irreflexive = λ a. replaces_irreflexive _ _ _;
  trans = λ a b c h k. replaces_trans _ _ _ _ _ _ _ _ _ h k;
  split = λ a b c h k. replaces_split _ _ _ _ _ _ _ _ _ h k;
}

-- No division by zero.
abbrev Divides : Proc → Type 0
Divides p = (p.number_times ≡ 0) ⊎ (0 < p.last_run_time + p.last_sleep_time)

dynamic_priority-some :
    (p : Proc) → Divides p → dynamic_priority p ≡ some (dp_of (dynamic_priority p))
unfolding dynamic_priority
dynamic_priority-some p h = ground arith

-- No two runnable entries have the same dynamic priority.
abbrev Apart : Proc → Table → Type 0
Apart q t =
    All (λ p. p.state ≡ runnable → dp_of (dynamic_priority p) ≢ dp_of (dynamic_priority q)) t

abbrev pub AllApart : Table → Type 0
AllApart [] = Unit {0}
AllApart (p ∷ ps) = (p.state ≡ runnable → Apart p ps) × AllApart ps

abbrev ApartBest : Option (ℕ × Proc) → Table → Type 0
ApartBest none t = Unit {0}
ApartBest (some (j, q)) t = Apart q t

-- The choice of an entry whose lock is held.
abbrev holding : Option (ℕ × Proc) → Option Choice
holding none = none
holding (some (j, q)) =
    some (record { index = j; proc = q; min = dp_of (dynamic_priority q); held = true })

apart_lower : (d e : ℤ) (n m t u : ℕ) → d ≢ e → pbs_replaces d n t e m u ≡ true → ltb_ℤ d e ≡ true
unfolding pbs_replaces
apart_lower d e n m t u ne better = ground (arith, eq_of_parts d e)

least : (d e : ℤ) (n m t u : ℕ) → pbs_replaces d n t e m u ≡ false → ltb_ℤ d e ≡ false
unfolding pbs_replaces
least d e n m t u h = ground arith

All-get_elem? :
    (P : Proc → Type 0) (t : Table) (i : ℕ) (p : Proc) → All P t → get_elem? t i ≡ some p → P p
All-get_elem? P [] i p h at = cc
All-get_elem? P (q ∷ qs) zero p h at = (let e : q ≡ p = ground arith in subst P e h.0)
All-get_elem? P (q ∷ qs) (suc i) p h at = All-get_elem? P qs i p h.1 at

runs_lem : (p : Proc) → is_state p.state runnable ≡ true → p.state ≡ runnable
unfolding is_state
runs_lem p h = ground arith

pbs_scan-scan_by :
    (i : ℕ) (best : Option (ℕ × Proc)) (t : Table)
    → All Divides t
    → AllApart t
    → ApartBest best t
    → pbs_scan i (holding best) t ≡ ok (holding (scan_by precedes i best t))
unfolding pbs_scan pbs_consider scan_by
pbs_scan-scan_by i best [] h a b = refl
pbs_scan-scan_by i none (p ∷ ps) h a b = elim (Bool-cases (is_state p.state runnable)) [
  | inl runs ↦
      rw (runs, dynamic_priority-some p h.0)
        (pbs_scan-scan_by (i + 1) (some (i, p)) ps h.1 a.1 (a.0 (runs_lem p runs)))
  | inr idle ↦ rw idle (pbs_scan-scan_by (i + 1) none ps h.1 a.1 tt)
]
pbs_scan-scan_by i (some (j, q)) (p ∷ ps) h a b = elim (Bool-cases (is_state p.state runnable)) [
  | inl runs ↦ elim (Bool-cases (precedes p q)) [
    | inl better ↦
        let lower =
          apart_lower _ _ p.number_times q.number_times p.tick_creation_time q.tick_creation_time
            (b.0 (runs_lem p runs)) better in
        rw (runs, dynamic_priority-some p h.0, better, lower)
          (pbs_scan-scan_by (i + 1) (some (i, p)) ps h.1 a.1 (a.0 (runs_lem p runs)))
    | inr worse ↦
        rw (runs, dynamic_priority-some p h.0, worse)
          (pbs_scan-scan_by (i + 1) (some (j, q)) ps h.1 a.1 b.1)
  ]
  | inr idle ↦ rw idle (pbs_scan-scan_by (i + 1) (some (j, q)) ps h.1 a.1 b.1)
]

-- Where no dynamic priority divides by zero, no two runnable entries have the same one, and entry `k` is
-- runnable, the pass of PBS ends without a panic. It chooses a runnable entry of the table, keeps
-- its dynamic priority, than which that of entry `k` is not lower, and holds its lock, so that the
-- process is resumed, running and with its run and sleep times at 0.
pub pbs_first :
    (t : Table) (k : ℕ) (p : Proc)
    → All Divides t
    → AllApart t
    → get_elem? t k ≡ some p
    → p.state ≡ runnable
    → (c : Choice) × (pbs t ≡ ok (some c))
      × (get_elem? t c.index ≡ some c.proc)
      × (c.proc.state ≡ runnable)
      × (dynamic_priority c.proc ≡ some c.min)
      × (ltb_ℤ (dp_of (dynamic_priority p)) c.min ≡ false)
      × (pbs_resume c
          ≡ ok (record c.proc { state = running; last_run_time = 0; last_sleep_time = 0 }))
unfolding pbs pbs_resume run_pbs
pbs_first t k p h a at run =
    let (r, e, le, found, runs, before) = scan_by-first precedes precedes-IsOrder 0 t k p at run in
    let z : r.0 - 0 ≡ r.0 = omega arith in
    let here : get_elem? t r.0 ≡ some r.1 = rw z at found in
    (
      record { index = r.0; proc = r.1; min = dp_of (dynamic_priority r.1); held = true },
      pbs_scan-scan_by 0 none t h a tt ∙ ap (λ x. ok (holding x)) e,
      here,
      runs,
      dynamic_priority-some r.1 (All-get_elem? Divides t r.0 r.1 h here),
      least (dp_of (dynamic_priority p)) (dp_of (dynamic_priority r.1)) p.number_times
          r.1.number_times p.tick_creation_time r.1.tick_creation_time before.0,
      refl,
    )
