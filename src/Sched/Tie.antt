-- ===== src/Sched/Tie.antt =====
-- Priority scheduling: what a tie of dynamic priorities does to the lock of the choice.
use xv.Prelude.{
  ℕ, ◌+◌, ◌<◌, ◌≡◌, refl, ap, ◌∙◌, ◌≢◌, true, false, Option, some, none, [], ◌∷◌, ◌++◌, arith,
  length, ◌==◌, All, append_nil,
}
use xv.Prelude.Int.{ℤ, ltb_ℤ}
use xv.Panic.{ok, panic}
use xv.Proc.{Proc, Table, runnable, is_state}
use xv.Sched.{Choice, pbs_consider, pbs_replaces, pbs_scan, pbs, pbs_resume, dynamic_priority}

abbrev Idle : Table → Type 0
Idle t = All (λ p. p.state ≢ runnable) t

-- Entries that are not runnable leave the choice.
pbs_scan-append :
    (i : ℕ) (best : Option Choice) (a t : Table)
    → Idle a
    → pbs_scan i best (a ++ t) ≡ pbs_scan (i + length a) best t
unfolding pbs_scan is_state
pbs_scan-append i best [] t h = ap (λ x. pbs_scan x best t) (omega arith)
pbs_scan-append i best (p ∷ ps) t h =
    let idle : is_state p.state runnable ≡ false = ground (arith, h.0) in
    rw idle (pbs_scan-append (i + 1) best ps t h.1 ∙ ap (λ x. pbs_scan x best t) (omega arith))

pbs_scan-runnable :
    (i : ℕ) (best : Option Choice) (p : Proc) (dp : ℤ) (t : Table) (c : Choice)
    → p.state ≡ runnable
    → dynamic_priority p ≡ some dp
    → pbs_consider i p dp best ≡ ok (some c)
    → pbs_scan i best (p ∷ t) ≡ pbs_scan (i + 1) (some c) t
unfolding pbs_scan is_state
pbs_scan-runnable i best p dp t c run e taken =
    let runs : is_state p.state runnable ≡ true = ground arith in rw (runs, e, taken) refl

-- One runnable entry `q` and behind it another one `p` of the same dynamic priority, scheduled as many
-- times and created before `q`.
pub record IsTie (q p : Proc) (dp : ℤ) : Type 0 where
  pub runs_q : q.state ≡ runnable
  pub runs_p : p.state ≡ runnable
  pub dp_q : dynamic_priority q ≡ some dp
  pub dp_p : dynamic_priority p ≡ some dp
  pub times : p.number_times ≡ q.number_times
  pub older : p.tick_creation_time < q.tick_creation_time

-- The choice of `p` at `i` without its lock.
abbrev unlocked : ℕ → Proc → ℤ → Choice
unlocked i p dp = record { index = i; proc = p; min = dp; held = false }

consider_tie :
    (i j : ℕ) (q p : Proc) (dp : ℤ)
    → IsTie q p dp
    → pbs_consider j p dp (some (record { index = i; proc = q; min = dp; held = true }))
      ≡ ok (some (unlocked j p dp))
unfolding pbs_consider pbs_replaces
consider_tie i j q p dp tie =
    let same : ltb_ℤ dp dp ≡ false = ground arith in
    let times : (p.number_times == q.number_times) ≡ true = ground (arith, tie.times) in
    ground (arith, tie.times, tie.older)

-- After the tie, whatever stands behind it.
after_tie :
    (a b t : Table) (q p : Proc) (dp : ℤ)
    → Idle a
    → Idle b
    → IsTie q p dp
    → (j : ℕ) × (j ≡ length a + 1 + length b)
      × (pbs (a ++ q ∷ (b ++ p ∷ t)) ≡ pbs_scan (j + 1) (some (unlocked j p dp)) t)
unfolding pbs pbs_consider
after_tie a b t q p dp ha hb tie =
    let first : Choice = record { index = 0 + length a; proc = q; min = dp; held = true } in
    let j : ℕ = 0 + length a + 1 + length b in
    (
      j,
      omega arith,
      pbs_scan-append 0 none a _ ha
          ∙ pbs_scan-runnable (0 + length a) none q dp (b ++ p ∷ t) first tie.runs_q tie.dp_q refl
          ∙ pbs_scan-append (0 + length a + 1) (some first) b (p ∷ t) hb
          ∙ pbs_scan-runnable j (some first) p dp t (unlocked j p dp) tie.runs_p tie.dp_p
              (consider_tie (0 + length a) j q p dp tie),
    )

-- Let the first two runnable entries of a table tie in dynamic priority and in the times they were
-- scheduled, and the second one be created before the first. If no other entry is runnable, the pass
-- of PBS chooses the second one without holding its lock, so that the process panics in `release` when
-- it is resumed. If the next runnable entry has a lower dynamic priority, the pass itself panics in
-- `release`.
pub tie_loses_lock :
    (a b d t : Table) (q p r : Proc) (dp low : ℤ)
    → Idle a
    → Idle b
    → Idle d
    → IsTie q p dp
    → r.state ≡ runnable
    → dynamic_priority r ≡ some low
    → ltb_ℤ low dp ≡ true
    → ((c : Choice) × (pbs (a ++ q ∷ (b ++ p ∷ d)) ≡ ok (some c))
        × (c.index ≡ length a + 1 + length b)
        × (c.proc ≡ p)
        × (pbs_resume c ≡ panic "release"))
      × (pbs (a ++ q ∷ (b ++ p ∷ (d ++ r ∷ t))) ≡ panic "release")
unfolding pbs_scan pbs_consider pbs_replaces pbs_resume is_state
tie_loses_lock a b d t q p r dp low ha hb hd tie run e lower =
    let (j, at, only) = after_tie a b d q p dp ha hb tie in
    let (k, at_k, more) = after_tie a b (d ++ r ∷ t) q p dp ha hb tie in
    let runs : is_state r.state runnable ≡ true = ground arith in
    (
      (
        unlocked j p dp,
        only
            ∙ ap (pbs_scan (j + 1) (some (unlocked j p dp))) (append_nil d)
            ∙ pbs_scan-append (j + 1) (some (unlocked j p dp)) d [] hd,
        at,
        refl,
        refl,
      ),
      more
          ∙ pbs_scan-append (k + 1) (some (unlocked k p dp)) d (r ∷ t) hd
          ∙ rw (runs, e, lower) refl,
    )
