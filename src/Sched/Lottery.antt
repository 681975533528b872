-- ===== src/Sched/Lottery.antt =====
-- The lottery: whom a number drawn within the sum of all tickets chooses.
use xv.Prelude.{
  ℕ, zero, suc, ◌+◌, ◌<◌, ◌≡◌, refl, sym, ap, ◌∙◌, ◌⊎◌, inl, inr, true, false, some, [], ◌∷◌, arith,
  if◌then◌else◌, Bool-cases, get_elem?, take,
}
use xv.Prelude.Int.{ℤ, ◌+ℤ◌, pos, ◌≤ℤ◌, ltb_ℤ, +ℤ_assoc, +ℤ_comm}
use xv.Sched.{max_tickets, lbs_scan, lbs}
use xv.Proc.{Proc, is_state, Table, runnable}
use mathlib.Core.Path.{subst}

-- Entry `j` is the first runnable one whose tickets, counted with those before it on top of
-- `counter`, reach the number drawn.
pub record Drawn (rand counter : ℤ) (t : Table) (j : ℕ) : Type 0 where
  pub winner : Proc
  pub found : get_elem? t j ≡ some winner
  pub is_runnable : winner.state ≡ runnable
  pub reached : rand ≤ℤ (counter +ℤ max_tickets (take (suc j) t))
  pub not_before :
      (k : ℕ) (p : Proc)
      → k < j
      → get_elem? t k ≡ some p
      → p.state ≡ runnable
      → ltb_ℤ (counter +ℤ max_tickets (take (suc k) t)) rand ≡ true

+ℤ_zero : (a : ℤ) → a +ℤ pos 0 ≡ a
unfolding ◌+ℤ◌
+ℤ_zero a = ground arith

some_inj : {p q : Proc} → some p ≡ some q → p ≡ q
some_inj e = cc

-- No entry is runnable, or some entry is.
idle_or_runnable :
    (t : Table)
    → (max_tickets t ≡ pos 0)
      ⊎ ((k : ℕ) × (p : Proc) × (get_elem? t k ≡ some p) × (p.state ≡ runnable))
unfolding max_tickets is_state
idle_or_runnable [] = inl refl
idle_or_runnable (p ∷ ps) = elim (Bool-cases (is_state p.state runnable)) [
  | inl runs ↦ inr (0, p, refl, ground arith)
  | inr idle ↦ elim (idle_or_runnable ps) [
    | inl none_left ↦ inl (rw idle none_left)
    | inr (k, q, at, run) ↦ inr (suc k, q, at, run)
  ]
]

Drawn-idle :
    {rand counter : ℤ} {p : Proc} {ps : Table} {j : ℕ}
    → is_state p.state runnable ≡ false
    → Drawn rand counter ps j
    → Drawn rand counter (p ∷ ps) (suc j)
unfolding max_tickets is_state
Drawn-idle {rand} {counter} {p} {ps} {j} idle d = record {
  winner = d.winner;
  found = d.found;
  is_runnable = d.is_runnable;
  reached = rw idle (d.reached);
  not_before = before;
}
  where
    before :
        (k : ℕ) (q : Proc)
        → k < suc j
        → get_elem? (p ∷ ps) k ≡ some q
        → q.state ≡ runnable
        → ltb_ℤ (counter +ℤ max_tickets (take (suc k) (p ∷ ps))) rand ≡ true
    before zero q lt at run = (let same : p ≡ q = some_inj at in ground (arith, same, run))
    before (suc k) q lt at run = rw idle (d.not_before k q (omega arith) at run)

Drawn-runs :
    {rand counter : ℤ} {p : Proc} {ps : Table} {j : ℕ}
    → is_state p.state runnable ≡ true
    → ltb_ℤ (counter +ℤ p.tickets) rand ≡ true
    → Drawn rand (counter +ℤ p.tickets) ps j
    → Drawn rand counter (p ∷ ps) (suc j)
unfolding max_tickets is_state
Drawn-runs {rand} {counter} {p} {ps} {j} runs short d = record {
  winner = d.winner;
  found = d.found;
  is_runnable = d.is_runnable;
  reached = rw (runs, ← +ℤ_assoc counter p.tickets (max_tickets (take (suc j) ps))) (d.reached);
  not_before = before;
}
  where
    before :
        (k : ℕ) (q : Proc)
        → k < suc j
        → get_elem? (p ∷ ps) k ≡ some q
        → q.state ≡ runnable
        → ltb_ℤ (counter +ℤ max_tickets (take (suc k) (p ∷ ps))) rand ≡ true
    before zero q lt at run = rw (runs, +ℤ_zero p.tickets) short
    before (suc k) q lt at run =
        rw (runs, ← +ℤ_assoc counter p.tickets (max_tickets (take (suc k) ps)))
          (d.not_before k q (omega arith) at run)

-- A runnable entry is not an idle one at the front.
in_tail :
    (q p : Proc) (qs : Table) (k : ℕ)
    → is_state q.state runnable ≡ false
    → get_elem? (q ∷ qs) k ≡ some p
    → p.state ≡ runnable
    → (k' : ℕ) × (get_elem? qs k' ≡ some p)
unfolding is_state
in_tail q p qs zero idle at run =
    absurd (let same : q ≡ p = some_inj at in ground (arith, same, run))
in_tail q p qs (suc k) idle at run = (k, at)

lbs_scan-Drawn :
    (rand counter : ℤ) (i : ℕ) (t : Table) (k : ℕ) (p : Proc)
    → get_elem? t k ≡ some p
    → p.state ≡ runnable
    → rand ≤ℤ (counter +ℤ max_tickets t)
    → (j : ℕ) × (lbs_scan rand counter i t ≡ some (i + j)) × Drawn rand counter t j
unfolding lbs_scan max_tickets is_state
lbs_scan-Drawn rand counter i [] k p at run within = cc
lbs_scan-Drawn rand counter i (q ∷ qs) k p at run within =
    elim (Bool-cases (is_state q.state runnable)) [
      | inl runs ↦ elim (Bool-cases (ltb_ℤ (counter +ℤ q.tickets) rand)) [
        | inl short ↦
            let w : rand ≤ℤ (counter +ℤ (q.tickets +ℤ max_tickets qs)) =
              subst
                (λ b.
                  rand ≤ℤ (counter +ℤ (if b then q.tickets +ℤ max_tickets qs else max_tickets qs)))
                runs within in
            elim (idle_or_runnable qs) [
              | inl none_left ↦
                  let v : rand ≤ℤ (counter +ℤ q.tickets) =
                    subst (λ x. rand ≤ℤ (counter +ℤ x)) (+ℤ_zero q.tickets)
                      (subst (λ x. rand ≤ℤ (counter +ℤ (q.tickets +ℤ x))) none_left w) in
                  absurd (ground (arith, v, short))
              | inr (k', p', at', run') ↦
                  let (j, e, d) =
                    lbs_scan-Drawn rand (counter +ℤ q.tickets) (i + 1) qs k' p' at' run' (
                      subst (λ x. rand ≤ℤ x) (sym (+ℤ_assoc counter q.tickets (max_tickets qs)))
                        w) in
                  let at_j : i + 1 + j ≡ i + suc j = omega arith in
                  (suc j, rw (runs, short, ← at_j) e, Drawn-runs runs short d)
            ]
        | inr enough ↦
            let here : i ≡ i + 0 = omega arith in
            (
              0,
              rw (runs, enough) (ap some here),
              record {
                winner = q;
                found = refl;
                is_runnable = ground arith;
                reached = rw (runs, +ℤ_zero q.tickets) (ground (arith, enough));
                not_before = λ k p lt at run. absurd (omega arith);
              },
            )
      ]
      | inr idle ↦
          let (k', at') = in_tail q p qs k idle at run in
          let (j, e, d) = lbs_scan-Drawn rand counter (i + 1) qs k' p at' run (
            subst
              (λ b.
                rand ≤ℤ (counter +ℤ (if b then q.tickets +ℤ max_tickets qs else max_tickets qs)))
              idle within) in
          let at_j : i + 1 + j ≡ i + suc j = omega arith in
          (suc j, rw (idle, ← at_j) e, Drawn-idle idle d)
    ]

-- If some process is runnable and the number drawn is at most the sum of the tickets of all runnable
-- ones, the lottery chooses a process: the first runnable one whose tickets, counted with those of
-- the runnable ones before it, reach the number.
pub lottery_draws :
    (rand : ℤ) (t : Table) (k : ℕ) (p : Proc)
    → get_elem? t k ≡ some p
    → p.state ≡ runnable
    → rand ≤ℤ max_tickets t
    → (j : ℕ) × (lbs rand t ≡ some j) × Drawn rand (pos 0) t j
unfolding lbs
lottery_draws rand t k p at run within =
    let (j, e, d) =
      lbs_scan-Drawn rand (pos 0) 0 t k p at run
        (rw (+ℤ_comm (pos 0) (max_tickets t), +ℤ_zero (max_tickets t)) within) in
    let at_j : 0 + j ≡ j = omega arith in (j, e ∙ ap some at_j, d)
