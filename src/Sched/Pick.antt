-- ===== src/Sched/Pick.antt =====
-- A scan that keeps the best entry seen, for any strict order in which equals are interchangeable.
use xv.Proc.{Proc, runnable, Table, is_state}
use xv.Prelude.{
  ℕ, ◌+◌, ◌-◌, ◌≤◌, ◌≡◌, ◌⊎◌, inr, Bool, true, false, not, Option, none, some, [], ◌∷◌, arith,
  if◌then◌else◌, get_elem?, zero, suc, ◌<◌, refl, ◌≢◌, inl, Bool-cases,
}

-- The scan with `lt p q` for "`p` replaces `q`".
unfoldable pub scan_by : (Proc → Proc → Bool) → ℕ → Option (ℕ × Proc) → Table → Option (ℕ × Proc)
scan_by lt i best [] = best
scan_by lt i best (p ∷ ps) =
    scan_by lt (i + 1)
      (if not (is_state p.state runnable) then best else elim best [
        | none ↦ some (i, p)
        | some (j, q) ↦ if lt p q then some (i, p) else some (j, q)
      ])
      ps

pub record IsOrder (lt : Proc → Proc → Bool) : Type 0 where
  pub irreflexive : (a : Proc) → lt a a ≡ false
  pub trans : (a b c : Proc) → lt a b ≡ true → lt b c ≡ true → lt a c ≡ true
  pub split : (a b c : Proc) → lt a c ≡ true → lt b c ≡ false → lt a b ≡ true

module _ (lt : Proc → Proc → Bool) (order : IsOrder lt) where
  -- Entry `j` with contents `q` goes before entry `k` with contents `p`.
  abbrev pub Before : ℕ × Proc → ℕ × Proc → Type 0
  Before (j, q) (k, p) = (lt p q ≡ false) × ((lt q p ≡ true) ⊎ (j ≤ k))

  -- The outcome of the scan of `ps` from entry `i` on, begun with the entry `b`.
  record Best (i : ℕ) (b : ℕ × Proc) (ps : Table) (r : ℕ × Proc) : Type 0 where
    found : (r ≡ b) ⊎ ((i ≤ r.0) × (get_elem? ps (r.0 - i) ≡ some r.1))
    is_runnable : r.1.state ≡ runnable
    before_best : Before r b
    before_rest :
        (k : ℕ) (p : Proc) → get_elem? ps k ≡ some p → p.state ≡ runnable → Before r (i + k, p)

  Before-refl : (b : ℕ × Proc) → Before b b
  Before-refl (j, q) = (order.irreflexive q, inr (omega arith))

  Before-trans : (a b c : ℕ × Proc) → Before a b → Before b c → Before a c
  Before-trans (i, p) (j, q) (k, r) x y = ground (
    arith,
    order.trans p q r,
    order.trans r p q,
    order.split p r q,
    order.split q r p,
    order.trans r q p,
    order.split r q p,
    order.split q p r,
    order.split p q r,
  )

  Best-skip :
      {i : ℕ} {b r : ℕ × Proc} {p : Proc} {ps : Table}
      → Before b (i, p) ⊎ (p.state ≢ runnable)
      → Best (i + 1) b ps r
      → Best i b (p ∷ ps) r
  Best-skip {i} {b} {r} {p} {ps} why v = record {
    found = elim (v.found) [
      | inl e ↦ inl e
      | inr (le, at) ↦
          let e : r.0 - i ≡ suc (r.0 - (i + 1)) = omega arith in inr (omega arith, rw e at)
    ];
    is_runnable = v.is_runnable;
    before_best = v.before_best;
    before_rest = rest;
  }
    where
      rest :
          (k : ℕ) (q : Proc)
          → get_elem? (p ∷ ps) k ≡ some q
          → q.state ≡ runnable
          → Before r (i + k, q)
      rest zero q at run =
          let same : p ≡ q = ground arith in
          elim why [
            | inl before ↦
                let e : i + 0 ≡ i = omega arith in
                rw (e, ← same) (Before-trans r b (i, p) v.before_best before)
            | inr idle ↦ absurd (idle (rw same run))
          ]
      rest (suc k) q at run =
          let e : i + suc k ≡ i + 1 + k = omega arith in rw e (v.before_rest k q at run)

  scan_by-Best :
      (i : ℕ) (b : ℕ × Proc) (ps : Table)
      → b.0 < i
      → b.1.state ≡ runnable
      → (r : ℕ × Proc) × (scan_by lt i (some b) ps ≡ some r) × Best i b ps r
  unfolding scan_by is_state
  scan_by-Best i b [] lt_i run = (
    b,
    refl,
    record {
      found = inl refl;
      is_runnable = run;
      before_best = Before-refl b;
      before_rest = λ k p at. cc;
    },
  )
  scan_by-Best i (j, q) (p ∷ ps) lt_i run = elim (Bool-cases (is_state p.state runnable)) [
    | inl runs ↦ elim (Bool-cases (lt p q)) [
      | inl better ↦
          let (r, e, v) = scan_by-Best (i + 1) (i, p) ps (omega arith) (ground arith) in
          (r, rw (runs, better) e, replaced r v better)
      | inr worse ↦
          let (r, e, v) = scan_by-Best (i + 1) (j, q) ps (omega arith) run in
          (r, rw (runs, worse) e, Best-skip (inl (worse, inr (omega arith))) v)
    ]
    | inr idle ↦
        let (r, e, v) = scan_by-Best (i + 1) (j, q) ps (omega arith) run in
        (r, rw idle e, Best-skip (inr (ground arith)) v)
  ]
    where
      replaced :
          (r : ℕ × Proc) → Best (i + 1) (i, p) ps r → lt p q ≡ true → Best i (j, q) (p ∷ ps) r
      replaced r v better = record {
        found = elim (v.found) [
          | inl e ↦ rw e (let z : i - i ≡ 0 = omega arith in inr (omega arith, rw z refl))
          | inr (le, at) ↦
              let e : r.0 - i ≡ suc (r.0 - (i + 1)) = omega arith in inr (omega arith, rw e at)
        ];
        is_runnable = v.is_runnable;
        before_best = Before-trans r (i, p) (j, q) v.before_best (not_less, inl better);
        before_rest = (Best-skip (inl (Before-refl (i, p))) v).before_rest;
      }
        where
          not_less : lt q p ≡ false
          not_less = ground (arith, order.trans p q p, order.irreflexive p)

  first_found : (i : ℕ) (q : Proc) (qs : Table) (r : ℕ × Proc) → Best (i + 1) (i, q) qs r → i ≤ r.0
  first_found i q qs r v = elim (v.found) [ inl e ↦ rw e (omega arith) | inr h ↦ omega arith ]

  first_at :
      (i : ℕ) (q : Proc) (qs : Table) (r : ℕ × Proc)
      → Best (i + 1) (i, q) qs r
      → get_elem? (q ∷ qs) (r.0 - i) ≡ some r.1
  first_at i q qs r v = elim (v.found) [
    | inl e ↦ rw e (let z : i - i ≡ 0 = omega arith in rw z refl)
    | inr (le, at) ↦ let e : r.0 - i ≡ suc (r.0 - (i + 1)) = omega arith in rw e at
  ]

  -- If entry `k` is runnable, the scan from no entry at all finds a runnable entry that goes before it.
  pub scan_by-first :
      (i : ℕ) (ps : Table) (k : ℕ) (p : Proc)
      → get_elem? ps k ≡ some p
      → p.state ≡ runnable
      → (r : ℕ × Proc) × (scan_by lt i none ps ≡ some r)
        × (i ≤ r.0)
        × (get_elem? ps (r.0 - i) ≡ some r.1)
        × (r.1.state ≡ runnable)
        × Before r (i + k, p)
  unfolding scan_by is_state
  scan_by-first i [] k p at run = cc
  scan_by-first i (q ∷ qs) zero p at run =
      let (r, e, v) = scan_by-Best (i + 1) (i, q) qs (omega arith) (ground arith) in
      let w = Best-skip (inl (Before-refl (i, q))) v in
      (
        r,
        ground (arith, e),
        first_found i q qs r v,
        first_at i q qs r v,
        v.is_runnable,
        w.before_rest zero p at run,
      )
  scan_by-first i (q ∷ qs) (suc k) p at run = elim (Bool-cases (is_state q.state runnable)) [
    | inl runs ↦
        let (r, e, v) = scan_by-Best (i + 1) (i, q) qs (omega arith) (ground arith) in
        let w = Best-skip (inl (Before-refl (i, q))) v in
        (
          r,
          ground (arith, e),
          first_found i q qs r v,
          first_at i q qs r v,
          v.is_runnable,
          w.before_rest (suc k) p at run,
        )
    | inr idle ↦
        let (r, e, le, found, runs, before) = scan_by-first (i + 1) qs k p at run in
        let shift : r.0 - i ≡ suc (r.0 - (i + 1)) = omega arith in
        let sum : i + suc k ≡ i + 1 + k = omega arith in
        (r, rw idle e, omega arith, rw shift found, runs, rw sum before)
  ]
