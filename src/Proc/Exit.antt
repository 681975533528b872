-- ===== src/Proc/Exit.antt =====
-- `exit` and `wait` together: every child is adopted, and a child that has exited is found.
use xv.Proc.{
  Proc, Table, each, wakeup, reparent_one, reparent, wake_parent, is_index, Chan, on_proc, exit,
  modify, wait_scan, to_zombie, is_state, zombie, unused, no_chan, reaped, freeproc, ProcState,
  wait,
}
use xv.Prelude.{
  ℕ, Option, get_elem?, some, ◌≡◌, ◌<◌, length, ◌∷◌, arith, ap, set, suc, [], ◌+◌, refl, zero, ◌∙◌,
  ◌≢◌, inl, inr, ◌&&◌, none, ltb, leb, ◌==◌, if◌then◌else◌, Bool-cases, Option-cases, ◌≤◌, Bool,
  true, false, ◌||◌, get_elem?-set_self,
}
use xv.Prelude.Int.{ℤ, pos}

abbrev pub parent_at : Table → ℕ → Option (Option ℕ)
parent_at t i = elim (get_elem? t i) [ none ↦ none | some p ↦ some p.parent ]

-- The parent of an entry once entry `me` has exited.
abbrev pub adopt : ℕ → ℕ → Option (Option ℕ) → Option (Option ℕ)
adopt me init none = none
adopt me init (some none) = some none
adopt me init (some (some q)) = if q == me then some (some init) else some (some q)

parent_at-each :
    (f : ℕ → Proc → Proc) (i : ℕ) (t : Table) (j : ℕ)
    → ((k : ℕ) (p : Proc) → (f k p).parent ≡ p.parent)
    → parent_at (each f i t) j ≡ parent_at t j
unfolding each
parent_at-each f i [] j same = refl
parent_at-each f i (p ∷ ps) zero same = ap some (same i p)
parent_at-each f i (p ∷ ps) (suc j) same = parent_at-each f (i + 1) ps j same

parent_at-wakeup :
    (me : Option ℕ) (chan : Chan) (t : Table) (j : ℕ)
    → parent_at (wakeup me chan t) j ≡ parent_at t j
unfolding wakeup
parent_at-wakeup me chan t j = parent_at-each _ 0 t j (λ k p. ground arith)

parent_at-wake_parent :
    (me : ℕ) (t : Table) (j : ℕ) → parent_at (wake_parent me t) j ≡ parent_at t j
unfolding wake_parent
parent_at-wake_parent me t j = elim (Option-cases (get_elem? t me)) [
  | inl e ↦ rw (e, wake_parent)
  | inr (p, e) ↦ rw (e, wake_parent) (by_parent p.parent)
]
  where
    by_parent :
        (q : Option ℕ)
        → parent_at (elim q [ none ↦ t | some q ↦ wakeup (some me) (on_proc q) t ]) j
          ≡ parent_at t j
    by_parent none = refl
    by_parent (some q) = parent_at-wakeup (some me) (on_proc q) t j

parent_at-set :
    (t : Table) (i j : ℕ) (p : Proc)
    → i < length t
    → parent_at (set t i p) j ≡ (if i == j then some p.parent else parent_at t j)
parent_at-set [] i j p h = absurd (omega arith)
parent_at-set (q ∷ qs) zero zero p h = refl
parent_at-set (q ∷ qs) zero (suc j) p h = ground arith
parent_at-set (q ∷ qs) (suc i) zero p h = ground arith
parent_at-set (q ∷ qs) (suc i) (suc j) p h = parent_at-set qs i j p (omega arith) ∙ ground arith

get_elem?-lt : (t : Table) (i : ℕ) (p : Proc) → get_elem? t i ≡ some p → i < length t
get_elem?-lt [] i p h = cc
get_elem?-lt (q ∷ qs) zero p h = omega arith
get_elem?-lt (q ∷ qs) (suc i) p h = omega (arith, get_elem?-lt qs i p h)

adopt_lem :
    (me init : ℕ) (q : Option ℕ)
    → adopt me init (some q) ≡ (if is_index q me then some (some init) else some q)
unfolding is_index
adopt_lem me init none = refl
adopt_lem me init (some q) = refl

parent_at-some :
    (t : Table) (i : ℕ) (p : Proc) → get_elem? t i ≡ some p → parent_at t i ≡ some p.parent
parent_at-some t i p e = ground arith

parent_at-reparent_one :
    (me init i j : ℕ) (t : Table)
    → parent_at (reparent_one me init i t) j
      ≡ (if i == j then adopt me init (parent_at t j) else parent_at t j)
unfolding reparent_one
parent_at-reparent_one me init i j t = elim (Option-cases (get_elem? t i)) [
  | inl e ↦ ground arith
  | inr (p, e) ↦
      rw (e, reparent_one)
        (elim (Bool-cases (is_index p.parent me)) [
          | inl mine ↦ rw mine (
              parent_at-wakeup (some me) (on_proc init) _ j
              ∙ parent_at-set t i j _ (get_elem?-lt t i p e)
              ∙ ground (arith, parent_at-some t i p e, adopt_lem me init p.parent))
          | inr other ↦
              rw other (ground (arith, parent_at-some t i p e, adopt_lem me init p.parent))
        ])
]

-- The entries from `i` on, `left` of them, are seen to.
parent_at-reparent :
    (me init left i j : ℕ) (t : Table)
    → parent_at (reparent me init left i t) j
      ≡ (if leb i j && ltb j (i + left) then adopt me init (parent_at t j) else parent_at t j)
unfolding reparent
parent_at-reparent me init zero i j t = ground arith
parent_at-reparent me init (suc left) i j t =
    parent_at-reparent me init left (i + 1) j (reparent_one me init i t)
    ∙ ground (arith, parent_at-reparent_one me init i j t)

parent_at-none : (t : Table) (j : ℕ) → length t ≤ j → parent_at t j ≡ none
parent_at-none [] j h = refl
parent_at-none (p ∷ ps) zero h = absurd (omega arith)
parent_at-none (p ∷ ps) (suc j) h = parent_at-none ps j (omega arith)

parent_at-modify :
    (f : Proc → Proc) (t : Table) (i j : ℕ)
    → ((p : Proc) → (f p).parent ≡ p.parent)
    → parent_at (modify i f t) j ≡ parent_at t j
parent_at-modify f t i j same = elim (Option-cases (get_elem? t i)) [
  | inl e ↦ rw (e, modify)
  | inr (p, e) ↦
      rw (e, modify)
        (parent_at-set t i j (f p) (get_elem?-lt t i p e)
          ∙ ground (arith, parent_at-some t i p e, same p))
]

-- The table of `exit` before the entry itself is changed.
abbrev adopted : ℕ → ℕ → Table → Table
adopted me init t = wake_parent me (reparent me init (length t) 0 t)

parent_at-adopted :
    (me init : ℕ) (t : Table) (j : ℕ)
    → parent_at (adopted me init t) j ≡ adopt me init (parent_at t j)
parent_at-adopted me init t j =
    parent_at-wake_parent me _ j
    ∙ parent_at-reparent me init (length t) 0 j t
    ∙ ground (arith, parent_at-none t j)

parent_at-exit :
    (me init : ℕ) (status : ℤ) (ticks : ℕ) (t : Table) (j : ℕ)
    → parent_at (exit me init status ticks t) j ≡ adopt me init (parent_at t j)
unfolding exit
parent_at-exit me init status ticks t j =
    parent_at-modify (to_zombie status ticks) (adopted me init t) me j
      (λ p. unfold to_zombie in refl)
    ∙ parent_at-adopted me init t j

get_elem?-exit :
    (me init : ℕ) (status : ℤ) (ticks : ℕ) (t : Table) (p : Proc)
    → get_elem? t me ≡ some p
    → (q : Proc) × (get_elem? (exit me init status ticks t) me ≡ some q)
      × (q.state ≡ zombie)
      × (q.xstate ≡ status)
      × (q.etime ≡ ticks)
unfolding exit to_zombie
get_elem?-exit me init status ticks t p e = elim (Option-cases (get_elem? (adopted me init t) me)) [
  | inl gone ↦ absurd (ground (arith, parent_at-adopted me init t me, adopt_lem me init p.parent))
  | inr (q, here) ↦ (
    to_zombie status ticks q,
    rw (here, modify)
        (get_elem?-set_self (adopted me init t) me _ (get_elem?-lt (adopted me init t) me q here)),
    refl,
    refl,
    refl,
  )
]

-- After `exit` of a process from where it takes `wait_lock`, its children are children of `init`, every other entry has the parent
-- that it had, and its own entry is a zombie with the exit status and the time.
pub exit_lem :
    (me init : ℕ) (status : ℤ) (ticks : ℕ) (t : Table) (p : Proc)
    → get_elem? t me ≡ some p
    → ((j : ℕ) → parent_at (exit me init status ticks t) j ≡ adopt me init (parent_at t j))
      × ((q : Proc) × (get_elem? (exit me init status ticks t) me ≡ some q)
          × (q.state ≡ zombie)
          × (q.xstate ≡ status)
          × (q.etime ≡ ticks))
exit_lem me init status ticks t p e =
    (parent_at-exit me init status ticks t, get_elem?-exit me init status ticks t p e)

is_index_self : (q : Proc) (me : ℕ) → q.parent ≡ some me → is_index q.parent me ≡ true
unfolding is_index
is_index_self q me e = rw e (ground arith)

-- The scan frees a zombie child, and nothing else, whenever there is one.
wait_scan-reaps :
    (killed : Bool) (me : ℕ) (havekids : Bool) (t : Table) (i : ℕ) (p : Proc)
    → get_elem? t i ≡ some p
    → p.parent ≡ some me
    → p.state ≡ zombie
    → (j : ℕ) × (c : Proc) × (get_elem? t j ≡ some c)
      × (c.parent ≡ some me)
      × (c.state ≡ zombie)
      × (wait_scan true killed me havekids t ≡ (reaped c, set t j (freeproc c)))
unfolding wait_scan is_index is_state
wait_scan-reaps killed me havekids [] i p at mine dead = cc
wait_scan-reaps killed me havekids (q ∷ qs) zero p at mine dead =
    (zero, q, refl, ground arith, ground arith, ground (arith, is_index_self q me))
wait_scan-reaps killed me havekids (q ∷ qs) (suc i) p at mine dead =
    let rest = wait_scan-reaps killed me (havekids || is_index q.parent me) qs i p at mine dead in
    elim (Bool-cases (is_index q.parent me && is_state q.state zombie)) [
      | inl hit ↦
          (zero, q, refl, hit_parent q.parent q.state hit, hit_state q.parent q.state hit, rw hit)
      | inr miss ↦ (suc rest.0, rest.1, rest.2, rest.3, rest.4, rw (miss, rest.5))
    ]
  where
    hit_parent :
        (o : Option ℕ) (s : ProcState) → (is_index o me && is_state s zombie) ≡ true → o ≡ some me
    hit_parent none s h = cc
    hit_parent (some x) s h = ground arith

    hit_state :
        (o : Option ℕ) (s : ProcState) → (is_index o me && is_state s zombie) ≡ true → s ≡ zombie
    hit_state o s h = ground arith

-- An entry that `allocproc` takes for a new process: it belongs to no process any more.
pub record IsFree (p : Proc) : Type 0 where
  pub state : p.state ≡ unused
  pub pid : p.pid ≡ 0
  pub parent : p.parent ≡ none
  pub chan : p.chan ≡ no_chan
  pub killed : p.killed ≡ false
  pub xstate : p.xstate ≡ pos 0
  pub sz : p.sz ≡ 0
  pub pagetable : p.pagetable ≡ 0
  pub trapframe : p.trapframe ≡ 0

freeproc-IsFree : (p : Proc) → IsFree (freeproc p)
unfolding freeproc
freeproc-IsFree p = record {
  state = refl;
  pid = refl;
  parent = refl;
  chan = refl;
  killed = refl;
  xstate = refl;
  sz = refl;
  pagetable = refl;
  trapframe = refl;
}

-- Once a child of entry `q` has exited, `wait` of `q` neither sleeps nor fails, if `copyout` does not
-- fail: it returns the pid and the exit status of a child that is a zombie, and in the table only
-- the entry of that child changes. That one is then unused, with pid 0, no parent, no channel, not
-- killed, and without size, page table and trap frame.
pub exit_then_wait :
    (me init q : ℕ) (status : ℤ) (ticks : ℕ) (killed : Bool) (t : Table) (p : Proc)
    → get_elem? t me ≡ some p
    → p.parent ≡ some q
    → q ≢ me
    → let t' = exit me init status ticks t in
      (j : ℕ) × (c : Proc) × (f : Proc) × (get_elem? t' j ≡ some c)
      × (c.parent ≡ some q)
      × (c.state ≡ zombie)
      × IsFree f
      × (wait true killed q t' ≡ (reaped c, set t' j f))
unfolding wait
exit_then_wait me init q status ticks killed t p at mine ne =
    let (z, here, dead, s, e) = get_elem?-exit me init status ticks t p at in
    let (j, c, found, parent, is_zombie, end) =
      wait_scan-reaps killed q false (exit me init status ticks t) me z here
        (ground (
          arith,
          parent_at-exit me init status ticks t me,
          parent_at-some t me p at,
          parent_at-some (exit me init status ticks t) me z here,
        ))
        dead in
    (j, c, freeproc c, found, parent, is_zombie, freeproc-IsFree c, end)
