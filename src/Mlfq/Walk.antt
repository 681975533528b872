-- ===== src/Mlfq/Walk.antt =====
-- The walk of the MLFQ branch of `scheduler` over one level.
use xv.Mlfq.Contents.{IsValid, contents, window, dequeue_refines}
use xv.Panic.{ok, Result, ◌>>=◌}
use xv.Prelude.{
  ℕ, zero, suc, ◌+◌, ◌-◌, ◌/◌, ◌%◌, ◌≤◌, ◌≡◌, refl, sym, ap, ◌∙◌, inl, inr, Bool, false, Option,
  none, some, List, [], ◌∷◌, arith, ltb, if◌then◌else◌, Bool-cases, length, get_or,
}
use xv.Mlfq.{PriorityQueue, dequeue, slots}
use mathlib.Core.Path.{subst}
use xv.Mlfq.Contents.{dequeue_refines}

-- The loop over `j` on the queue of one level, whose processes have this level's priority. `runs p`
-- says that entry `p` is runnable. `slots` rounds are enough.
pub walk_level : ℕ → (ℕ → Bool) → ℕ → PriorityQueue → Result (Option ℕ × PriorityQueue)
walk_level zero runs j q = ok (none, q)
walk_level (suc rounds) runs j q =
    let p = get_or q.procs q.front 0 in
    let next =
      dequeue q >>= λ q'. if runs p then ok (some p, q') else walk_level rounds runs (j + 1) q' in
    if ltb j q.length then next else ok (none, q)

-- The first of the front `visits` entries that is runnable, and what is left behind it.
pub first_of : ℕ → (ℕ → Bool) → List ℕ → Option ℕ × List ℕ
first_of zero runs xs = (none, xs)
first_of (suc visits) runs [] = (none, [])
first_of (suc visits) runs (x ∷ xs) = if runs x then (some x, xs) else first_of visits runs xs

skip_first :
    (n visits : ℕ) (runs : ℕ → Bool) (x : ℕ) (xs ys : List ℕ)
    → n ≡ suc visits
    → ys ≡ x ∷ xs
    → runs x ≡ false
    → first_of n runs ys ≡ first_of visits runs xs
unfolding first_of
skip_first n visits runs x xs ys e f idle = rw (e, f, idle)

length-window : (ps : List ℕ) (f n : ℕ) → length (window ps f n) ≡ n
length-window ps f zero = refl
length-window ps f (suc n) = ap suc (length-window ps ((f + 1) % slots) n)

walk_level-first_of :
    (rounds : ℕ) (runs : ℕ → Bool) (j : ℕ) (q : PriorityQueue)
    → IsValid q
    → q.length ≤ rounds + j
    → (r : Option ℕ) × (q' : PriorityQueue) × (walk_level rounds runs j q ≡ ok (r, q'))
      × IsValid q'
      × ((r, contents q') ≡ first_of ((q.length - j + 1) / 2) runs (contents q))
unfolding walk_level first_of
walk_level-first_of zero runs j q v enough =
    let no_visits : (q.length - j + 1) / 2 ≡ 0 = omega arith in (none, q, refl, v, rw no_visits)
walk_level-first_of (suc rounds) runs j q v enough = elim (Bool-cases (ltb j q.length)) [
  | inr stop ↦
      let no_visits : (q.length - j + 1) / 2 ≡ 0 = ground arith in
      (none, q, rw stop, v, rw no_visits)
  | inl more ↦ elim (dequeue_refines q v) [
    | inl (empty, e) ↦ absurd (ground arith)
    | inr (q', e, v', c) ↦
        let shorter : q.length ≡ suc q'.length = omega (
          arith,
          ap length c,
          length-window q.procs q.front q.length,
          length-window q'.procs q'.front q'.length,
        ) in
        let visits : (q.length - j + 1) / 2 ≡ suc ((q'.length - (j + 1) + 1) / 2) =
          ground (arith, shorter) in
        elim (Bool-cases (runs (get_or q.procs q.front 0))) [
          | inl good ↦
              (some (get_or q.procs q.front 0), q', rw (more, e, good), v', rw (visits, c, good))
          | inr bad ↦
              let (r, q'', e', v'', d) =
                walk_level-first_of rounds runs (j + 1) q' v' (omega arith) in
              (r, q'', rw (more, e, bad) e', v'', d ∙ sym (skip_first _ _ runs _ _ _ visits c bad))
        ]
  ]
]

-- The walk over a level with a valid queue of `n` processes does not panic, leaves a valid queue and
-- looks at the front `(n + 1) / 2` of them only: it takes the first of these that is runnable, and
-- drops those before it; the others stay queued.
pub walk_level_lem :
    (runs : ℕ → Bool) (q : PriorityQueue)
    → IsValid q
    → (r : Option ℕ) × (q' : PriorityQueue) × (walk_level slots runs 0 q ≡ ok (r, q'))
      × IsValid q'
      × ((r, contents q') ≡ first_of ((q.length + 1) / 2) runs (contents q))
walk_level_lem runs q v =
    let e : q.length - 0 ≡ q.length = omega arith in
    subst
      (λ n.
        (r : Option ℕ) × (q' : PriorityQueue) × (walk_level slots runs 0 q ≡ ok (r, q'))
        × IsValid q'
        × ((r, contents q') ≡ first_of ((n + 1) / 2) runs (contents q)))
      e (walk_level-first_of slots runs 0 q v (omega (arith, v.bounded)))

-- If a level holds two processes and the front one is not runnable, the walk takes none of them,
-- whether the other one is runnable or not.
pub walk_level_skips :
    (runs : ℕ → Bool) (q : PriorityQueue) (x y : ℕ)
    → IsValid q
    → contents q ≡ x ∷ y ∷ []
    → runs x ≡ false
    → (q' : PriorityQueue) × (walk_level slots runs 0 q ≡ ok (none, q')) × (contents q' ≡ y ∷ [])
unfolding first_of
walk_level_skips runs q x y v c idle =
    let two : q.length ≡ 2 = omega (arith, ap length c, length-window q.procs q.front q.length) in
    let (r, q', e, v', d) = walk_level_lem runs q v in
    let one_visit : (q.length + 1) / 2 ≡ 1 = omega arith in
    let seen : (r, contents q') ≡ (none, y ∷ []) = d ∙ rw (one_visit, c, idle) refl in
    (q', e ∙ ap (λ z. ok (z.0, q')) seen, ap (λ z. z.1) seen)
