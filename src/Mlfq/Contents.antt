-- ===== src/Mlfq/Contents.antt =====
-- A queue refines the list of its entries, front first.
use xv.Panic.{ok, panic}
use xv.Proc.{nproc}
use xv.Mlfq.{PriorityQueue, slots, step_round, enqueue, dequeue}
use xv.Prelude.{
  ℕ, zero, suc, ◌+◌, ◌-◌, ◌%◌, ◌≤◌, ◌<◌, ◌≡◌, ap, ◌⊎◌, inl, inr, List, [], ◌∷◌, ◌++◌, arith, ◌==◌,
  Bool-cases, length, set, get_or, length-set, get_or-set_self, get_or-set_ne,
}
use mathlib.Core.Path.{ap₂}

pub record IsValid (q : PriorityQueue) : Type 0 where
  pub size : length q.procs ≡ slots
  pub front_in : q.front < slots
  pub bounded : q.length ≤ nproc
  pub back_at : q.back ≡ (q.front + q.length) % slots

-- the `n` entries from the slot `f` on
abbrev pub window : List ℕ → ℕ → ℕ → List ℕ
window ps f zero = []
window ps f (suc n) = get_or ps f 0 ∷ window ps ((f + 1) % slots) n

abbrev pub contents : PriorityQueue → List ℕ
contents q = window q.procs q.front q.length

-- A write just past a window extends it.
window-set :
    (ps : List ℕ) (x n f b : ℕ)
    → length ps ≡ slots
    → f < slots
    → n < slots
    → b ≡ (f + n) % slots
    → window (set ps b x) f (suc n) ≡ window ps f n ++ (x ∷ [])
window-set ps x zero f b size lt room e =
    ap (λ y. y ∷ [])
      (let at : f ≡ b = omega arith in rw at (get_or-set_self ps b x 0 (omega arith)))
window-set ps x (suc n) f b size lt room e =
    ap₂ ◌∷◌ (get_or-set_ne ps x 0 (omega arith))
      (window-set ps x n ((f + 1) % slots) b size (omega arith) (omega arith) (omega arith))

-- On a valid queue `enqueue` panics if all of `NPROC` places are taken; else it leaves a valid queue
-- with the new entry behind the old ones.
pub enqueue_refines :
    (q : PriorityQueue) (x : ℕ)
    → IsValid q
    → ((q.length ≡ nproc) × (enqueue q x ≡ panic "Full queue"))
      ⊎ ((q' : PriorityQueue) × (enqueue q x ≡ ok q')
          × IsValid q'
          × (contents q' ≡ contents q ++ (x ∷ [])))
unfolding enqueue step_round
enqueue_refines q x v = elim (Bool-cases (q.length == nproc)) [
  | inl full ↦ inl (ground arith, rw full)
  | inr room ↦ inr (
    record q { procs = set q.procs q.back x; back = step_round q.back; length = q.length + 1 },
    rw room,
    record {
      size = omega (arith, length-set q.procs q.back x, v.size);
      front_in = v.front_in;
      bounded = ground (arith, v.bounded);
      back_at = ground (arith, v.back_at, v.front_in, v.bounded);
    },
    (let e : q.length + 1 ≡ suc q.length = omega arith in
        rw e (
          window-set q.procs x q.length q.front q.back v.size v.front_in (ground (arith, v.bounded))
            v.back_at)),
  )
]

-- On a valid queue `dequeue` panics if it is empty; else it leaves a valid queue of the old entries
-- but the first, which stood in the slot `front`.
pub dequeue_refines :
    (q : PriorityQueue)
    → IsValid q
    → ((q.length ≡ 0) × (dequeue q ≡ panic "Empty queue"))
      ⊎ ((q' : PriorityQueue) × (dequeue q ≡ ok q')
          × IsValid q'
          × (contents q ≡ get_or q.procs q.front 0 ∷ contents q'))
unfolding dequeue step_round
dequeue_refines q v = elim (Bool-cases (q.length == 0)) [
  | inl empty ↦ inl (ground arith, rw empty)
  | inr some_left ↦ inr (
    record q { front = step_round q.front; length = q.length - 1 },
    rw some_left,
    record {
      size = v.size;
      front_in = ground (arith, v.front_in);
      bounded = omega (arith, v.bounded);
      back_at = ground (arith, v.back_at, v.front_in, v.bounded);
    },
    (let e : q.length ≡ suc (q.length - 1) = ground arith in
        let f : step_round q.front ≡ (q.front + 1) % slots = ground (arith, v.front_in) in
        rw f (ap (λ n. window q.procs q.front n) e)),
  )
]
