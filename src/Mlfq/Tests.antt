-- ===== src/Mlfq/Tests.antt =====
-- A queue at work on concrete entries.
use xv.Prelude.{
  ℕ, zero, suc, ◌≡◌, refl, ap, ◌∙◌, ◌⊎◌, List, [], ◌∷◌, arith, length, set, get_or, length-set,
  none, ◌==◌,
}
use xv.Mlfq.Contents.{IsValid, contents}
use xv.Mlfq.{PriorityQueue, dequeue, slots}
use xv.Panic.{panic, ok}
use xv.Mlfq.Contents.{dequeue_refines}
use xv.Mlfq.Walk.{walk_level, walk_level_skips}

abbrev zeros : ℕ → List ℕ
zeros zero = []
zeros (suc n) = 0 ∷ zeros n

length-zeros : (n : ℕ) → length (zeros n) ≡ n
length-zeros zero = refl
length-zeros (suc n) = ap suc (length-zeros n)

-- The entries 7 and 9, in the last slot and the first
abbrev around : PriorityQueue
around = record { front = 64; back = 1; length = 2; procs = set (set (zeros slots) 64 7) 0 9 }

around-IsValid : IsValid around
around-IsValid = record {
  size =
      length-set (set (zeros slots) 64 7) 0 9 ∙ length-set (zeros slots) 64 7 ∙ length-zeros slots;
  front_in = omega arith;
  bounded = omega arith;
  back_at = omega arith;
}

dequeue_refines_example :
    ((around.length ≡ 0) × (dequeue around ≡ panic "Empty queue"))
    ⊎ ((q' : PriorityQueue) × (dequeue around ≡ ok q')
        × IsValid q'
        × (contents around ≡ get_or around.procs 64 0 ∷ contents q'))
dequeue_refines_example = dequeue_refines around around-IsValid

walk_level_skips_example :
    (q' : PriorityQueue) × (walk_level slots (λ p. p == 9) 0 around ≡ ok (none, q'))
    × (contents q' ≡ 9 ∷ [])
walk_level_skips_example = walk_level_skips (λ p. p == 9) around 7 9 around-IsValid refl refl
