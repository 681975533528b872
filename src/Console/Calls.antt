-- ===== src/Console/Calls.antt =====
-- Interrupts and reads in any order, from the start of the kernel on.
use xv.Prelude.{ℕ, Bool, List, [], ◌∷◌, arith}
use xv.Console.{Cons, consoleintr, read_loop}
use xv.Console.Bounds.{Bounded, Kept, consoleintr_lem, read_loop-Bounded}

-- A character arrives, or a process reads on until it sleeps or returns.
pub data Call : Type 0 where
  types : ℕ → Call
  reads : (n target : ℕ) → Bool → (ℕ → Bool) → Call

pub after : List Call → Cons → Cons
after [] s = s
after (types c ∷ calls) s = after calls (consoleintr c s)
after (reads n target killed copyout ∷ calls) s =
    after calls (read_loop n target killed copyout s).2

-- The indices are 0 as static data.
abbrev pub at_start : (ℕ → ℕ) → Cons
at_start buf = record { buf = buf; r = 0; w = 0; e = 0 }

after-Bounded : (calls : List Call) (s : Cons) → Bounded s → Bounded (after calls s)
unfolding after
after-Bounded [] s b = b
after-Bounded (types c ∷ calls) s b = after-Bounded calls _ (consoleintr_lem c s b).bounded
after-Bounded (reads n target killed copyout ∷ calls) s b =
    after-Bounded calls _ (read_loop-Bounded n target killed copyout s b)

-- After any interrupts and reads from the start on, the read, write and edit index of the console stand in this
-- order, at most `INPUT_BUF_SIZE` apart, across the wrap-around of the `uint` indices; and whatever
-- character then arrives, `consoleintr` leaves every byte that is ready to be read, takes none of them
-- back, and keeps the indices in order.
pub typed_input_lem :
    (calls : List Call) (buf : ℕ → ℕ) (c : ℕ)
    → Bounded (after calls (at_start buf))
      × Kept (after calls (at_start buf)) (consoleintr c (after calls (at_start buf)))
typed_input_lem calls buf c =
    let b = after-Bounded calls (at_start buf) (record {
      uint_r = omega arith;
      uint_w = omega arith;
      uint_e = omega arith;
      ready = omega arith;
      room = omega arith;
    }) in
    (b, consoleintr_lem c (after calls (at_start buf)) b)
