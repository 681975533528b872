-- ===== src/Console/Tests.antt =====
-- Typing, editing and reading.
use xv.Prelude.{ℕ, ◌≡◌, refl, true, false, List, [], ◌∷◌}
use xv.Console.{Cons, consoleintr, consoleread, ReadEnd, returns}
use xv.Console.Bounds.{Bounded, Kept}
use xv.Console.Calls.{Call, types, reads, after, at_start, typed_input_lem}

-- A line is typed, two bytes of it are read, and a character arrives.
abbrev calls : List Call
calls = types 97 ∷ types 98 ∷ types 13 ∷ reads 2 2 false (λ i. true) ∷ []

typed_input_lem_example :
    Bounded (after calls (at_start (λ k. 0)))
    × Kept (after calls (at_start (λ k. 0))) (consoleintr 99 (after calls (at_start (λ k. 0))))
typed_input_lem_example = typed_input_lem calls (λ k. 0) 99

-- "ax", a backspace, "b", and return: a reader gets "ab" and the newline.
typed : ReadEnd × List ℕ
unfolding consoleintr consoleread
typed =
    let s : Cons = record { buf = λ k. 0; r = 0; w = 0; e = 0 } in
    let s' : Cons =
      consoleintr 13 (consoleintr 98 (consoleintr 8 (consoleintr 120 (consoleintr 97 s)))) in
    let (end, bytes, last) = consoleread 100 false (λ i. true) s' in (end, bytes)

typed_runs : typed ≡ (returns 3, 97 ∷ 98 ∷ 10 ∷ [])
unfolding typed
typed_runs = refl
