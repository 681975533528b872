-- ===== src/Pipe/Tests.antt =====
-- The pipe at work on concrete inputs.
use xv.Prelude.{
  ℕ, zero, suc, ◌%◌, ◌≡◌, refl, ap, true, false, some, List, [], ◌∷◌, arith, ◌==◌, length,
}
use xv.Pipe.Wakeup.{
  Inv, next, start, after_write, Reader, after_read, Writer, pipealloc, call_read, run_read,
}
use xv.Pipe.Contents.{IsValid, contents}
use xv.Pipe.{Pipe, pipewrite, pipesize, piperead}
use xv.Pipe.Write.{Written, pipewrite_lem}
use xv.Pipe.Read.{Outcome, piperead_lem}
use xv.Pipe.Wakeup.Lost.{lost_wakeup}
use xv.Pipe.Wakeup.Invariant.{sleepers_wait}

abbrev zeros : ℕ → List ℕ
zeros zero = []
zeros (suc n) = 0 ∷ zeros n

length-zeros : (n : ℕ) → length (zeros n) ≡ n
length-zeros zero = refl
length-zeros (suc n) = ap suc (length-zeros n)

-- Both counters stand just before the wrap-around.
abbrev at_wrap : Pipe
at_wrap = record {
  bytes = zeros pipesize;
  nread = 4294967295;
  nwrite = 4294967295;
  readopen = true;
  writeopen = true;
}

at_wrap-IsValid : IsValid at_wrap
at_wrap-IsValid = record {
  size = length-zeros pipesize;
  read_fits = omega arith;
  write_fits = omega arith;
  bounded = omega arith;
}

abbrev three_bytes : Pipe
three_bytes = record at_wrap { nwrite = 2 }

three_bytes-IsValid : IsValid three_bytes
three_bytes-IsValid = record {
  size = length-zeros pipesize;
  read_fits = omega arith;
  write_fits = omega arith;
  bounded = omega arith;
}

pipewrite_lem_example :
    Written
      (λ a. some (a % 256))
      (λ i. false)
      7
      3
      0
      at_wrap
      (pipewrite (λ a. some (a % 256)) (λ i. false) 7 3 0 at_wrap)
pipewrite_lem_example =
    pipewrite_lem (λ a. some (a % 256)) (λ i. false) 7 3 0 (omega arith) at_wrap-IsValid

piperead_lem_example :
    Outcome (λ a. true) false 40 2 three_bytes (piperead (λ a. true) false 40 2 three_bytes)
piperead_lem_example = piperead_lem (λ a. true) 40 2 false three_bytes-IsValid

-- The reader goes to sleep on a new pipe.
sleepers_wait_example :
    Inv false
      (after_read 4 Writer.away (piperead (λ a. true) false 40 4 (pipealloc (zeros pipesize)).pipe))
sleepers_wait_example = sleepers_wait (
    next (next (start (zeros pipesize) (length-zeros pipesize)) (call_read 4 refl))
      (run_read (λ a. true) false 40 4 refl))

lost_wakeup_example :
    let s =
      after_write 2 (Reader.asleep 4) (pipewrite (λ a. some 65) (λ i. i == 1) 7 2 0 at_wrap) in
    (s.reader ≡ Reader.asleep 4) × (contents s.pipe ≡ 65 ∷ [])
lost_wakeup_example =
    lost_wakeup (λ a. some 65) (λ i. i == 1) 7 2 4 65 at_wrap at_wrap-IsValid (omega arith) refl
      (omega arith) refl refl refl
