-- ===== src/Console.antt =====
-- kernel/console.c: the ring of input characters, which the interrupt handler fills and edits and
-- `consoleread` empties. `cons.lock` makes each call one step, `consoleread` from one sleep to the
-- next. The echo is left out.
mod Bounds
mod Calls
mod Tests
use xv.Prelude.{
  ℕ, zero, suc, ◌+◌, ◌-◌, ◌%◌, ◌&&◌, ◌||◌, Bool, true, false, not, List, [], ◌∷◌, ltb, ◌==◌,
  if◌then◌else◌, update,
}

abbrev pub input_buf_size : ℕ
input_buf_size = 128

-- `uint` arithmetic on the indices
abbrev pub uint : ℕ
uint = 4294967296

abbrev pub inc : ℕ → ℕ
inc i = (i + 1) % uint

abbrev pub dec : ℕ → ℕ
dec i = (i + (uint - 1)) % uint

abbrev pub diff : ℕ → ℕ → ℕ
diff i j = (i + (uint - j)) % uint

pub record Cons : Type 0 where
  pub buf : ℕ → ℕ
  pub r : ℕ
  pub w : ℕ
  pub e : ℕ

-- `while(cons.e != cons.w && cons.buf[(cons.e-1) % INPUT_BUF_SIZE] != '\n') cons.e--;`, for at most so many
-- rounds.
pub kill_line : ℕ → Cons → Cons
kill_line zero s = s
kill_line (suc rounds) s =
    let rest = kill_line rounds (record s { e = dec s.e }) in
    if not (s.e == s.w) && not (s.buf (dec s.e % input_buf_size) == 10) then rest else s

-- The `default` branch, for a character that is stored.
pub store_char : ℕ → Cons → Cons
store_char c s =
    let e1 = inc s.e in
    let stored = record s { buf = update s.buf (s.e % input_buf_size) c; e = e1 } in
    if c == 10 || (c == 4 || diff e1 s.r == input_buf_size)
    then record stored { w = e1 }
    else stored

-- Control-P is 16, control-U 21, control-H 8, delete 127, '\r' 13 and '\n' 10. The line that control-U
-- kills is not longer than the buffer.
pub consoleintr : ℕ → Cons → Cons
unfolding kill_line store_char
consoleintr c s =
    if c == 16
    then s
    else if c == 21
    then kill_line input_buf_size s
    else if c == 8 || c == 127
    then (if s.e == s.w then s else record s { e = dec s.e })
    else if not (c == 0) && ltb (diff s.e s.r) input_buf_size
    then store_char (if c == 13 then 10 else c) s
    else s

pub data ReadEnd : Type 0 where
  sleeps dead : ReadEnd
  returns : ℕ → ReadEnd

-- The loop of `consoleread` with `n` bytes to go of `target`, and the bytes copied out. `copyout` says at
-- which bytes the copy works, and control-D is 4.
pub read_loop : (n target : ℕ) → Bool → (ℕ → Bool) → Cons → ReadEnd × List ℕ × Cons
read_loop zero target killed copyout s = (returns target, [], s)
read_loop (suc n) target killed copyout s =
    let c = s.buf (s.r % input_buf_size) in
    let taken = record s { r = inc s.r } in
    let back = record taken { r = dec taken.r } in
    let (end, bytes, last) = read_loop n target killed copyout taken in
    let i = target - suc n in
    if s.r == s.w
    then (if killed then (dead, [], s) else (sleeps, [], s))
    else if c == 4
    then (returns i, [], if ltb (suc n) target then back else taken)
    else if not (copyout i)
    then (returns i, [], taken)
    else if c == 10
    then (returns (i + 1), c ∷ [], taken)
    else (end, c ∷ bytes, last)

pub consoleread : ℕ → Bool → (ℕ → Bool) → Cons → ReadEnd × List ℕ × Cons
unfolding read_loop
consoleread n killed copyout s = read_loop n n killed copyout s
