-- ===== src/Pipe.antt =====
-- kernel/pipe.c: the ring of 512 bytes behind a pipe, and the loops of `pipewrite` and `piperead`
-- from one sleep to the next.
pub mod Contents
pub mod Write
pub mod Read
pub mod Wakeup
mod Tests
use xv.Prelude.{
  ℕ, zero, suc, ◌+◌, ◌-◌, ◌%◌, ◌^◌, Bool, true, false, not, ◌&&◌, ◌||◌, Option, none, some, List,
  [], ◌∷◌, if◌then◌else◌, ◌==◌, get_or, set,
}

-- `PIPESIZE`
abbrev pub pipesize : ℕ
pipesize = 512

-- `uint` arithmetic
abbrev pub uint_mod : ℕ
uint_mod = 2 ^ 32

-- `struct pipe`; `bytes` is its array `data`, and its spinlock is held throughout each run below.
pub record Pipe : Type 0 where
  pub bytes : List ℕ
  pub nread : ℕ
  pub nwrite : ℕ
  pub readopen : Bool
  pub writeopen : Bool

-- `pi->data[pi->nwrite++ % PIPESIZE] = ch`
pub put : Pipe → ℕ → Pipe
put p ch = record p {
  bytes = set p.bytes (p.nwrite % pipesize) ch;
  nwrite = (p.nwrite + 1) % uint_mod;
}

-- `ch = pi->data[pi->nread++ % PIPESIZE]`
pub get : Pipe → ℕ × Pipe
get p = (get_or p.bytes (p.nread % pipesize) 0, record p { nread = (p.nread + 1) % uint_mod })

-- `pi->nwrite == pi->nread + PIPESIZE`
pub is_full : Pipe → Bool
is_full p = p.nwrite == (p.nread + pipesize) % uint_mod

-- `pi->nread == pi->nwrite`
pub is_empty : Pipe → Bool
is_empty p = p.nread == p.nwrite

-- How a run of `pipewrite` ends: it returns `i`, it returns -1, or it has waked the readers and
-- sleeps on `nwrite` with `i` bytes written.
pub data WriteEnd : Type 0 where
  wrote : ℕ → WriteEnd
  refused : WriteEnd
  blocked : ℕ → WriteEnd

-- `copyin a` is the byte at the writer's address `a`, `none` where `copyin` returns -1. `killed i`
-- is what `killed(pr)` returns in round `i`. The first number counts the rounds left, `n - i`.
pub pipewrite_loop : (ℕ → Option ℕ) → (ℕ → Bool) → ℕ → ℕ → ℕ → Pipe → WriteEnd × Pipe
pipewrite_loop copyin killed addr zero i p = (wrote i, p)
pipewrite_loop copyin killed addr (suc left) i p =
    if not p.readopen || killed i
    then (refused, p)
    else if is_full p
    then (blocked i, p)
    else elim (copyin (addr + i)) [
      | none ↦ (wrote i, p)
      | some ch ↦ pipewrite_loop copyin killed addr left (i + 1) (put p ch)
    ]

-- `pipewrite(pi, addr, n)` from its start, at `i = 0`, or from where it wakes up. A negative `n` does
-- what 0 does.
pub pipewrite : (ℕ → Option ℕ) → (ℕ → Bool) → ℕ → ℕ → ℕ → Pipe → WriteEnd × Pipe
pipewrite copyin killed addr n i p = pipewrite_loop copyin killed addr (n - i) i p

-- How a run of `piperead` ends: it returns the bytes that it has copied out, it returns -1, or it
-- sleeps on `nread`.
pub data ReadEnd : Type 0 where
  got : List ℕ → ReadEnd
  interrupted : ReadEnd
  waits : ReadEnd

-- The `for` loop of `piperead`. `copyout a` says whether the byte for address `a` is taken. A byte
-- that is not taken has left the ring all the same.
pub piperead_loop : (ℕ → Bool) → ℕ → ℕ → ℕ → Pipe → List ℕ × Pipe
piperead_loop copyout addr zero i p = ([], p)
piperead_loop copyout addr (suc left) i p =
    if is_empty p
    then ([], p)
    else let (ch, q) = get p in
      let (chs, r) = piperead_loop copyout addr left (i + 1) q in
      if copyout (addr + i) then (ch ∷ chs, r) else ([], q)

-- `piperead` from its start, or from where it wakes up, to its end or its next sleep.
pub piperead : (ℕ → Bool) → Bool → ℕ → ℕ → Pipe → ReadEnd × Pipe
piperead copyout killed addr n p =
    if is_empty p && p.writeopen
    then (if killed then (interrupted, p) else (waits, p))
    else let (chs, q) = piperead_loop copyout addr n 0 p in (got chs, q)
