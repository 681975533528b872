-- ===== src/Pipe/Wakeup.antt =====
-- One writer and one reader on a pipe, interleaved. Each run between two sleeps holds `pi->lock`, so
-- it is one step; what it wakes is waked in that step. `kill` takes another lock and may set `killed`
-- at any time: a run is given any value for it in each round, and a sleeper may be waked at any time.
pub mod Invariant
pub mod Lost
use xv.Prelude.{ℕ, ◌≤◌, ◌<◌, ◌≡◌, Bool, true, false, Option, List, length}
use xv.Pipe.{
  Pipe, pipesize, WriteEnd, wrote, refused, blocked, pipewrite, ReadEnd, got, interrupted, waits,
  piperead, pipewrite_loop, put,
}
use xv.Pipe.Write.{Written, pipewrite_lem, Reason}
use xv.Pipe.Contents.{IsValid, held, contents, length-window, is_full_lem, contents-put}
use xv.Pipe.Read.{Outcome, piperead_lem}
use mathlib.Core.Path.{subst}

-- Where the writer stands: outside `pipewrite`, about to run from round `i` of `n`, or asleep on
-- `nwrite`. A reader that wakes up starts `piperead` anew.
pub data Writer : Type 0 where
  away : Writer
  ready : (n i : ℕ) → Writer
  asleep : (n i : ℕ) → Writer

pub data Reader : Type 0 where
  away : Reader
  ready : (n : ℕ) → Reader
  asleep : (n : ℕ) → Reader

pub record System : Type 0 where
  pub pipe : Pipe
  pub writer : Writer
  pub reader : Reader

-- `wakeup(&pi->nwrite)`
pub wake_writer : Writer → Writer
wake_writer (Writer.asleep n i) = Writer.ready n i
wake_writer Writer.away = Writer.away
wake_writer (Writer.ready n i) = Writer.ready n i

-- `wakeup(&pi->nread)`
pub wake_reader : Reader → Reader
wake_reader (Reader.asleep n) = Reader.ready n
wake_reader Reader.away = Reader.away
wake_reader (Reader.ready n) = Reader.ready n

-- The state after a run of `pipewrite`: it wakes the readers before it sleeps and before it returns
-- a count, and wakes nobody where it returns -1.
pub after_write : ℕ → Reader → WriteEnd × Pipe → System
after_write n r (wrote j, p) = record { pipe = p; writer = Writer.away; reader = wake_reader r }
after_write n r (refused, p) = record { pipe = p; writer = Writer.away; reader = r }
after_write n r (blocked j, p) = record {
  pipe = p;
  writer = Writer.asleep n j;
  reader = wake_reader r;
}

-- The state after a run of `piperead`: it wakes the writers where it returns a count.
pub after_read : ℕ → Writer → ReadEnd × Pipe → System
after_read n w (got bs, p) = record { pipe = p; writer = wake_writer w; reader = Reader.away }
after_read n w (interrupted, p) = record { pipe = p; writer = w; reader = Reader.away }
after_read n w (waits, p) = record { pipe = p; writer = w; reader = Reader.asleep n }

-- `pipeclose(pi, 1)` and `pipeclose(pi, 0)`, before the page is freed
pub close_write : System → System
close_write s = record s {
  pipe = record (s.pipe) { writeopen = false };
  reader = wake_reader s.reader;
}

pub close_read : System → System
close_read s = record s {
  pipe = record (s.pipe) { readopen = false };
  writer = wake_writer s.writer;
}

abbrev pub Unless : Bool → Type 0 → Type 0
Unless true P = Unit
Unless false P = P

-- With `kills ≡ false` no run of `pipewrite` finds its process killed.
pub data Step (kills : Bool) (s : System) : System → Type 0 where
  call_write :
      (n : ℕ) → s.writer ≡ Writer.away → Step kills s (record s { writer = Writer.ready n 0 })
  call_read : (n : ℕ) → s.reader ≡ Reader.away → Step kills s (record s { reader = Reader.ready n })
  run_write :
      (copyin : ℕ → Option ℕ) (killed : ℕ → Bool) (addr n i : ℕ)
      → s.writer ≡ Writer.ready n i
      → Unless kills ((j : ℕ) → killed j ≡ false)
      → Step kills s (after_write n s.reader (pipewrite copyin killed addr n i s.pipe))
  run_read :
      (copyout : ℕ → Bool) (killed : Bool) (addr n : ℕ)
      → s.reader ≡ Reader.ready n
      → Step kills s (after_read n s.writer (piperead copyout killed addr n s.pipe))
  writer_closes : s.writer ≡ Writer.away → Step kills s (close_write s)
  reader_closes : s.reader ≡ Reader.away → Step kills s (close_read s)
  kill_writer : Step kills s (record s { writer = wake_writer s.writer })
  kill_reader : Step kills s (record s { reader = wake_reader s.reader })

-- What a sleeper waits for is not there: a full pipe for the writer. For the reader, an open write
-- end, and no byte unless a writer was killed in the middle of its run.
abbrev pub WriterInv : Pipe → Writer → Type 0
WriterInv p Writer.away = Unit
WriterInv p (Writer.ready n i) = i ≤ n
WriterInv p (Writer.asleep n i) = (i < n) × (held p ≡ pipesize) × (p.readopen ≡ true)

abbrev pub ReaderInv : Bool → Pipe → Reader → Type 0
ReaderInv kills p Reader.away = Unit
ReaderInv kills p (Reader.ready n) = Unit
ReaderInv kills p (Reader.asleep n) = Unless kills (held p ≡ 0) × (p.writeopen ≡ true)

-- At most one of the two sleeps.
abbrev pub OneAwake : Writer → Reader → Type 0
OneAwake (Writer.asleep n i) (Reader.asleep m) = ⊥
OneAwake w r = Unit

pub record Inv (kills : Bool) (s : System) : Type 0 where
  pub valid : IsValid s.pipe
  pub writes : WriterInv s.pipe s.writer
  pub reads : ReaderInv kills s.pipe s.reader
  pub awake : OneAwake s.writer s.reader

-- `pipealloc`: an empty pipe, both ends open.
abbrev pub pipealloc : List ℕ → System
pipealloc bs = record {
  pipe = record { bytes = bs; nread = 0; nwrite = 0; readopen = true; writeopen = true };
  writer = Writer.away;
  reader = Reader.away;
}

pub data Reach (kills : Bool) : System → Type 0 where
  start : (bs : List ℕ) → length bs ≡ pipesize → Reach kills (pipealloc bs)
  next : {s t : System} → Reach kills s → Step kills s t → Reach kills t
