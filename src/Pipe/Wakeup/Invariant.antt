-- ===== src/Pipe/Wakeup/Invariant.antt =====
-- Nobody sleeps on what has come: the invariant of a writer and a reader, step by step.
use xv.Prelude.{
  ℕ, ◌≡◌, Bool, true, false, Option, arith, length, sym, inl, ap, length-append, inr, ◌+◌, ◌∙◌,
}
use xv.Pipe.{Pipe, WriteEnd, wrote, refused, blocked, ReadEnd, got, interrupted, waits}
use xv.Pipe.Write.{Written, pipewrite_lem, Reason}
use xv.Pipe.Contents.{IsValid, held, contents, length-window}
use xv.Pipe.Read.{Outcome, piperead_lem}
use mathlib.Core.Path.{subst}
use xv.Pipe.Wakeup.{
  Writer, Reader, System, wake_writer, wake_reader, after_write, after_read, close_write,
  close_read, Unless, Step, call_write, call_read, run_write, run_read, writer_closes,
  reader_closes, kill_writer, kill_reader, WriterInv, ReaderInv, OneAwake, Inv, Reach, start, next,
}

wake_writer-Inv : (p q : Pipe) (w : Writer) → WriterInv p w → WriterInv q (wake_writer w)
unfolding wake_writer
wake_writer-Inv p q Writer.away h = tt
wake_writer-Inv p q (Writer.ready n i) h = h
wake_writer-Inv p q (Writer.asleep n i) h = omega arith

wake_reader-Inv : (kills : Bool) (p : Pipe) (r : Reader) → ReaderInv kills p (wake_reader r)
unfolding wake_reader
wake_reader-Inv kills p Reader.away = tt
wake_reader-Inv kills p (Reader.ready n) = tt
wake_reader-Inv kills p (Reader.asleep n) = tt

wake_writer-awake : (w : Writer) (r : Reader) → OneAwake (wake_writer w) r
unfolding wake_writer
wake_writer-awake Writer.away r = tt
wake_writer-awake (Writer.ready n i) r = tt
wake_writer-awake (Writer.asleep n i) r = tt

wake_reader-awake : (w : Writer) (r : Reader) → OneAwake w (wake_reader r)
unfolding wake_reader
wake_reader-awake Writer.away r = tt
wake_reader-awake (Writer.ready n i) r = tt
wake_reader-awake (Writer.asleep n i) Reader.away = tt
wake_reader-awake (Writer.asleep n i) (Reader.ready m) = tt
wake_reader-awake (Writer.asleep n i) (Reader.asleep m) = tt

away-awake : (r : Reader) → OneAwake Writer.away r
away-awake r = tt

-- A run that is refused adds no byte unless it finds the writer killed.
refused-Inv :
    (kills : Bool) {copyin : ℕ → Option ℕ} {killed : ℕ → Bool} {addr n i : ℕ} {p q : Pipe}
    (r : Reader)
    → Unless kills ((j : ℕ) → killed j ≡ false)
    → Written copyin killed addr n i p (refused, q)
    → ReaderInv kills p r
    → ReaderInv kills q r
refused-Inv kills Reader.away calm w h = tt
refused-Inv kills (Reader.ready m) calm w h = tt
refused-Inv true (Reader.asleep m) calm w (empty, open_end) = (tt, w.same_ends.1 ∙ open_end)
refused-Inv false {copyin} {killed} {addr} {n} {i} {p} {q} (Reader.asleep m) calm w
      (empty, open_end) =
    (still_empty w.reason, w.same_ends.1 ∙ open_end)
  where
    still_empty : Reason copyin killed addr n i q (length w.sent) refused → held q ≡ 0
    still_empty (inl (closed, none_sent)) = omega (
      arith,
      ap length w.appended,
      length-append (contents p) w.sent,
      length-window p.bytes p.nread (held p),
      length-window q.bytes q.nread (held q),
    )
    still_empty (inr (still, dead)) = cc (calm (i + length w.sent))

awake-away : (w : Writer) → OneAwake w Reader.away
awake-away Writer.away = tt
awake-away (Writer.ready n i) = tt
awake-away (Writer.asleep n i) = tt

awake-ready : (w : Writer) (n : ℕ) → OneAwake w (Reader.ready n)
awake-ready Writer.away m = tt
awake-ready (Writer.ready n i) m = tt
awake-ready (Writer.asleep n i) m = tt

empty-awake :
    (p : Pipe) (n : ℕ) (w : Writer) → WriterInv p w → held p ≡ 0 → OneAwake w (Reader.asleep n)
empty-awake p m Writer.away h none_held = tt
empty-awake p m (Writer.ready n i) h none_held = tt
empty-awake p m (Writer.asleep n i) h none_held = omega arith

still_away : (kills : Bool) (p : Pipe) (r : Reader) → r ≡ Reader.away → ReaderInv kills p r
still_away kills p r e = rw e tt

same_writes : (p : Pipe) (w : Writer) → WriterInv p w → WriterInv (record p { writeopen = false }) w
same_writes p Writer.away h = tt
same_writes p (Writer.ready n i) h = h
same_writes p (Writer.asleep n i) h = h

after_write-Inv :
    {kills : Bool} {copyin : ℕ → Option ℕ} {killed : ℕ → Bool} {addr n i : ℕ} {p : Pipe}
    (r : Reader) (out : WriteEnd × Pipe)
    → Unless kills ((j : ℕ) → killed j ≡ false)
    → ReaderInv kills p r
    → Written copyin killed addr n i p out
    → Inv kills (after_write n r out)
unfolding after_write
after_write-Inv {kills} r (wrote j, q) calm h w = record {
  valid = w.valid;
  writes = tt;
  reads = wake_reader-Inv kills q r;
  awake = wake_reader-awake Writer.away r;
}
after_write-Inv {kills} {p} r (refused, q) calm h w = record {
  valid = w.valid;
  writes = tt;
  reads = refused-Inv kills r calm w h;
  awake = away-awake r;
}
after_write-Inv {kills} {n} r (blocked j, q) calm h w = record {
  valid = w.valid;
  writes = (w.reason.1, w.reason.2, w.reason.3);
  reads = wake_reader-Inv kills q r;
  awake = wake_reader-awake (Writer.asleep n j) r;
}

quiet : {P : Type 0} (kills : Bool) → P → Unless kills P
quiet true h = tt
quiet false h = h

after_read-Inv :
    {kills : Bool} (copyout : ℕ → Bool) (killed : Bool) (addr n : ℕ) (p : Pipe) (w : Writer)
    (out : ReadEnd × Pipe)
    → IsValid p
    → WriterInv p w
    → Outcome copyout killed addr n p out
    → Inv kills (after_read n w out)
unfolding after_read
after_read-Inv copyout killed addr n p w (got bs, q) v h (why, t) = record {
  valid = t.valid;
  writes = wake_writer-Inv p q w h;
  reads = tt;
  awake = wake_writer-awake w Reader.away;
}
after_read-Inv copyout killed addr n p w (interrupted, q) v h (same, none_held, open_end, dead) =
    record {
      valid = subst IsValid (sym same) v;
      writes = subst (λ x. WriterInv x w) (sym same) h;
      reads = tt;
      awake = awake-away w;
    }
after_read-Inv {kills} copyout killed addr n p w (waits, q) v h (same, none_held, open_end, calm) =
    record {
      valid = subst IsValid (sym same) v;
      writes = subst (λ x. WriterInv x w) (sym same) h;
      reads =
          subst (λ x. ReaderInv kills x (Reader.asleep n)) (sym same)
            (quiet kills none_held, open_end);
      awake = empty-awake p n w h none_held;
    }

pub Step-Inv : {kills : Bool} {s t : System} → Step kills s t → Inv kills s → Inv kills t
unfolding close_write close_read
Step-Inv {s} (call_write n e) inv = record {
  valid = inv.valid;
  writes = omega arith;
  reads = inv.reads;
  awake = tt;
}
Step-Inv {s} (call_read n e) inv = record {
  valid = inv.valid;
  writes = inv.writes;
  reads = tt;
  awake = awake-ready s.writer n;
}
Step-Inv {s} (run_write copyin killed addr n i e calm) inv =
    after_write-Inv s.reader _ calm inv.reads
      (pipewrite_lem copyin killed addr n i (subst (WriterInv s.pipe) e inv.writes) inv.valid)
Step-Inv {s} (run_read copyout killed addr n e) inv =
    after_read-Inv copyout killed addr n s.pipe s.writer _ inv.valid inv.writes
      (piperead_lem copyout addr n killed inv.valid)
Step-Inv {kills} {s} (writer_closes e) inv = record {
  valid = omega arith;
  writes = same_writes s.pipe s.writer inv.writes;
  reads = wake_reader-Inv kills (close_write s).pipe s.reader;
  awake = wake_reader-awake s.writer s.reader;
}
Step-Inv {kills} {s} (reader_closes e) inv = record {
  valid = omega arith;
  writes = wake_writer-Inv s.pipe (close_read s).pipe s.writer inv.writes;
  reads = still_away kills (close_read s).pipe s.reader e;
  awake = wake_writer-awake s.writer s.reader;
}
Step-Inv {s} kill_writer inv = record {
  valid = inv.valid;
  writes = wake_writer-Inv s.pipe s.pipe s.writer inv.writes;
  reads = inv.reads;
  awake = wake_writer-awake s.writer s.reader;
}
Step-Inv {kills} {s} kill_reader inv = record {
  valid = inv.valid;
  writes = inv.writes;
  reads = wake_reader-Inv kills s.pipe s.reader;
  awake = wake_reader-awake s.writer s.reader;
}

-- In every reachable state of a writer and a reader the pipe is valid, and nobody sleeps on what
-- has come: a writer that sleeps has bytes left, its pipe is full and its read end open; a reader
-- that sleeps has an open write end and, if no writer is found killed within a run of `pipewrite`,
-- an empty pipe; and the two never sleep at once.
pub sleepers_wait : {kills : Bool} {s : System} → Reach kills s → Inv kills s
sleepers_wait (start bs size) = record { valid = omega arith; writes = tt; reads = tt; awake = tt }
sleepers_wait (next r st) = Step-Inv st (sleepers_wait r)
