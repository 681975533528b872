-- ===== src/Log/Transaction.antt =====
-- `begin_op`, `end_op` and `log_write` of kernel/log.c: who may write how much into the log. Each
-- part between two acquisitions of `log.lock` is one function.
pub mod Reservation
mod Tests
use xv.Prelude.{
  ℕ, ◌+◌, ◌-◌, ◌*◌, Bool, true, false, ◌||◌, List, [], ◌∷◌, ◌++◌, ◌==◌, ltb, leb, if◌then◌else◌,
  length,
}
use xv.Panic.{Result, ok, panic, ◌>>=◌, ◌>>◌, panic_if}
use xv.Log.{logsize, maxopblocks}

-- The fields of `struct log` that these functions use; `lh` is `lh.block[0]` to `lh.block[n - 1]`.
pub record Log : Type 0 where
  pub size : ℕ
  pub outstanding : ℕ
  pub committing : Bool
  pub lh : List ℕ

pub data Begin : Type 0 where
  sleeps : Begin
  begun : Log → Begin

-- One round of the loop of `begin_op`.
pub begin_op : Log → Begin
begin_op l =
    if l.committing
    then sleeps
    else if ltb logsize (length l.lh + (l.outstanding + 1) * maxopblocks)
    then sleeps
    else begun (record l { outstanding = l.outstanding + 1 })

-- `end_op` up to `commit`, with `do_commit`. `outstanding` is at least 1 here: an operation ends
-- once.
pub end_op : Log → Result (Log × Bool)
end_op l = do
  panic_if l.committing "log.committing"
  if l.outstanding == 1
      then ok (record l { outstanding = 0; committing = true }, true)
      else ok (record l { outstanding = l.outstanding - 1 }, false)

-- The rest of `end_op` once `commit` has returned with `log.lh.n` at 0.
pub end_commit : Log → Log
end_commit l = record l { committing = false; lh = [] }

-- The search of `log_write` for the block number.
pub contains : List ℕ → ℕ → Bool
contains [] b = false
contains (x ∷ xs) b = x == b || contains xs b

-- `log_write` of a buffer of block `b`. The Boolean says whether `bpin` is called.
pub log_write : Log → ℕ → Result (Log × Bool)
unfolding contains
log_write l b = do
  panic_if (leb logsize (length l.lh) || leb (l.size - 1) (length l.lh)) "too big a transaction"
  panic_if (ltb l.outstanding 1) "log_write outside of trans"
  if contains l.lh b then ok (l, false) else ok (record l { lh = l.lh ++ (b ∷ []) }, true)
