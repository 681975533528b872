-- ===== src/Log/Transaction/Tests.antt =====
-- The log's counters at work on concrete inputs.
use xv.Prelude.{
  ℕ, ◌⊎◌, ◌++◌, ◌∷◌, some, length, get_elem?, NotIn, ◌<◌, ◌≡◌, refl, true, false, [], arith,
}
use xv.Log.Transaction.Reservation.{
  Reach, next, three_ops, start, log_too_small, begins, log_write_fits,
}
use xv.Log.Transaction.{begin_op, Log, log_write}
use xv.Panic.{panic, ok}

one_op : Reach 31 (record {
  log = record { size = 31; outstanding = 1; committing = false; lh = [] };
  reserved = 10;
})
unfolding begin_op
one_op = next start (begins refl)

abbrev one_log : Log
one_log = record { size = 31; outstanding = 1; committing = false; lh = [] }

log_write_fits_example :
    (((i : ℕ) × (i < length one_log.lh) × (get_elem? one_log.lh i ≡ some 45))
      × (log_write one_log 45 ≡ ok (one_log, false)))
    ⊎ (NotIn 45 one_log.lh
        × (log_write one_log 45 ≡ ok (record one_log { lh = one_log.lh ++ (45 ∷ []) }, true)))
log_write_fits_example = log_write_fits 45 one_op (omega arith) (omega arith)

log_too_small_example :
    Reach 30 (three_ops 30 29)
    × (0 < (three_ops 30 29).reserved)
    × (log_write (three_ops 30 29).log 99 ≡ panic "too big a transaction")
log_too_small_example = log_too_small 30 99 (omega arith) (omega arith)
