-- ===== src/Log/Transaction/Reservation.antt =====
-- The log never fills up within a transaction, if it has a block for each that may be reserved.
use xv.Log.Transaction.{Log, begun, begin_op, end_op, end_commit, log_write, contains}
use xv.Prelude.{
  ℕ, ◌≡◌, false, length, ◌+◌, [], ◌≤◌, Bool, ◌<◌, ◌*◌, true, ◌-◌, arith, refl, length-append, ◌∷◌,
  List, suc, zero, ◌≢◌, ◌++◌, Bool-cases, inl, inr, ◌⊎◌, some, get_elem?, NotIn, ◌==◌,
}
use xv.Log.{maxopblocks, logsize}
use xv.Panic.{ok, panic}
use mathlib.Core.Path.{subst}

-- The log, and how many more blocks the operations in progress may write, all told.
pub record System : Type 0 where
  pub log : Log
  pub reserved : ℕ

-- An operation may write `maxopblocks` blocks. When one ends, no more is reserved than for the rest.
pub data Step (s : System) : System → Type 0 where
  begins :
      {l : Log}
      → begin_op s.log ≡ begun l
      → Step s (record { log = l; reserved = s.reserved + maxopblocks })
  writes :
      {l : Log} {pin : Bool} (b : ℕ)
      → 0 < s.reserved
      → log_write s.log b ≡ ok (l, pin)
      → Step s (record { log = l; reserved = s.reserved - 1 })
  finishes :
      {l : Log} {do_commit : Bool} (left : ℕ)
      → 0 < s.log.outstanding
      → left ≤ s.reserved
      → left ≤ l.outstanding * maxopblocks
      → end_op s.log ≡ ok (l, do_commit)
      → Step s (record { log = l; reserved = left })
  committed : s.log.committing ≡ true → Step s (record s { log = end_commit s.log })

abbrev initial : ℕ → System
initial size = record {
  log = record { size = size; outstanding = 0; committing = false; lh = [] };
  reserved = 0;
}

pub data Reach (size : ℕ) : System → Type 0 where
  start : Reach size (initial size)
  next : {s t : System} → Reach size s → Step s t → Reach size t

-- Nothing is in progress during a commit; every block that may still be written has its place.
pub record Inv (size : ℕ) (s : System) : Type 0 where
  pub same_size : s.log.size ≡ size
  pub room : length s.log.lh + s.reserved ≤ logsize
  pub bounded : s.reserved ≤ s.log.outstanding * maxopblocks
  pub quiet : s.log.committing ≡ true → s.log.outstanding ≡ 0

Step-Inv : {size : ℕ} {s t : System} → Step s t → Inv size s → Inv size t
unfolding begin_op log_write end_op end_commit
Step-Inv {s} (begins e) v = ground (arith, v.quiet)
Step-Inv {s} (writes b some_left e) v = ground (arith, v.quiet, length-append s.log.lh (b ∷ []))
Step-Inv {s} (finishes left busy h k e) v = ground (arith, v.quiet)
Step-Inv (committed e) v = ground (arith, v.quiet)

Reach-Inv : {size : ℕ} {s : System} → Reach size s → Inv size s
Reach-Inv start = record {
  same_size = refl;
  room = omega arith;
  bounded = omega arith;
  quiet = λ e. cc;
}
Reach-Inv (next r st) = Step-Inv st (Reach-Inv r)

contains-false : (xs : List ℕ) (b : ℕ) → contains xs b ≡ false → NotIn b xs
unfolding contains
contains-false [] b h = tt
contains-false (x ∷ xs) b h = (ground arith, contains-false xs b (ground arith))

contains-true :
    (xs : List ℕ) (b : ℕ)
    → contains xs b ≡ true
    → (i : ℕ) × (i < length xs) × (get_elem? xs i ≡ some b)
unfolding contains
contains-true [] b h = cc
contains-true (x ∷ xs) b h = elim (Bool-cases (x == b)) [
  | inl here ↦ (zero, omega arith, ground arith)
  | inr other ↦
      let (i, lt, at) = contains-true xs b (ground arith) in (suc i, omega (arith, lt), at)
]

-- If the log has more than `LOGSIZE` blocks, its header among them, then in every reachable state
-- in which a block is reserved `log_write` does not panic for any block. If one of the entries of
-- `log.lh` is the block, the log stays and no buffer is pinned; if none is, the block is put behind
-- the entries, the rest of the log stays, and its buffer is pinned.
pub log_write_fits :
    {size : ℕ} {s : System} (b : ℕ)
    → Reach size s
    → logsize < size
    → 0 < s.reserved
    → (((i : ℕ) × (i < length s.log.lh) × (get_elem? s.log.lh i ≡ some b))
        × (log_write s.log b ≡ ok (s.log, false)))
      ⊎ (NotIn b s.log.lh
          × (log_write s.log b ≡ ok (record s.log { lh = s.log.lh ++ (b ∷ []) }, true)))
unfolding log_write
log_write_fits {s} b r big some_left =
    let v = Reach-Inv r in
    let few : length s.log.lh < logsize = omega (arith, v) in
    let room : length s.log.lh + 1 < s.log.size = omega (arith, v) in
    let busy : 0 < s.log.outstanding = omega (arith, v) in
    elim (Bool-cases (contains s.log.lh b)) [
      | inl old ↦ inl (contains-true s.log.lh b old, ground arith)
      | inr fresh ↦ inr (contains-false s.log.lh b fresh, ground arith)
    ]

-- The blocks 0 to `n - 1`.
abbrev upto : ℕ → List ℕ
upto zero = []
upto (suc n) = upto n ++ (n ∷ [])

length-upto : (n : ℕ) → length (upto n) ≡ n
length-upto zero = refl
length-upto (suc n) = omega (arith, length-append (upto n) (n ∷ []), length-upto n)

not-in_append :
    (xs : List ℕ) (a b : ℕ) → contains xs b ≡ false → a ≢ b → contains (xs ++ (a ∷ [])) b ≡ false
unfolding contains
not-in_append [] a b h ne = ground arith
not-in_append (x ∷ xs) a b h ne = ground (arith, not-in_append xs a b)

upto_fresh : (n b : ℕ) → n ≤ b → contains (upto n) b ≡ false
unfolding contains
upto_fresh zero b h = refl
upto_fresh (suc n) b h = not-in_append (upto n) n b (upto_fresh n b (omega arith)) (omega arith)

-- Three operations have begun and written the first `n` blocks.
abbrev pub three_ops : ℕ → ℕ → System
three_ops size n = record {
  log = record { size = size; outstanding = 3; committing = false; lh = upto n };
  reserved = 30 - n;
}

write_upto :
    (size n : ℕ)
    → suc n < size
    → suc n ≤ logsize
    → log_write (three_ops size n).log n ≡ ok ((three_ops size (suc n)).log, true)
unfolding log_write
write_upto size n h k = ground (arith, length-upto n, upto_fresh n n (omega arith))

three_ops-Reach : (size n : ℕ) → n < size → n ≤ logsize → Reach size (three_ops size n)
unfolding begin_op
three_ops-Reach size zero h k = next (next (next start (begins refl)) (begins refl)) (begins refl)
three_ops-Reach size (suc n) h k =
    let one_less : 30 - n - 1 ≡ 30 - suc n = omega arith in
    subst (λ (r : ℕ). Reach size (record { log = (three_ops size (suc n)).log; reserved = r }))
      one_less
      (next (three_ops-Reach size n (omega arith) (omega arith))
        (writes n (omega arith) (write_upto size n h k)))

-- A log of `size ≤ LOGSIZE` blocks, as `mkfs` makes it, is too small: three operations are let in at
-- once, and when `size - 1` blocks are written, within what is reserved, any `log_write` panics.
pub log_too_small :
    (size b : ℕ)
    → 1 < size
    → size ≤ logsize
    → Reach size (three_ops size (size - 1))
      × (0 < (three_ops size (size - 1)).reserved)
      × (log_write (three_ops size (size - 1)).log b ≡ panic "too big a transaction")
unfolding log_write
log_too_small size b h k = (
  three_ops-Reach size (size - 1) (omega arith) (omega arith),
  omega arith,
  ground (arith, length-upto (size - 1)),
)
