-- ===== src/Bio/Read.antt =====
-- `bread`: the buffer that a process gets, and what it holds.
use xv.Prelude.{
  ℕ, ◌≡◌, refl, sym, ap, ◌∙◌, ◌≢◌, ◌⊎◌, inl, inr, true, false, none, some, List, arith, ◌==◌,
  if◌then◌else◌, Bool-cases, update,
}
use mathlib.Core.Path.{subst}
use xv.Panic.{ok, panic, ok_inj}
use xv.Sleeplock.{Sleeplock, acquiresleep, acquiresleep-busy, acquiresleep-idle}
use xv.Bio.{Bcache, Buf, is_block, bget, bpin, recycle, lock_buf, fill, bread}
use xv.Bio.Lru.{IsCache, bget_lem}

-- The buffer of the block, as `bget` leaves it: new, or from before with its bytes.
bget-Buf :
    (dev blockno b : ℕ) (c c1 : Bcache) (order : List ℕ)
    → IsCache c order
    → dev ≢ 0
    → bget dev blockno c ≡ ok (b, c1)
    → ((c1.buf b).dev ≡ dev)
      × ((c1.buf b).blockno ≡ blockno)
      × (((c1.buf b).valid ≡ false)
          ⊎ ((is_block dev blockno c b ≡ true)
              × ((c.buf b).valid ≡ true)
              × ((c1.buf b).valid ≡ true)
              × ((c1.buf b).bytes ≡ (c.buf b).bytes)))
unfolding bpin recycle is_block
bget-Buf dev blockno b c c1 order v nz e = elim (bget_lem dev blockno c order v nz) [
  | inl (b', lt, is, e', w, pinned) ↦
      let eq = ok_inj (sym e' ∙ e) in
      let goal : ℕ × Bcache → Type 0 = λ x.
        ((x.1.buf x.0).dev ≡ dev)
        × ((x.1.buf x.0).blockno ≡ blockno)
        × (((x.1.buf x.0).valid ≡ false)
            ⊎ ((is_block dev blockno c x.0 ≡ true)
                × ((c.buf x.0).valid ≡ true)
                × ((x.1.buf x.0).valid ≡ true)
                × ((x.1.buf x.0).bytes ≡ (c.buf x.0).bytes))) in
      let self : (b' == b') ≡ true = ground arith in
      subst goal eq (
        rw self (ground arith),
        rw self (ground arith),
        elim (Bool-cases (c.buf b').valid) [
          | inl valid ↦ inr (is, valid, rw self valid, rw self refl)
          | inr stale ↦ inl (rw self stale)
        ],
      )
  | inr (absent, inl (b', lt, found, e', w, given)) ↦
      let eq = ok_inj (sym e' ∙ e) in
      let self : (b' == b') ≡ true = ground arith in
      let goal : ℕ × Bcache → Type 0 = λ x.
        ((x.1.buf x.0).dev ≡ dev)
        × ((x.1.buf x.0).blockno ≡ blockno)
        × (((x.1.buf x.0).valid ≡ false)
            ⊎ ((is_block dev blockno c x.0 ≡ true)
                × ((c.buf x.0).valid ≡ true)
                × ((x.1.buf x.0).valid ≡ true)
                × ((x.1.buf x.0).bytes ≡ (c.buf x.0).bytes))) in
      subst goal eq (rw self refl, rw self refl, inl (rw self refl))
  | inr (absent, inr (full, e')) ↦ (let bad : panic _ ≡ ok (b, c1) = sym e' ∙ e in cc)
]

fill_lem :
    {Disk : Type 0} (disk_read : Disk → ℕ → ℕ → ℕ) (disk_write : Disk → ℕ → (ℕ → ℕ) → Disk)
    (disk : Disk) (b : ℕ) (c : Bcache) (old d : Buf)
    → c.buf b ≡ old
    → (fill disk_read disk_write b disk c).buf b ≡ d
    → (d.dev ≡ old.dev)
      × (d.blockno ≡ old.blockno)
      × (d.lock ≡ old.lock)
      × (d.valid ≡ true)
      × (d.bytes ≡ (if old.valid then old.bytes else disk_read disk old.blockno))
unfolding fill
fill_lem disk_read disk_write disk b c old d eo ed =
    let self : (b == b) ≡ true = ground arith in
    elim (Bool-cases (c.buf b).valid) [
      | inl valid ↦
          let eq : c.buf b ≡ d = rw (fill, valid) at ed in
          rw (← eq, ← eo) (refl, refl, refl, valid, rw valid refl)
      | inr stale ↦
          let eq : (if b == b
                then record (c.buf b) { bytes = disk_read disk (c.buf b).blockno; valid = true }
                else c.buf b)
              ≡ d =
            rw (fill, stale) at ed in
          let eq' : record (c.buf b) { bytes = disk_read disk (c.buf b).blockno; valid = true }
              ≡ d =
            rw self at eq in
          rw (← eq', ← eo) (refl, refl, refl, refl, rw stale refl)
    ]

-- On a well-formed cache, once `bget` has given the buffer `b` for a block of a device other than 0: while
-- another process holds the buffer's lock, `bread` sleeps. If the lock is free, `bread` returns the
-- buffer, locked by the process, valid and of that block, and its bytes are those of the disk, unless
-- the block was in the cache and valid before, when they are the bytes that the cache had.
pub bread_lem :
    {Disk : Type 0} (disk_read : Disk → ℕ → ℕ → ℕ) (disk_write : Disk → ℕ → (ℕ → ℕ) → Disk)
    (disk : Disk) (pid dev blockno b : ℕ) (c c1 : Bcache) (order : List ℕ)
    → IsCache c order
    → dev ≢ 0
    → bget dev blockno c ≡ ok (b, c1)
    → (((c1.buf b).lock.locked ≡ true)
        × (bread disk_read disk_write pid dev blockno disk c ≡ ok none))
      ⊎ (((c1.buf b).lock.locked ≡ false)
          × ((d : Bcache) × (bread disk_read disk_write pid dev blockno disk c ≡ ok (some (b, d)))
              × ((d.buf b).dev ≡ dev)
              × ((d.buf b).blockno ≡ blockno)
              × ((d.buf b).valid ≡ true)
              × ((d.buf b).lock.locked ≡ true)
              × ((d.buf b).lock.pid ≡ pid)
              × (((d.buf b).bytes ≡ disk_read disk blockno)
                  ⊎ ((is_block dev blockno c b ≡ true)
                      × ((c.buf b).valid ≡ true)
                      × ((d.buf b).bytes ≡ (c.buf b).bytes)))))
unfolding bread lock_buf
bread_lem disk_read disk_write disk pid dev blockno b c c1 order v nz e =
    let (same_dev, same_block, was) = bget-Buf dev blockno b c c1 order v nz e in
    elim (Bool-cases (c1.buf b).lock.locked) [
      | inl busy ↦
          let wait : acquiresleep pid (c1.buf b).lock ≡ none =
            acquiresleep-busy pid (c1.buf b).lock busy in
          inl (busy, rw (bread, e, lock_buf, wait) refl)
      | inr idle ↦
          let got = acquiresleep-idle pid (c1.buf b).lock idle in
          let lk : Sleeplock = record { locked = true; pid = pid } in
          let taken : Bcache = record c1 {
            buf = update c1.buf b (record (c1.buf b) { lock = lk });
          } in
          let self : (b == b) ≡ true = ground arith in
          let (fd, fb, fl, fv, fy) =
            fill_lem disk_read disk_write disk b taken (record (c1.buf b) { lock = lk })
              ((fill disk_read disk_write b disk taken).buf b) (rw self refl) refl in
          inr (
            idle,
            (
              fill disk_read disk_write b disk taken,
              rw (bread, e, lock_buf, got) refl,
              fd ∙ same_dev,
              fb ∙ same_block,
              fv,
              ap (λ x. x.locked) fl,
              ap (λ x. x.pid) fl,
              elim was [
                | inl stale ↦ inl (fy ∙ rw (stale, same_block) refl)
                | inr (is, valid, still, bytes) ↦ inr (is, valid, fy ∙ rw still bytes)
              ],
            ),
          )
    ]
