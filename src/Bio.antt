-- ===== src/Bio.antt =====
-- kernel/bio.c: the buffer cache, with its list of buffers as the code links it. The section under
-- `bcache.lock` of each function is one step.
pub mod Ring
mod Search
mod Fields
mod Lru
mod Init
mod Steps
mod Users
mod Read
mod Tests
use xv.Prelude.{
  ℕ, zero, suc, ◌+◌, ◌-◌, ◌%◌, ◌&&◌, Bool, true, false, not, Option, none, some, ◌==◌,
  if◌then◌else◌, update,
}
use xv.Panic.{Result, ok, panic, ◌>>=◌, ◌>>◌, panic_if}
use xv.Sleeplock.{Sleeplock, initsleeplock, acquiresleep, releasesleep, holdingsleep}

abbrev pub nbuf : ℕ
nbuf = 30

-- `&bcache.head`, beside the buffers 0 to 29
abbrev pub head : ℕ
head = 30

-- `uint` arithmetic
abbrev pub uint : ℕ
uint = 4294967296

pub record Buf : Type 0 where
  pub valid : Bool
  pub dev : ℕ
  pub blockno : ℕ
  pub lock : Sleeplock
  pub refcnt : ℕ
  pub bytes : ℕ → ℕ

pub record Bcache : Type 0 where
  pub buf : ℕ → Buf
  pub next : ℕ → ℕ
  pub prev : ℕ → ℕ

-- `b->next = bcache.head.next; b->prev = &bcache.head; bcache.head.next->prev = b; bcache.head.next = b;`
pub push_front : ℕ → Bcache → Bcache
push_front b c =
    let next1 = update c.next b (c.next head) in
    let prev1 = update c.prev b head in
    record c { next = update next1 head b; prev = update prev1 (next1 head) b }

-- `b->next->prev = b->prev; b->prev->next = b->next;`
pub unlink : ℕ → Bcache → Bcache
unlink b c =
    let prev1 = update c.prev (c.next b) (c.prev b) in
    record c { prev = prev1; next = update c.next (prev1 b) (c.next b) }

-- The loop of `binit` from the buffer `b` on.
pub binit_loop : (left b : ℕ) → Bcache → Bcache
unfolding push_front
binit_loop zero b c = c
binit_loop (suc left) b c =
    let linked = push_front b c in
    binit_loop left (b + 1)
      (record linked { buf = update linked.buf b (record (linked.buf b) { lock = initsleeplock }) })

-- The static data is all zero before.
pub binit : Bcache → Bcache
unfolding binit_loop
binit c =
    binit_loop nbuf 0 (record c { next = update c.next head head; prev = update c.prev head head })

-- `for(b = ...; b != &bcache.head; b = b->next) if(test(b)) ...`, and the same along `prev`. The fuel
-- `nbuf + 1` reaches the head.
pub search : ℕ → (ℕ → Bool) → (ℕ → ℕ) → ℕ → Option ℕ
search zero test link b = none
search (suc fuel) test link b =
    let rest = search fuel test link (link b) in
    if b == head then none else if test b then some b else rest

pub is_block : (dev blockno : ℕ) → Bcache → ℕ → Bool
is_block dev blockno c b = (c.buf b).dev == dev && (c.buf b).blockno == blockno

pub is_unused : Bcache → ℕ → Bool
is_unused c b = (c.buf b).refcnt == 0

-- `b->refcnt++`, which is also `bpin`
pub bpin : ℕ → Bcache → Bcache
bpin b c = record c {
  buf = update c.buf b (record (c.buf b) { refcnt = ((c.buf b).refcnt + 1) % uint });
}

-- `b->refcnt--`
pub bunpin : ℕ → Bcache → Bcache
bunpin b c = record c {
  buf = update c.buf b (record (c.buf b) { refcnt = ((c.buf b).refcnt + (uint - 1)) % uint });
}

pub recycle : (dev blockno b : ℕ) → Bcache → Bcache
recycle dev blockno b c = record c {
  buf =
      update c.buf b (record (c.buf b) { dev = dev; blockno = blockno; valid = false; refcnt = 1 });
}

-- `bget` up to the `release` of `bcache.lock`. The `acquiresleep` of the buffer follows.
pub bget : (dev blockno : ℕ) → Bcache → Result (ℕ × Bcache)
unfolding search is_block is_unused bpin recycle
bget dev blockno c = elim (search (nbuf + 1) (is_block dev blockno c) c.next (c.next head)) [
  | some b ↦ ok (b, bpin b c)
  | none ↦ elim (search (nbuf + 1) (is_unused c) c.prev (c.prev head)) [
    | some b ↦ ok (b, recycle dev blockno b c)
    | none ↦ panic "bget: no buffers"
  ]
]

-- `acquiresleep(&b->lock)` by the process `pid`: `none` where it sleeps.
pub lock_buf : (pid b : ℕ) → Bcache → Option Bcache
unfolding acquiresleep
lock_buf pid b c = elim (acquiresleep pid (c.buf b).lock) [
  | none ↦ none
  | some lk ↦ some (record c { buf = update c.buf b (record (c.buf b) { lock = lk }) })
]

-- `releasesleep(&b->lock)` and `b->refcnt--`
pub give_up : ℕ → Bcache → Bcache
unfolding releasesleep
give_up b c = record c {
  buf = update c.buf b (record (c.buf b) {
    lock = releasesleep (c.buf b).lock;
    refcnt = ((c.buf b).refcnt + (uint - 1)) % uint;
  });
}

-- `brelse` by the process `pid`.
pub brelse : (pid b : ℕ) → Bcache → Result Bcache
unfolding holdingsleep give_up push_front unlink is_unused
brelse pid b c = do
  panic_if (not (holdingsleep pid (c.buf b).lock)) "brelse"
  (let c1 = give_up b c in if is_unused c1 b then ok (push_front b (unlink b c1)) else ok c1)

-- The disk, as `virtio_disk_rw` shows it: the bytes of each block, whatever the `dev` of the buffer.
module _ {Disk : Type 0} (disk_read : Disk → ℕ → ℕ → ℕ)
    (disk_write : Disk → ℕ → (ℕ → ℕ) → Disk) where
  -- The rest of `bread` once the process holds the buffer's lock.
  pub fill : ℕ → Disk → Bcache → Bcache
  fill b disk c = if (c.buf b).valid then c else record c {
    buf =
        update c.buf b
          (record (c.buf b) { bytes = disk_read disk (c.buf b).blockno; valid = true });
  }

  -- `bread` of a process that does not have to wait for the buffer's lock; `none` where it sleeps.
  pub bread : (pid dev blockno : ℕ) → Disk → Bcache → Result (Option (ℕ × Bcache))
  unfolding bget lock_buf fill
  bread pid dev blockno disk c = do
    (b, c1) ← bget dev blockno c
    ok (elim (lock_buf pid b c1) [ none ↦ none | some c2 ↦ some (b, fill b disk c2) ])

  pub bwrite : (pid b : ℕ) → Disk → Bcache → Result Disk
  unfolding holdingsleep
  bwrite pid b disk c = do
    panic_if (not (holdingsleep pid (c.buf b).lock)) "bwrite"
    ok (disk_write disk (c.buf b).blockno (c.buf b).bytes)
