-- ===== src/Itable.antt =====
-- kernel/fs.c: the table of inodes in memory, beside the inodes on disk. The section under `itable.lock` of
-- each function is one step, and a reference count does not overflow. The inodes on disk are an
-- array of records, so `iupdate` is a step on it: the place of a record among the bytes of the blocks
-- of `IBLOCK` is not modelled, and with it `ilock`.
mod Get
mod Life
mod Tests
use xv.Prelude.{
  ℕ, zero, suc, ◌+◌, ◌-◌, ◌&&◌, ◌||◌, Bool, true, false, not, Option, none, some, ltb, ◌==◌,
  if◌then◌else◌, update,
}
use xv.Panic.{Result, ok, panic, ◌>>=◌, ◌>>◌, panic_if}
use xv.Sleeplock.{Sleeplock, initsleeplock, acquiresleep, releasesleep, holdingsleep}

abbrev pub ninode : ℕ
ninode = 50

-- `struct dinode`, and the copy of it in `struct inode`
pub record Dinode : Type 0 where
  pub type : ℕ
  pub major : ℕ
  pub minor : ℕ
  pub nlink : ℕ
  pub size : ℕ
  pub addrs : ℕ → ℕ

pub record Inode : Type 0 where
  pub dev : ℕ
  pub inum : ℕ
  pub ref : ℕ
  pub lock : Sleeplock
  pub valid : Bool
  pub copy : Dinode

abbrev pub Itable : Type 0
Itable = ℕ → Inode

-- the inodes on disk, by device and number
abbrev pub Dinodes : Type 0
Dinodes = ℕ → ℕ → Dinode

-- `memset(dip, 0, sizeof(*dip)); dip->type = type;`
abbrev pub new_dinode : ℕ → Dinode
new_dinode type = record { type = type; major = 0; minor = 0; nlink = 0; size = 0; addrs = λ k. 0 }

-- `ip->ref > 0 && ip->dev == dev && ip->inum == inum`
pub is_inode : (dev inum : ℕ) → Itable → ℕ → Bool
is_inode dev inum t i = ltb 0 (t i).ref && ((t i).dev == dev && (t i).inum == inum)

-- What the loop of `iget` finds: the entry that has the inode, or else the first empty one.
pub data Scan : Type 0 where
  found : ℕ → Scan
  missing : Option ℕ → Scan

-- `if(empty == 0 && ip->ref == 0) empty = ip;`
pub remember : Option ℕ → ℕ → Itable → Option ℕ
remember none i t = if (t i).ref == 0 then some i else none
remember (some e) i t = some e

pub iget_loop : (left i dev inum : ℕ) → Option ℕ → Itable → Scan
unfolding is_inode remember
iget_loop zero i dev inum empty t = missing empty
iget_loop (suc left) i dev inum empty t =
    let next = remember empty i t in
    let rest = iget_loop left (i + 1) dev inum next t in
    if is_inode dev inum t i then found i else rest

pub add_ref : ℕ → Itable → Itable
add_ref i t = update t i (record (t i) { ref = (t i).ref + 1 })

pub recycle : (dev inum i : ℕ) → Itable → Itable
recycle dev inum i t = update t i (record (t i) { dev = dev; inum = inum; ref = 1; valid = false })

pub iget : (dev inum : ℕ) → Itable → Result (ℕ × Itable)
unfolding iget_loop add_ref recycle
iget dev inum t = elim (iget_loop ninode 0 dev inum none t) [
  | found i ↦ ok (i, add_ref i t)
  | missing none ↦ panic "iget: no inodes"
  | missing (some i) ↦ ok (i, recycle dev inum i t)
]

pub idup : ℕ → Itable → ℕ × Itable
unfolding add_ref
idup i t = (i, add_ref i t)

pub iupdate : ℕ → Itable → Dinodes → Dinodes
iupdate i t disk = update disk (t i).dev (update (disk (t i).dev) (t i).inum (t i).copy)

-- What `itrunc` leaves of the inode; its blocks are freed.
abbrev pub truncated : Dinode → Dinode
truncated d = record d { size = 0; addrs = λ k. 0 }

pub drop_ref : ℕ → Itable → Itable
drop_ref i t = update t i (record (t i) { ref = (t i).ref - 1 })

-- `itrunc(ip); ip->type = 0; iupdate(ip); ip->valid = 0;`, under a lock that nobody else holds
pub destroy : ℕ → Itable → Dinodes → Itable × Dinodes
unfolding iupdate
destroy i t disk =
    let t1 = update t i (record (t i) { copy = record (truncated (t i).copy) { type = 0 } }) in
    (update t1 i (record (t1 i) { valid = false }), iupdate i t1 disk)

pub iput : ℕ → Itable → Dinodes → Itable × Dinodes
unfolding destroy drop_ref
iput i t disk =
    if (t i).ref == 1 && ((t i).valid && (t i).copy.nlink == 0)
    then (let (t1, disk1) = destroy i t disk in (drop_ref i t1, disk1))
    else (drop_ref i t, disk)

-- The loop of `ialloc` from the number `inum` on; `none` where no inode is free.
ialloc_loop : (left inum dev type : ℕ) → Itable → Dinodes → Result (Option (ℕ × Itable × Dinodes))
unfolding iget
ialloc_loop zero inum dev type t disk = ok none
ialloc_loop (suc left) inum dev type t disk =
    let rest = ialloc_loop left (inum + 1) dev type t disk in
    if (disk dev inum).type == 0
    then (iget dev inum t >>= λ r.
        ok (some (r.0, r.1, update disk dev (update (disk dev) inum (new_dinode type)))))
    else rest

pub ialloc : (ninodes dev type : ℕ) → Itable → Dinodes → Result (Option (ℕ × Itable × Dinodes))
unfolding ialloc_loop
ialloc ninodes dev type t disk = ialloc_loop (ninodes - 1) 1 dev type t disk
