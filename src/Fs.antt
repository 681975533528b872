-- ===== src/Fs.antt =====
-- kernel/fs.c: block numbers, the map of used blocks, and the blocks of an inode. The disk is what
-- the buffer cache shows of it: each block by its bytes. `log_write` puts a changed block into the
-- log, as Log has it.
pub mod Bits
pub mod Bitmap
pub mod Balloc
pub mod Indirect
pub mod Bmap
mod Tests
pub mod Transfer
pub mod Contents
pub mod Overwrite
pub mod Write
pub mod Read
pub mod Roundtrip
pub mod Truncate
pub mod Free
pub mod WriteBlock
use Prim.Native.Nat.{bit_and, bit_or}
use xv.Panic.{Result, ok, panic, ◌>>=◌, ◌>>◌, panic_if}
use xv.Prelude.{
  ℕ, zero, suc, ◌+◌, ◌-◌, ◌*◌, ◌/◌, ◌%◌, ◌^◌, Bool, not, ◌&&◌, Option, none, some, ltb, ◌==◌,
  if◌then◌else◌, update, ◌≤◌, ◌<◌, ◌≡◌, refl, sym, ap, ◌∙◌, ◌≢◌, ◌↔◌, ◌⊎◌, inl, inr, true, false,
  ◌||◌, List, [], ◌∷◌, ◌++◌, map, arith, leb, Bool-cases, Option-cases, length, get_elem?, set,
  get_or, All, NotIn, Distinct,
}

-- `BSIZE`, `BPB`, `NDIRECT`, `NINDIRECT` and `MAXFILE`
abbrev pub bsize : ℕ
bsize = 1024

abbrev pub bpb : ℕ
bpb = 8192

abbrev pub ndirect : ℕ
ndirect = 12

abbrev pub nindirect : ℕ
nindirect = 256

abbrev pub maxfile : ℕ
maxfile = 268

abbrev pub Blocks : Type 0
Blocks = ℕ → ℕ → ℕ

-- The fields of `struct superblock` that the functions below use.
pub record Superblock : Type 0 where
  pub size : ℕ
  pub bmapstart : ℕ

-- The disk part of `struct inode`, as far as its blocks go.
pub record Inode : Type 0 where
  pub addrs : ℕ → ℕ
  pub size : ℕ

abbrev pub set_byte : Blocks → ℕ → ℕ → ℕ → Blocks
set_byte d b k v = update d b (update (d b) k v)

-- `((uint*)bp->data)[j]`
abbrev pub get_uint : Blocks → ℕ → ℕ → ℕ
get_uint d b j =
    d b (4 * j) + 256 * d b (4 * j + 1) + 65536 * d b (4 * j + 2) + 16777216 * d b (4 * j + 3)

abbrev pub put_uint : Blocks → ℕ → ℕ → ℕ → Blocks
put_uint d b j v = update d b (
    update
      (update (update (update (d b) (4 * j) (v % 256)) (4 * j + 1) (v / 256 % 256)) (4 * j + 2)
        (v / 65536 % 256))
      (4 * j + 3) (v / 16777216 % 256))

-- `BBLOCK(b, sb)`
abbrev pub bblock : Superblock → ℕ → ℕ
bblock sb b = b / bpb + sb.bmapstart

-- `memset(bp->data, 0, BSIZE)`
pub bzero : ℕ → Blocks → Blocks
bzero b d = update d b (λ k. if ltb k bsize then 0 else d b k)

-- The inner loop of `balloc` from `bi` on, for the block of the map that begins with bit `b`.
pub balloc_scan : ℕ → Superblock → ℕ → ℕ → Blocks → Option ℕ
balloc_scan zero sb b bi d = none
balloc_scan (suc rounds) sb b bi d =
    let rest = balloc_scan rounds sb b (bi + 1) d in
    if not (ltb bi bpb && ltb (b + bi) sb.size)
    then none
    else if bit_and (d (bblock sb b) (bi / 8)) (2 ^ (bi % 8)) == 0
    then some bi
    else rest

-- `data[bi/8] |= m`
pub mark_used : Superblock → ℕ → ℕ → Blocks → Blocks
mark_used sb b bi d =
    set_byte d (bblock sb b) (bi / 8) (bit_or (d (bblock sb b) (bi / 8)) (2 ^ (bi % 8)))

-- The outer loop of `balloc` from `b` on: the block, or 0, and the disk.
pub balloc_loop : ℕ → Superblock → ℕ → Blocks → ℕ × Blocks
balloc_loop zero sb b d = (0, d)
balloc_loop (suc rounds) sb b d =
    let rest = balloc_loop rounds sb (b + bpb) d in
    let here : ℕ × Blocks = elim (balloc_scan bpb sb b 0 d) [
      | none ↦ rest
      | some bi ↦ (b + bi, bzero (b + bi) (mark_used sb b bi d))
    ] in
    if ltb b sb.size then here else (0, d)

-- `size / BPB + 1` rounds come to the end.
pub balloc : Superblock → Blocks → ℕ × Blocks
balloc sb d = balloc_loop (sb.size / bpb + 1) sb 0 d

pub bfree : Superblock → ℕ → Blocks → Result Blocks
bfree sb b d = do
  panic_if (bit_and (d (bblock sb b) (b % bpb / 8)) (2 ^ (b % bpb % 8)) == 0) "freeing free block"
  ok (
      set_byte d (bblock sb b) (b % bpb / 8)
        (bit_and (d (bblock sb b) (b % bpb / 8)) (255 - 2 ^ (b % bpb % 8))))

-- The part of `bmap` for the `bn`th word of the indirect block `addr`.
pub bmap_indirect : Superblock → ℕ → ℕ → Blocks → ℕ × Blocks
bmap_indirect sb addr bn d =
    if get_uint d addr bn == 0
    then (let (fresh, d') = balloc sb d in
        (fresh, if fresh == 0 then d' else put_uint d' addr bn fresh))
    else (get_uint d addr bn, d)

-- The block and the inode and disk after it; the block is 0 if the disk is full.
pub bmap : Superblock → Inode → ℕ → Blocks → Result (ℕ × Inode × Blocks)
bmap sb ip bn d =
    if ltb bn ndirect
    then (if ip.addrs bn == 0
        then (let (addr, d') = balloc sb d in
            ok
              (addr, (if addr == 0 then ip else record ip { addrs = update ip.addrs bn addr }), d'))
        else ok (ip.addrs bn, ip, d))
    else if ltb (bn - ndirect) nindirect
    then (if ip.addrs ndirect == 0
        then (let (addr, d') = balloc sb d in
            if addr == 0
            then ok (0, ip, d')
            else (let (found, d'') = bmap_indirect sb addr (bn - ndirect) d' in
                ok (found, record ip { addrs = update ip.addrs ndirect addr }, d'')))
        else (let (found, d') = bmap_indirect sb (ip.addrs ndirect) (bn - ndirect) d in
            ok (found, ip, d')))
    else panic "bmap: out of range"

-- The loop of `itrunc` over the direct blocks, or over the words of a block, from `i` on.
pub free_each : Superblock → (Blocks → ℕ → ℕ) → ℕ → ℕ → Blocks → Result Blocks
free_each sb addr zero i d = ok d
free_each sb addr (suc left) i d = do
  d' ← (if addr d i == 0 then ok d else bfree sb (addr d i) d)
  free_each sb addr left (i + 1) d'

-- `itrunc(ip)`, but for `iupdate`
pub itrunc : Superblock → Inode → Blocks → Result (Inode × Blocks)
itrunc sb ip d = do
  d1 ← free_each sb (λ d' i. ip.addrs i) ndirect 0 d
  d2 ←
      (if ip.addrs ndirect == 0 then ok d1 else do
        d3 ← free_each sb (λ d' j. get_uint d' (ip.addrs ndirect) j) nindirect 0 d1
        bfree sb (ip.addrs ndirect) d3)
  ok (record { addrs = λ i. if ltb i (ndirect + 1) then 0 else ip.addrs i; size = 0 }, d2)
