-- ===== src/Fs/Transfer.antt =====
-- kernel/fs.c: `writei` and `readi`, which move bytes between a file and a memory, one block at a time.
-- `user` is the memory the bytes come from. `copied a m` is how many of the `m` bytes at `a` the copy
-- from or to the memory moves before it meets a page that is not mapped; it fails if these are fewer.
use xv.Panic.{Result, ok, ◌>>=◌}
use xv.Prelude.{
  ℕ, zero, suc, ◌+◌, ◌-◌, ◌*◌, ◌/◌, ◌%◌, ◌^◌, Option, none, some, ◌&&◌, ◌||◌, not, ltb, leb, ◌==◌,
  if◌then◌else◌, update,
}
use xv.Fs.{Blocks, Superblock, Inode, bsize, maxfile, bmap}

-- `min(a, b)`
abbrev pub min : ℕ → ℕ → ℕ
min a b = if ltb a b then a else b

-- The disk and the inode after some rounds, with the bytes moved and the offset reached.
pub record Transfer : Type 0 where
  pub tot : ℕ
  pub off : ℕ
  pub ip : Inode
  pub disk : Blocks

-- Bytes `[lo, lo + m)` of a memory come from `from`, which is numbered from 0.
abbrev pub paste : (ℕ → ℕ) → ℕ → ℕ → (ℕ → ℕ) → ℕ → ℕ
paste mem lo m from k = if leb lo k && ltb k (lo + m) then from (k - lo) else mem k

module _ (user : ℕ → ℕ) (copied : ℕ → ℕ → ℕ) (sb : Superblock) where
  -- `either_copyin(bp->data + at, user_src, src, m)`
  abbrev pub copy_in : Blocks → ℕ → ℕ → ℕ → ℕ → Blocks
  copy_in d b at src m = update d b (paste (d b) at (min m (copied src m)) (λ i. user (src + i)))

  -- The loop of `writei`.
  unfoldable pub writei_loop : ℕ → Inode → Blocks → ℕ → ℕ → ℕ → ℕ → Result Transfer
  writei_loop zero ip d src off tot n = ok (record { tot = tot; off = off; ip = ip; disk = d })
  writei_loop (suc rounds) ip d src off tot n =
      if not (ltb tot n) then ok (record { tot = tot; off = off; ip = ip; disk = d }) else do
        (addr, ip', d') ← bmap sb ip (off / bsize) d
        (if addr == 0
            then ok (record { tot = tot; off = off; ip = ip'; disk = d' })
            else let m = min (n - tot) (bsize - off % bsize) in
              let d'' = copy_in d' addr (off % bsize) src m in
              if ltb (copied src m) m
              then ok (record { tot = tot; off = off; ip = ip'; disk = d'' })
              else writei_loop rounds ip' d'' (src + m) (off + m) (tot + m) n)

  -- `writei`, but for `iupdate`: the bytes written, or none for -1. `n / BSIZE + 2` rounds come to
  -- the end.
  unfoldable pub writei : Inode → Blocks → ℕ → ℕ → ℕ → Result (Option ℕ × Inode × Blocks)
  writei ip d src off n =
      if ltb ip.size off
        || ltb ((off + n) % 2 ^ 32) off
        || ltb (maxfile * bsize) ((off + n) % 2 ^ 32)
      then ok (none, ip, d)
      else do
        t ← writei_loop (n / bsize + 2) ip d src off 0 n
        ok (some t.tot, (if ltb ip.size t.off then record t.ip { size = t.off } else t.ip), t.disk)

module _ (copied : ℕ → ℕ → ℕ) (sb : Superblock) where
  -- `either_copyout(user_dst, dst, bp->data + at, m)`
  abbrev pub copy_out : (ℕ → ℕ) → ℕ → Blocks → ℕ → ℕ → ℕ → ℕ → ℕ
  copy_out mem dst d b at m = paste mem dst (min m (copied dst m)) (λ i. d b (at + i))

  -- The loop of `readi`: the bytes read, none for -1, the inode, the disk and the memory.
  unfoldable pub readi_loop :
      ℕ → Inode → Blocks → (ℕ → ℕ) → ℕ → ℕ → ℕ → ℕ → Result (Option ℕ × Inode × Blocks × (ℕ → ℕ))
  readi_loop zero ip d mem dst off tot n = ok (some tot, ip, d, mem)
  readi_loop (suc rounds) ip d mem dst off tot n =
      if not (ltb tot n) then ok (some tot, ip, d, mem) else do
        (addr, ip', d') ← bmap sb ip (off / bsize) d
        (if addr == 0
            then ok (some tot, ip', d', mem)
            else let m = min (n - tot) (bsize - off % bsize) in
              let mem' = copy_out mem dst d' addr (off % bsize) m in
              if ltb (copied dst m) m
              then ok (none, ip', d', mem')
              else readi_loop rounds ip' d' mem' (dst + m) (off + m) (tot + m) n)

  -- `readi`
  unfoldable pub readi :
      Inode → Blocks → (ℕ → ℕ) → ℕ → ℕ → ℕ → Result (Option ℕ × Inode × Blocks × (ℕ → ℕ))
  readi ip d mem dst off n =
      if ltb ip.size off || ltb ((off + n) % 2 ^ 32) off
      then ok (some 0, ip, d, mem)
      else (let left = if ltb ip.size ((off + n) % 2 ^ 32) then ip.size - off else n in
          readi_loop (left / bsize + 2) ip d mem dst off 0 left)
