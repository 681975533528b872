-- ===== src/Bio/Users.antt =====
-- What holds in every state that the buffer cache and its users reach from `binit`.
use xv.Prelude.{ℕ, ◌<◌, ◌≡◌, refl, ◌≢◌, inl, inr, [], arith, Bool-cases, update}
use xv.Bio.{Bcache, head, nbuf, fill, binit}
use xv.Bio.Init.{binit_loop-Built}
use xv.Bio.Steps.{
  gets, locks, fills, releases, pins, unpins, start, next, System, Step, Reach, Inv, Kept, quiet,
  lock_buf-After, bpin-After, bunpin-After, gets-After, releases-After,
}

binit-Inv :
    (c : Bcache)
    → ((b : ℕ) → ((c.buf b).dev ≡ 0) × ((c.buf b).refcnt ≡ 0))
    → Inv (record { cache = binit c; refs = λ b. 0 })
unfolding binit
binit-Inv c zeros =
    let (order, v) =
      binit_loop-Built nbuf 0
        (record c { next = update c.next head head; prev = update c.prev head head }) [] refl
        (record {
          ring = record { linked = (ground arith, ground arith); distinct = tt; no_head = tt };
          size = refl;
          below = tt;
          complete = λ x lt. absurd (omega arith);
          unused = zeros;
        }) in
    record {
      order = order;
      is_cache = record {
        ring = record {
          linked = v.ring.linked;
          distinct = v.ring.distinct;
          no_head = v.ring.no_head;
        };
        size = omega (arith, v.size);
        are_bufs = v.below;
        complete = v.complete;
        unique = λ i j li lj nz e e'. absurd (nz (v.unused i).0);
      };
      counts = λ b. (v.unused b).1;
      bound = λ b. omega arith;
      are_bufs = λ b ne. absurd (ne refl);
    }

fill-After :
    {Disk : Type 0} (disk_read : Disk → ℕ → ℕ → ℕ) (disk_write : Disk → ℕ → (ℕ → ℕ) → Disk)
    (s : System) (b : ℕ) (disk : Disk)
    → Inv s
    → Inv (record s { cache = fill disk_read disk_write b disk s.cache })
      × Kept s (record s { cache = fill disk_read disk_write b disk s.cache })
unfolding fill
fill-After disk_read disk_write s b disk v = elim (Bool-cases (s.cache.buf b).valid) [
  | inl valid ↦ rw (fill, valid) (v, λ x ne. (refl, refl))
  | inr stale ↦
      rw (fill, stale) (quiet s _ refl refl (λ x. (ground arith, ground arith, ground arith)) v)
]

module _ {Disk : Type 0} {disk_read : Disk → ℕ → ℕ → ℕ}
    {disk_write : Disk → ℕ → (ℕ → ℕ) → Disk} where
  Step-After : {s t : System} → Step disk_read disk_write s t → Inv s → Inv t × Kept s t
  Step-After {s} (gets dev blockno nz e few) v = gets-After s dev blockno nz e few v
  Step-After {s} (locks pid b e) v = lock_buf-After s pid b e v
  Step-After {s} (fills b disk) v = fill-After disk_read disk_write s b disk v
  Step-After {s} (releases pid b held e) v = releases-After s pid b held e v
  Step-After {s} (pins b held few) v = bpin-After s b (v.are_bufs b held) few v
  Step-After {s} (unpins b held) v = bunpin-After s b held v

  pub Reach-Inv : {s : System} → Reach disk_read disk_write s → Inv s
  Reach-Inv (start c zeros) = binit-Inv c zeros
  Reach-Inv (next r step) = (Step-After step (Reach-Inv r)).0

  -- In every state that the cache and its users reach from `binit`, the count of each buffer is the number
  -- of references held, and no block of a device other than 0 has two buffers.
  pub counts_and_blocks :
      (s : System)
      → Reach disk_read disk_write s
      → ((b : ℕ) → (s.cache.buf b).refcnt ≡ s.refs b)
        × ((i j : ℕ)
            → i < nbuf
            → j < nbuf
            → (s.cache.buf i).dev ≢ 0
            → (s.cache.buf i).dev ≡ (s.cache.buf j).dev
            → (s.cache.buf i).blockno ≡ (s.cache.buf j).blockno
            → i ≡ j)
  counts_and_blocks s r = let v = Reach-Inv r in (v.counts, v.is_cache.unique)

  -- From every state that the cache and its users reach from `binit`, no step gives a buffer with a
  -- reference to another block.
  pub reference_keeps_block :
      (s t : System) (b : ℕ)
      → Reach disk_read disk_write s
      → Step disk_read disk_write s t
      → s.refs b ≢ 0
      → ((t.cache.buf b).dev ≡ (s.cache.buf b).dev)
        × ((t.cache.buf b).blockno ≡ (s.cache.buf b).blockno)
  reference_keeps_block s t b r step held = (Step-After step (Reach-Inv r)).1 b held
