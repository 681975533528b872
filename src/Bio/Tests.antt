-- ===== src/Bio/Tests.antt =====
-- The buffer cache on concrete requests.
use xv.Prelude.{
  ℕ, ◌+◌, ◌-◌, ◌%◌, ◌<◌, ◌≡◌, refl, ◌≢◌, ◌⊎◌, true, false, none, some, List, [], ◌∷◌, ◌++◌, arith,
  ◌==◌, if◌then◌else◌, update,
}
use xv.Panic.{Result, ok, panic, ◌>>=◌}
use xv.Sleeplock.{initsleeplock, holdingsleep}
use xv.Bio.{
  Bcache, nbuf, is_block, is_unused, bget, bpin, recycle, lock_buf, bread, binit, brelse, uint,
  head,
}
use xv.Bio.Search.{find, reverse}
use xv.Bio.Fields.{HasCount, IsGiven}
use xv.Bio.Lru.{IsCache, bget_lem, brelse_lem, Absent}
use xv.Bio.Steps.{System, Reach, Step, Inv}
use xv.Bio.Users.{counts_and_blocks, reference_keeps_block, Reach-Inv}
use xv.Bio.Read.{bread_lem}

abbrev no_data : Bcache
no_data = record {
  buf = λ b. record {
    valid = false;
    dev = 0;
    blockno = 0;
    lock = initsleeplock;
    refcnt = 0;
    bytes = λ k. 0;
  };
  next = λ b. 0;
  prev = λ b. 0;
}

-- a disk that is its blocks
abbrev disk_read : (ℕ → ℕ → ℕ) → ℕ → ℕ → ℕ
disk_read disk = disk

abbrev disk_write : (ℕ → ℕ → ℕ) → ℕ → (ℕ → ℕ) → ℕ → ℕ → ℕ
disk_write disk = update disk

abbrev booted : System
booted = record { cache = binit no_data; refs = λ b. 0 }

booted-Reach : Reach disk_read disk_write booted
booted-Reach = Reach.start no_data (λ b. (refl, refl))

-- Blocks 7 and 9 of device 1 are read and released, and then 7 is read again.
two_blocks : Result (List ℕ)
unfolding bread brelse binit
two_blocks = do
  let c0 = binit no_data
  (b1, c1) ← bget 1 7 c0
  (b2, c2) ← bget 1 9 c1
  (b3, c3) ← bget 1 7 c2
  ok (b1 ∷ b2 ∷ b3 ∷ (c3.buf b1).refcnt ∷ (c3.buf b2).refcnt ∷ [])

two_blocks_runs : two_blocks ≡ ok (0 ∷ 1 ∷ 0 ∷ 2 ∷ 1 ∷ [])
unfolding two_blocks
two_blocks_runs = refl

abbrev booted_Inv : Inv booted
booted_Inv = Reach-Inv booted-Reach

-- The process 5 has block 7 of device 1.
abbrev one_given : Bcache
one_given = recycle 1 7 0 (binit no_data)

abbrev one_locked : Bcache
one_locked = record one_given {
  buf =
      update one_given.buf 0
        (record (one_given.buf 0) { lock = record { locked = true; pid = 5 } });
}

abbrev one_reader : System
one_reader = record { cache = one_locked; refs = update (λ b. 0) 0 1 }

one_given_runs : bget 1 7 (binit no_data) ≡ ok (0, one_given)
unfolding bget binit recycle
one_given_runs = refl

one_locked_runs : lock_buf 5 0 one_given ≡ some one_locked
unfolding lock_buf recycle binit
one_locked_runs = refl

one_reader-Reach : Reach disk_read disk_write one_reader
one_reader-Reach =
    Reach.next (Reach.next booted-Reach (Step.gets 1 7 (omega arith) one_given_runs (omega arith)))
      (Step.locks 5 0 one_locked_runs)

abbrev reader_Inv : Inv one_reader
reader_Inv = Reach-Inv one_reader-Reach

counts_and_blocks_example :
    ((b : ℕ) → (one_locked.buf b).refcnt ≡ one_reader.refs b)
    × ((i j : ℕ)
        → i < nbuf
        → j < nbuf
        → (one_locked.buf i).dev ≢ 0
        → (one_locked.buf i).dev ≡ (one_locked.buf j).dev
        → (one_locked.buf i).blockno ≡ (one_locked.buf j).blockno
        → i ≡ j)
counts_and_blocks_example = counts_and_blocks one_reader one_reader-Reach

reference_keeps_block_example :
    (((bpin 0 one_locked).buf 0).dev ≡ (one_locked.buf 0).dev)
    × (((bpin 0 one_locked).buf 0).blockno ≡ (one_locked.buf 0).blockno)
reference_keeps_block_example =
    reference_keeps_block one_reader
      (record {
        cache = bpin 0 one_locked;
        refs = update one_reader.refs 0 (one_reader.refs 0 + 1);
      })
      0 one_reader-Reach (Step.pins 0 (omega arith) (omega arith)) (omega arith)

bget_lem_example :
    ((b : ℕ) × (b < nbuf)
      × (is_block 1 7 one_locked b ≡ true)
      × (bget 1 7 one_locked ≡ ok (b, bpin b one_locked))
      × IsCache (bpin b one_locked) reader_Inv.order
      × HasCount b
          (((one_locked.buf b).refcnt + 1) % uint)
          (one_locked.buf b).lock
          one_locked
          (bpin b one_locked))
    ⊎ (Absent 1 7 one_locked
        × (((b : ℕ) × (b < nbuf)
              × (find (is_unused one_locked) (reverse reader_Inv.order) ≡ some b)
              × (bget 1 7 one_locked ≡ ok (b, recycle 1 7 b one_locked))
              × IsCache (recycle 1 7 b one_locked) reader_Inv.order
              × IsGiven 1 7 b one_locked (recycle 1 7 b one_locked))
            ⊎ (((b : ℕ) → b < nbuf → is_unused one_locked b ≡ false)
                × (bget 1 7 one_locked ≡ panic "bget: no buffers"))))
bget_lem_example = bget_lem 1 7 one_locked reader_Inv.order reader_Inv.is_cache (omega arith)

brelse_lem_example :
    (xs : List ℕ) × (ys : List ℕ) × (reader_Inv.order ≡ xs ++ 0 ∷ ys)
    × (((holdingsleep 5 (one_locked.buf 0).lock ≡ false) × (brelse 5 0 one_locked ≡ panic "brelse"))
        ⊎ ((holdingsleep 5 (one_locked.buf 0).lock ≡ true)
            × ((d : Bcache) × (brelse 5 0 one_locked ≡ ok d)
                × HasCount 0
                    (((one_locked.buf 0).refcnt + (uint - 1)) % uint)
                    (record { locked = false; pid = 0 })
                    one_locked
                    d
                × IsCache d (if (d.buf 0).refcnt == 0 then 0 ∷ xs ++ ys else xs ++ 0 ∷ ys))))
brelse_lem_example = brelse_lem 5 0 one_locked reader_Inv.order reader_Inv.is_cache (omega arith)

bread_lem_example :
    (((one_given.buf 0).lock.locked ≡ true)
      × (bread disk_read disk_write 5 1 7 (λ n k. n + k) (binit no_data) ≡ ok none))
    ⊎ (((one_given.buf 0).lock.locked ≡ false)
        × ((d : Bcache) × (bread disk_read disk_write 5 1 7 (λ n k. n + k) (binit no_data)
              ≡ ok (some (0, d)))
            × ((d.buf 0).dev ≡ 1)
            × ((d.buf 0).blockno ≡ 7)
            × ((d.buf 0).valid ≡ true)
            × ((d.buf 0).lock.locked ≡ true)
            × ((d.buf 0).lock.pid ≡ 5)
            × (((d.buf 0).bytes ≡ (λ k. 7 + k))
                ⊎ ((is_block 1 7 (binit no_data) 0 ≡ true)
                    × (((binit no_data).buf 0).valid ≡ true)
                    × ((d.buf 0).bytes ≡ ((binit no_data).buf 0).bytes)))))
bread_lem_example =
    bread_lem disk_read disk_write (λ n k. n + k) 5 1 7 0 (binit no_data) one_given booted_Inv.order
      booted_Inv.is_cache (omega arith) one_given_runs

-- The process 5 releases the buffer, which is then the most recently used, and another may not.
released : Result (ℕ × ℕ × ℕ)
unfolding brelse
released = do c ← brelse 5 0 one_locked; ok (c.next head, (c.buf 0).refcnt, (c.buf 0).blockno)

released_runs : released ≡ ok (0, 0, 7)
unfolding released recycle binit
released_runs = refl

not_the_holder : brelse 6 0 one_locked ≡ panic "brelse"
unfolding brelse recycle binit
not_the_holder = refl
