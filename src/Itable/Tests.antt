-- ===== src/Itable/Tests.antt =====
-- The inode table on concrete calls.
use xv.Prelude.{
  ℕ, ◌-◌, ◌<◌, ◌≡◌, refl, ◌≢◌, ◌⊎◌, true, false, Option, none, some, arith, ◌==◌, if◌then◌else◌,
  update,
}
use xv.Panic.{Result, ok, panic, ◌>>=◌}
use xv.Sleeplock.{initsleeplock}
use xv.Itable.{
  Inode, Itable, Dinodes, ninode, new_dinode, is_inode, add_ref, recycle, iget, iput, ialloc,
}
use xv.Itable.Get.{IsTable, IsCounted, IsGiven, Missing, FirstEmpty, iget_lem}
use xv.Itable.Life.{iput_lem}

abbrev no_inode : Inode
no_inode = record {
  dev = 0;
  inum = 0;
  ref = 0;
  lock = initsleeplock;
  valid = false;
  copy = new_dinode 0;
}

-- One entry, of inode 7 of device 1, a file without links.
abbrev one_inode : Itable
one_inode =
    update (λ i. no_inode) 2
      (record no_inode { dev = 1; inum = 7; ref = 1; valid = true; copy = new_dinode 2 })

one_inode-IsTable : IsTable one_inode
one_inode-IsTable i j li lj ri rj ed ei = ground arith

iget_lem_example :
    ((i : ℕ) × (i < ninode)
      × (is_inode 1 9 one_inode i ≡ true)
      × (iget 1 9 one_inode ≡ ok (i, add_ref i one_inode))
      × IsTable (add_ref i one_inode)
      × IsCounted i one_inode (add_ref i one_inode))
    ⊎ (Missing 1 9 one_inode ninode
        × (((i : ℕ) × FirstEmpty one_inode ninode (some i)
              × (iget 1 9 one_inode ≡ ok (i, recycle 1 9 i one_inode))
              × IsTable (recycle 1 9 i one_inode)
              × IsGiven 1 9 i one_inode (recycle 1 9 i one_inode))
            ⊎ (((k : ℕ) → k < ninode → (one_inode k).ref ≢ 0)
                × (iget 1 9 one_inode ≡ panic "iget: no inodes"))))
iget_lem_example = iget_lem 1 9 one_inode one_inode-IsTable

abbrev all_files : Dinodes
all_files d n = new_dinode 2

iput_lem_example :
    ((((iput 2 one_inode all_files).0) 2).ref ≡ (one_inode 2).ref - 1)
    × ((k : ℕ) → k ≢ 2 → (iput 2 one_inode all_files).0 k ≡ one_inode k)
    × ((((one_inode 2).ref ≡ 1)
          × ((one_inode 2).valid ≡ true)
          × ((one_inode 2).copy.nlink ≡ 0)
          × (((iput 2 one_inode all_files).0 2).valid ≡ false)
          × (((iput 2 one_inode all_files).1 1 7).type ≡ 0)
          × (((iput 2 one_inode all_files).1 1 7).size ≡ 0)
          × ((d n : ℕ) → (d ≢ 1) ⊎ (n ≢ 7) → (iput 2 one_inode all_files).1 d n ≡ all_files d n))
        ⊎ ((((one_inode 2).ref ≢ 1)
              ⊎ (((one_inode 2).valid ≡ false) ⊎ ((one_inode 2).copy.nlink ≢ 0)))
            × ((iput 2 one_inode all_files).1 ≡ all_files)))
iput_lem_example = iput_lem 2 one_inode all_files

-- The lowest free number is 3: its inode is marked and gets the first empty entry.
allocated : Result (Option (ℕ × ℕ × ℕ))
unfolding ialloc
allocated = do
  r ← ialloc 10 1 1 one_inode (λ d n. new_dinode (if n == 3 then 0 else 2))
  ok (elim r [ none ↦ none | some (i, t, disk) ↦ some (i, (t i).inum, (disk 1 3).type) ])

allocated_runs : allocated ≡ ok (some (0, 3, 1))
unfolding allocated
allocated_runs = refl
