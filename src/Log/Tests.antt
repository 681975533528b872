-- ===== src/Log/Tests.antt =====
-- The log at work on concrete disks.
use xv.Prelude.{ℕ, ◌≡◌, refl, ◌⊎◌, inr, ◌||◌, [], ◌∷◌, arith, ◌==◌, if◌then◌else◌}
use xv.Log.Recovery.{reboot, reboots, IsLog, disk_of, Recovered, recover_after_crashes}
use xv.Log.{take_blocks, commit}
use xv.Log.Machine.{Machine, Disk, done}
use xv.Log.Commit.{Ready, commit_completes, commit_atomic}
use mathlib.Core.Path.{fun_ext}
use xv.Log.Header.{head_blocks}
use xv.Log.Install.{OutLog, logical}

-- A log of 31 blocks from block 2 on, whose header counts the blocks 100 and 102.
abbrev logged_disk : Disk
logged_disk b k = if b == 2 then (if k == 0 then 2 else if k == 1 then 100 else 102) else b

logged_disk-IsLog : IsLog 2 31 logged_disk
unfolding take_blocks
logged_disk-IsLog =
    ((inr (omega arith), (inr (omega arith), tt)), ((omega arith, tt), (tt, tt)), omega arith)

recover_after_crashes_example :
    let e = reboot 2 40 (reboots 2 (1 ∷ 0 ∷ 2 ∷ []) logged_disk) in
    (head_blocks (e 2) ≡ []) × ((b : ℕ) → OutLog 2 31 b → e b ≡ logical 2 logged_disk b)
recover_after_crashes_example =
    recover_after_crashes 2 31 (1 ∷ 0 ∷ 2 ∷ []) 40 logged_disk logged_disk-IsLog (omega arith)

-- Blocks 100 and 102 are written and not yet on the disk.
abbrev two_written : ℕ → Machine
two_written power = record {
  disk = λ b k. 0;
  cached = λ b k. if b == 100 then 7 else if b == 102 then 8 else 0;
  pins = λ b. if b == 100 || b == 102 then 1 else 0;
  power = power;
}

two_written-Ready : (power : ℕ) → Ready 2 31 (100 ∷ 102 ∷ []) (two_written power)
unfolding take_blocks
two_written-Ready power = record {
  erased_log = refl;
  is_log =
      ((inr (omega arith), (inr (omega arith), tt)), ((omega arith, tt), (tt, tt)), omega arith);
  coherent = λ b n. fun_ext λ k. ground arith;
}

commit_atomic_example :
    let e =
      reboot 2 40 (reboots 2 (1 ∷ []) (disk_of (commit 2 (100 ∷ 102 ∷ []) (two_written 4)))) in
    (head_blocks (e 2) ≡ [])
    × (((b : ℕ) → OutLog 2 31 b → e b ≡ (two_written 4).disk b)
        ⊎ ((b : ℕ) → OutLog 2 31 b → e b ≡ (two_written 4).cached b))
commit_atomic_example =
    commit_atomic (100 ∷ 102 ∷ []) (two_written 4) (1 ∷ []) 40 (two_written-Ready 4) (omega arith)

commit_completes_example :
    (m' : Machine) × (commit 2 (100 ∷ 102 ∷ []) (two_written 6) ≡ done [] m')
    × Recovered 2 31 (two_written 6).cached m'
commit_completes_example =
    commit_completes (100 ∷ 102 ∷ []) (two_written 6) (two_written-Ready 6) (omega arith)
