-- ===== src/Sleeplock.antt =====
-- kernel/sleeplock.c: locks that put a waiting process to sleep. The spinlock inside makes each
-- function one step.
use xv.Prelude.{ℕ, Bool, true, false, ◌&&◌, Option, none, some, ◌==◌, if◌then◌else◌, ◌≡◌, refl}

pub record Sleeplock : Type 0 where
  pub locked : Bool
  pub pid : ℕ

-- What `initsleeplock` leaves.
abbrev pub initsleeplock : Sleeplock
initsleeplock = record { locked = false; pid = 0 }

-- One round of the loop of `acquiresleep` by the process `pid`: `none` where it sleeps.
unfoldable pub acquiresleep : ℕ → Sleeplock → Option Sleeplock
acquiresleep pid lk = if lk.locked then none else some (record { locked = true; pid = pid })

unfoldable pub releasesleep : Sleeplock → Sleeplock
releasesleep lk = record { locked = false; pid = 0 }

unfoldable pub holdingsleep : ℕ → Sleeplock → Bool
holdingsleep pid lk = lk.locked && lk.pid == pid

pub acquiresleep-busy : (pid : ℕ) (lk : Sleeplock) → lk.locked ≡ true → acquiresleep pid lk ≡ none
unfolding acquiresleep
acquiresleep-busy pid lk busy = rw busy refl

pub acquiresleep-idle :
    (pid : ℕ) (lk : Sleeplock)
    → lk.locked ≡ false
    → acquiresleep pid lk ≡ some (record { locked = true; pid = pid })
unfolding acquiresleep
acquiresleep-idle pid lk idle = rw idle refl
