-- ===== src/Log/Recovery.antt =====
-- `recover_from_log` after any number of power failures, some of them within recovery itself.
use xv.Prelude.{
  ℕ, ◌+◌, ◌≤◌, ◌<◌, ◌≡◌, refl, sym, ap, ◌∙◌, ◌≢◌, Bool, true, List, [], ◌∷◌, arith, length, update,
  All, NotIn, Distinct, All-map,
}
use xv.Log.{recover_from_log, write_head, read_head, install_trans}
use xv.Log.Machine.{
  Block, Disk, Machine, Run, done, crash, Ends, ends, crashes, bind, mono, and_then, write_last,
}
use xv.Log.Header.{head_blocks, header, head_blocks-header}
use xv.Log.Install.{
  OutLog, replay, logical, Logged, replay-Logged, Logged-same, Installing, Partial, install-Ends,
}
use mathlib.Core.Path.{subst}

-- What the block numbers in a log must be like: they lie outside the log, none stands there twice,
-- and the log has room for them.
abbrev pub IsLogList : ℕ → ℕ → List ℕ → Type 0
IsLogList start size bs = All (OutLog start size) bs × Distinct bs × (length bs < size)

abbrev pub IsLog : ℕ → ℕ → Disk → Type 0
IsLog start size d = IsLogList start size (head_blocks (d start))

-- Two disks stand for the same file system.
abbrev pub SameFiles : ℕ → ℕ → Disk → (ℕ → Block) → Type 0
SameFiles start size d new = (b : ℕ) → OutLog start size b → logical start d b ≡ new b

Logged-agree :
    (start : ℕ) (d : Disk) (new new' : ℕ → Block) (tail : ℕ) (bs : List ℕ)
    → All (λ c. new c ≡ new' c) bs
    → Logged start d new tail bs
    → Logged start d new' tail bs
Logged-agree start d new new' tail [] same l = tt
Logged-agree start d new new' tail (c ∷ cs) same l =
    (l.0 ∙ same.0, Logged-agree start d new new' (tail + 1) cs same.1 l.1)

-- A log without repetition logs what it stands for.
Logged-replay :
    (start : ℕ) (d : Disk) (tail : ℕ) (bs : List ℕ)
    → Distinct bs
    → Logged start d (replay start d tail bs) tail bs
Logged-replay start d tail [] h = tt
Logged-replay start d tail (c ∷ cs) h = (
  ground arith,
  Logged-agree start d (replay start d (tail + 1) cs) _ (tail + 1) cs
      (All-map (λ x. x ≢ c) _ cs (λ x ne. ground arith) h.0)
      (Logged-replay start d (tail + 1) cs h.1),
)

replay-NotIn :
    (start : ℕ) (d : Disk) (tail : ℕ) (bs : List ℕ) (b : ℕ)
    → NotIn b bs
    → replay start d tail bs b ≡ d b
replay-NotIn start d tail [] b n = refl
replay-NotIn start d tail (c ∷ cs) b n = ground (arith, replay-NotIn start d (tail + 1) cs b n.1)

-- While the log stays as it is, a partial copy stands for the same files.
Partial-logical :
    {start size : ℕ} {log d : Disk} {new : ℕ → Block} {all : List ℕ}
    → 0 < size
    → head_blocks (log start) ≡ all
    → length all < size
    → Logged start log new 0 all
    → Partial start size log new all d
    → SameFiles start size d new
Partial-logical {start} {size} {log} {d} {new} {all} pos e room l p b o =
    let same : head_blocks (d start) ≡ all = ap head_blocks (p.log_same start (omega arith)) ∙ e in
    rw same (
      replay-Logged start new d 0 all b
        (Logged-same start new log d size 0 all (omega arith)
          (λ c above below. p.log_same c (omega arith)) l)
        (p.settled b o))

module _ {start size : ℕ} where
  -- An erased log stands for the home blocks.
  pub erased :
      {d : Disk} (h : Block) {new : ℕ → Block}
      → 0 < size
      → ((b : ℕ) → OutLog start size b → d b ≡ new b)
      → (head_blocks (update d start (header [] h) start) ≡ [])
        × ((b : ℕ) → OutLog start size b → update d start (header [] h) b ≡ new b)
  erased {d} h pos same = (
    (let e : update d start (header [] h) start ≡ header [] h = ground arith in
        ap head_blocks e ∙ head_blocks-header [] h),
    λ b o. ground (arith, same b o),
  )

-- What recovery leaves on a disk that stood for `new`.
pub record Recovered (start size : ℕ) (new : ℕ → Block) (m : Machine) : Type 0 where
  pub log_empty : head_blocks (m.disk start) ≡ []
  pub files : (b : ℕ) → OutLog start size b → m.disk b ≡ new b
  pub coherent : (b : ℕ) → m.cached b ≡ m.disk b

module _ {start size : ℕ} {log : Disk} {new : ℕ → Block} {all : List ℕ}
    (head : head_blocks (log start) ≡ all) (is_log : IsLogList start size all)
    (logged : Logged start log new 0 all) where
  Partial-IsLog :
      {d : Disk}
      → Partial start size log new all d
      → SameFiles start size d new × IsLog start size d
  Partial-IsLog {d} p = (
    Partial-logical (omega arith) head is_log.2 logged p,
    (let same : head_blocks (d start) ≡ all =
          ap head_blocks (p.log_same start (omega arith)) ∙ head in
        subst (IsLogList start size) (sym same) is_log),
  )

  -- The copy to the home blocks, and the erasure of the log.
  pub install_erase-Ends :
      (recovering : Bool) (m : Machine)
      → Installing start size log new all m
      → Ends
          (λ d. SameFiles start size d new × IsLog start size d × (m.power < length all + 1))
          (λ _ m'. Recovered start size new m')
          (and_then (install_trans start recovering 0 all m) λ _. write_head start [])
  unfolding write_head
  install_erase-Ends recovering m v =
      bind
        (mono (install-Ends all recovering 0 all m v is_log.0 (omega arith) logged (λ b n. n))
          (λ d h. let q = Partial-IsLog h.0 in (q.0, q.1, omega arith)) (λ _ m' h. h))
        λ _ m' h.
          write_last start _ m'
            (λ z.
              let p : Partial start size log new all m'.disk = record {
                log_same = h.0.log_same;
                settled = λ b o n. h.0.settled b o tt;
              } in
              let q = Partial-IsLog p in (q.0, q.1, omega arith))
            (λ z.
              let e = erased (m'.cached start) (omega arith) (λ b o. h.0.settled b o tt) in
              record {
                log_empty = e.0;
                files = e.1;
                coherent = λ b. ground (arith, h.0.coherent b tt);
              })

-- The machine after a boot: nothing is cached that is not on the disk.
abbrev pub boot : ℕ → Disk → Machine
boot power d = record { disk = d; cached = d; pins = λ _. 0; power = power }

abbrev pub disk_of : {A : Type 0} → Run A → Disk
disk_of (done a m) = m.disk
disk_of (crash d) = d

-- The disk after a boot that has power for so many writes, and after a row of such boots.
pub reboot : ℕ → ℕ → Disk → Disk
reboot start power d = disk_of (recover_from_log start (boot power d))

pub reboots : ℕ → List ℕ → Disk → Disk
reboots start [] d = d
reboots start (power ∷ ps) d = reboots start ps (reboot start power d)

module _ (start size : ℕ) where
  recover-Ends :
      (power : ℕ) (d : Disk)
      → IsLog start size d
      → Ends
          (λ e.
            SameFiles start size e (logical start d)
            × IsLog start size e
            × (power < length (head_blocks (d start)) + 1))
          (λ _ m. Recovered start size (logical start d) m)
          (recover_from_log start (boot power d))
  unfolding recover_from_log read_head
  recover-Ends power d is_log =
      install_erase-Ends refl is_log (Logged-replay start d 0 (head_blocks (d start)) is_log.1) true
        (boot power d)
        (record {
          log_same = λ b i. refl;
          coherent = λ b n. refl;
          settled = λ b o n. sym (replay-NotIn start d 0 _ b n);
        })

  pub Recovered-keeps :
      {new : ℕ → Block} {m : Machine}
      → 0 < size
      → Recovered start size new m
      → SameFiles start size m.disk new × IsLog start size m.disk
  Recovered-keeps {new} {m} pos r = (
    (λ b o. ap (λ bs. replay start m.disk 0 bs b) r.log_empty ∙ r.files b o),
    subst (IsLogList start size) (sym r.log_empty) (tt, tt, pos),
  )

  reboot-keeps :
      (power : ℕ) (d : Disk)
      → IsLog start size d
      → SameFiles start size (reboot start power d) (logical start d)
        × IsLog start size (reboot start power d)
  unfolding reboot
  reboot-keeps power d is_log = go (recover-Ends power d is_log)
    where
      go :
          {r : Run (Unit {0})}
          → Ends
              (λ e.
                SameFiles start size e (logical start d)
                × IsLog start size e
                × (power < length (head_blocks (d start)) + 1))
              (λ _ m. Recovered start size (logical start d) m)
              r
          → SameFiles start size (disk_of r) (logical start d) × IsLog start size (disk_of r)
      go (ends r) = Recovered-keeps (omega arith) r
      go (crashes c) = (c.0, c.1)

  reboots-keeps :
      (ps : List ℕ) (d : Disk)
      → IsLog start size d
      → SameFiles start size (reboots start ps d) (logical start d)
        × IsLog start size (reboots start ps d)
  unfolding reboots
  reboots-keeps [] d is_log = ((λ b o. refl), is_log)
  reboots-keeps (power ∷ ps) d is_log =
      let one = reboot-keeps power d is_log in
      let rest = reboots-keeps ps (reboot start power d) one.1 in
      ((λ b o. rest.0 b o ∙ one.0 b o), rest.1)

  reboot-finishes :
      (power : ℕ) (d : Disk)
      → IsLog start size d
      → size ≤ power
      → (head_blocks (reboot start power d start) ≡ [])
        × ((b : ℕ) → OutLog start size b → reboot start power d b ≡ logical start d b)
  unfolding reboot
  reboot-finishes power d is_log enough = go (recover-Ends power d is_log)
    where
      go :
          {r : Run (Unit {0})}
          → Ends
              (λ e.
                SameFiles start size e (logical start d)
                × IsLog start size e
                × (power < length (head_blocks (d start)) + 1))
              (λ _ m. Recovered start size (logical start d) m)
              r
          → (head_blocks (disk_of r start) ≡ [])
            × ((b : ℕ) → OutLog start size b → disk_of r b ≡ logical start d b)
      go (ends r) = (r.log_empty, r.files)
      go (crashes c) = absurd (omega arith)

  -- Let the block numbers in the disk's log header be distinct, outside the log's blocks and fewer than
  -- `size`, which is what `IsLog` says. After any row of boots `ps`, each of which may lose power at
  -- any write of its recovery, a boot with power for `size` writes ends with an erased log, and
  -- every block outside the log holds what the disk stood for before the first of those boots: the
  -- logged contents of a block that the header names, and its own of any other.
  pub recover_after_crashes :
      (ps : List ℕ) (power : ℕ) (d : Disk)
      → IsLog start size d
      → size ≤ power
      → let e = reboot start power (reboots start ps d) in
        (head_blocks (e start) ≡ []) × ((b : ℕ) → OutLog start size b → e b ≡ logical start d b)
  recover_after_crashes ps power d is_log enough =
      let kept = reboots-keeps ps d is_log in
      let last = reboot-finishes power (reboots start ps d) kept.1 enough in
      (last.0, λ b o. last.1 b o ∙ kept.0 b o)
