-- ===== src/Log/Commit.antt =====
-- `commit` with a power failure at any write, and the recovery that follows.
use xv.Log.{write_log, write_head, install_trans, commit}
use xv.Prelude.{
  ℕ, List, All, ◌<◌, ◌≡◌, ◌+◌, [], length, NotIn, arith, refl, ◌∷◌, update, ◌∙◌, ap, sym, ◌⊎◌, inl,
  false, inr, ◌*◌, ◌≤◌, ltb, suc, true,
}
use xv.Log.Machine.{
  Block, Machine, written, Ends, ends, write_rule, mono, Disk, and_then, pure, regroup, bind, Run,
  done, crashes,
}
use xv.Log.Install.{OutLog, Logged, replay, Logged-same}
use xv.Log.Header.{head_blocks, header, head_blocks-header}
use xv.Log.Recovery.{
  IsLogList, IsLog, Recovered, SameFiles, install_erase-Ends, reboot, disk_of, reboots,
  Recovered-keeps, recover_after_crashes,
}
use mathlib.Core.Path.{subst}

-- What `commit` starts from: an erased log on the disk, and blocks in `log.lh` whose new contents are
-- in the cache, all other blocks being cached as they are on the disk.
pub record Ready (start size : ℕ) (lh : List ℕ) (m : Machine) : Type 0 where
  pub erased_log : head_blocks (m.disk start) ≡ []
  pub is_log : IsLogList start size lh
  pub coherent : (b : ℕ) → NotIn b lh → m.cached b ≡ m.disk b

-- Before the round of `write_log` for log block `tail`: below it and outside the log nothing has been
-- written since `old`, and outside the log nothing is cached anew.
record Writing (start size : ℕ) (lh : List ℕ) (tail : ℕ) (old m : Machine) : Type 0 where
  below : (b : ℕ) → b < start + tail + 1 → m.disk b ≡ old.disk b
  home : (b : ℕ) → OutLog start size b → m.disk b ≡ old.disk b
  same_cache : (b : ℕ) → OutLog start size b → m.cached b ≡ old.cached b
  coherent : (b : ℕ) → NotIn b lh → m.cached b ≡ m.disk b

module _ {start size : ℕ} (new : ℕ → Block) (lh : List ℕ) (outs : All (OutLog start size) lh) where
  -- Both ends of a run of the loop, from the machine before it.
  write_log-Ends :
      (tail : ℕ) (bs : List ℕ) (m : Machine)
      → All (OutLog start size) bs
      → tail + length bs < size
      → All (λ b. m.cached b ≡ new b) bs
      → ((b : ℕ) → NotIn b lh → m.cached b ≡ m.disk b)
      → Ends
          (λ d.
            ((b : ℕ) → b < start + tail + 1 → d b ≡ m.disk b)
            × ((b : ℕ) → OutLog start size b → d b ≡ m.disk b)
            × (m.power < length bs))
          (λ _ m'.
            Writing start size lh tail m m'
            × Logged start m'.disk new tail bs
            × (m'.power + length bs ≡ m.power))
          (write_log start tail bs m)
  unfolding write_log
  write_log-Ends tail [] m out room fresh coherent = ends (
    record {
      below = λ b lt. refl;
      home = λ b o. refl;
      same_cache = λ b o. refl;
      coherent = coherent;
    },
    tt,
    omega arith,
  )
  write_log-Ends tail (c ∷ cs) m out room fresh coherent =
      write_rule _ at _ m (λ z. ((λ b lt. refl), (λ b o. refl), omega arith))
        λ z.
          mono
            (write_log-Ends (tail + 1) cs (written m at (m.cached c)) out.1 (omega arith)
              (All-zip cs out.1 fresh.1) (λ b n. ground (arith, coherent b n)))
            (λ d h. (
              (λ b lt. h.0 b (omega arith) ∙ ground arith),
              (λ b o. h.1 b o ∙ ground arith),
              omega arith,
            ))
            (λ _ m' h. (
              record {
                below = λ b lt. h.0.below b (omega arith) ∙ ground arith;
                home = λ b o. h.0.home b o ∙ ground arith;
                same_cache = λ b o. h.0.same_cache b o ∙ ground arith;
                coherent = h.0.coherent;
              },
              (h.0.below at (omega arith) ∙ ground (arith, fresh.0), h.1),
              omega arith,
            ))
    where
      at : ℕ
      at = start + tail + 1

      All-zip :
          (bs : List ℕ)
          → All (OutLog start size) bs
          → All (λ b. m.cached b ≡ new b) bs
          → All (λ b. update m.cached at (m.cached c) b ≡ new b) bs
      All-zip [] o f = tt
      All-zip (b ∷ bs) o f = (ground arith, All-zip bs o.1 f.1)

-- A disk with an intact log that stands for all the old contents or for all the new ones.
abbrev AllOrNothing : ℕ → ℕ → Disk → Disk → Disk → Type 0
AllOrNothing start size old new d =
    IsLog start size d × (SameFiles start size d old ⊎ SameFiles start size d new)

-- An erased log stands for the home blocks.
unlogged :
    {start size : ℕ} {d old : Disk} (new : Disk)
    → 0 < size
    → head_blocks (old start) ≡ []
    → d start ≡ old start
    → ((b : ℕ) → OutLog start size b → d b ≡ old b)
    → AllOrNothing start size old new d
unlogged {start} {size} {d} {old} new pos e head home =
    let no_log : head_blocks (d start) ≡ [] = ap head_blocks head ∙ e in
    (
      subst (IsLogList start size) (sym no_log) (tt, tt, pos),
      inl λ b o. ap (λ bs. replay start d 0 bs b) no_log ∙ home b o,
    )

fresh_cache : (m : Machine) (bs : List ℕ) → All (λ b. m.cached b ≡ m.cached b) bs
fresh_cache m [] = tt
fresh_cache m (b ∷ bs) = (refl, fresh_cache m bs)

module _ {start size : ℕ} where
  -- From the write of the header on.
  after_log-Ends :
      (lh : List ℕ) (m m' : Machine)
      → Ready start size lh m
      → Writing start size lh 0 m m' × Logged start m'.disk m.cached 0 lh
      → Ends {A = List ℕ}
          (λ d. AllOrNothing start size m.disk m.cached d × (m'.power < length lh + 2))
          (λ lh' m''. (lh' ≡ []) × Recovered start size m.cached m'')
          (and_then (write_head start lh m') λ _ n.
            and_then
              (install_trans start false 0 lh n)
              λ _ n'. and_then (write_head start [] n') λ _. pure [])
  unfolding write_head
  after_log-Ends lh m m' ready (w, logged) =
      write_rule _ start _ m'
        (λ z. (
          unlogged m.cached (omega (arith, ready.is_log.2)) ready.erased_log
              (w.below start (omega arith)) w.home,
          omega arith,
        ))
        λ z. regroup (install_trans start false 0 lh n) _ _ (
          bind
            (mono
              (install_erase-Ends {log = n.disk} {new = m.cached} head ready.is_log logged' false n
                (record {
                  log_same = λ b i. refl;
                  coherent = λ b k. ground (arith, w.coherent b k);
                  settled = λ b o k. ground (arith, w.home b o, ready.coherent b k);
                }))
              (λ d h. ((h.1, inr h.0), omega arith)) (λ _ k r. r))
            λ _ k r. ends (refl, r))
    where
      n : Machine
      n = written m' start (header lh (m'.cached start))

      head : head_blocks (n.disk start) ≡ lh
      head =
          let e : n.disk start ≡ header lh (m'.cached start) = ground arith in
          ap head_blocks e ∙ head_blocks-header lh (m'.cached start)

      logged' : Logged start n.disk m.cached 0 lh
      logged' =
          Logged-same start m.cached m'.disk n.disk size 0 lh (omega (arith, ready.is_log.2))
            (λ b above below. ground arith) logged

  commit-Ends :
      (lh : List ℕ) (m : Machine)
      → Ready start size lh m
      → Ends
          (λ d. AllOrNothing start size m.disk m.cached d × (m.power < 2 * length lh + 2))
          (λ lh' m'. (lh' ≡ []) × Recovered start size m.cached m')
          (commit start lh m)
  unfolding commit
  commit-Ends [] m ready = ends (
    refl,
    record {
      log_empty = ready.erased_log;
      files = λ b o. sym (ready.coherent b tt);
      coherent = λ b. ready.coherent b tt;
    },
  )
  commit-Ends (c ∷ cs) m ready =
      let some_blocks : ltb 0 (suc (length cs)) ≡ true = ground arith in
      rw some_blocks (
        bind
          (mono
            (write_log-Ends m.cached (c ∷ cs) ready.is_log.0 0 (c ∷ cs) m ready.is_log.0
              (omega (arith, ready.is_log.2)) (fresh_cache m (c ∷ cs)) ready.coherent)
            (λ d h. (
              unlogged m.cached (omega (arith, ready.is_log.2)) ready.erased_log
                  (h.0 start (omega arith)) h.1,
              omega arith,
            ))
            (λ _ m' h. h))
          λ _ m' h.
            mono (after_log-Ends (c ∷ cs) m m' ready (h.0, h.1)) (λ d k. (k.0, omega arith))
              (λ _ n k. k))

  Ends-disk :
      (lh : List ℕ) (m : Machine) {r : Run (List ℕ)}
      → 0 < size
      → Ends
          (λ d. AllOrNothing start size m.disk m.cached d × (m.power < 2 * length lh + 2))
          (λ lh' m'. (lh' ≡ []) × Recovered start size m.cached m')
          r
      → AllOrNothing start size m.disk m.cached (disk_of r)
  Ends-disk lh m pos (ends (e, r)) =
      let kept = Recovered-keeps start size pos r in (kept.1, inr kept.0)
  Ends-disk lh m pos (crashes c) = c.0

  -- A transaction is all or nothing. Let `commit` start as `Ready` says: with an erased log on the disk,
  -- the blocks of `lh` distinct, outside the log's blocks and fewer than `size`, and every block that
  -- is not in `lh` cached as it is on the disk; those of `lh` are cached with their new contents.
  -- Whatever write of `commit` loses power, if any, and whatever boots `ps` lose power in their
  -- recovery, a boot with power for `size` writes ends with an erased log, and then either every
  -- block outside the log has its old contents or every one has its new contents.
  pub commit_atomic :
      (lh : List ℕ) (m : Machine) (ps : List ℕ) (power : ℕ)
      → Ready start size lh m
      → size ≤ power
      → let e = reboot start power (reboots start ps (disk_of (commit start lh m))) in
        (head_blocks (e start) ≡ [])
        × (((b : ℕ) → OutLog start size b → e b ≡ m.disk b)
            ⊎ ((b : ℕ) → OutLog start size b → e b ≡ m.cached b))
  commit_atomic lh m ps power ready enough =
      let a = Ends-disk lh m (omega (arith, ready.is_log.2)) (commit-Ends lh m ready) in
      let r = recover_after_crashes start size ps power (disk_of (commit start lh m)) a.0 enough in
      (
        r.0,
        elim (a.1) [
          | inl old ↦ inl λ b o. r.1 b o ∙ old b o
          | inr fresh ↦ inr λ b o. r.1 b o ∙ fresh b o
        ],
      )

  -- Let `commit` start as `Ready` says: with an erased log on the disk, the blocks of `lh` distinct,
  -- outside the log's blocks and fewer than `size`, and every block that is not in `lh` cached as it
  -- is on the disk. With power for twice as many writes as `lh` has blocks, and two more, it returns
  -- with an empty `log.lh` and an erased log, every block outside the log is on the disk as it was in
  -- the cache, and the cache agrees with the disk.
  pub commit_completes :
      (lh : List ℕ) (m : Machine)
      → Ready start size lh m
      → 2 * length lh + 2 ≤ m.power
      → (m' : Machine) × (commit start lh m ≡ done [] m') × Recovered start size m.cached m'
  commit_completes lh m ready enough = go (commit start lh m) (commit-Ends lh m ready)
    where
      go :
          (r : Run (List ℕ))
          → Ends
              (λ d. AllOrNothing start size m.disk m.cached d × (m.power < 2 * length lh + 2))
              (λ lh' m'. (lh' ≡ []) × Recovered start size m.cached m')
              r
          → (m' : Machine) × (r ≡ done [] m') × Recovered start size m.cached m'
      go r (ends {m = m'} (e, rec)) = (m', ap (λ l. done l m') e, rec)
      go r (crashes c) = absurd (omega arith)
