-- ===== src/Sched/Tests.antt =====
-- The scheduling policies at work on concrete tables.
use xv.Prelude.{◌+◌, ◌≡◌, refl, inl, false, none, some, [], ◌∷◌, ◌++◌, arith, get_elem?}
use xv.Panic.{ok, panic}
use xv.Proc.{Proc, Table, runnable, running, sleeping}
use xv.Sched.{Choice, dynamic_priority, pbs, pbs_resume}
use xv.Proc.Tests.{entry}
use xv.Prelude.Int.{pos, ltb_ℤ}
use xv.Sched.Pbs.{dp_of, AllApart, pbs_first}
use xv.Sched.Tie.{IsTie, tie_loses_lock}

-- Two sleeping processes and two runnable ones, the second one with a lower priority set.
abbrev important : Proc
important = record (entry 4 runnable (some 1) 5) { priority_pbs = pos 20 }

abbrev apart : Table
apart = entry 1 sleeping none 0 ∷ entry 2 runnable (some 0) 9 ∷ important ∷ []

apart-AllApart : AllApart apart
unfolding dynamic_priority
apart-AllApart = ground arith

pbs_first_example :
    (c : Choice) × (pbs apart ≡ ok (some c))
    × (get_elem? apart c.index ≡ some c.proc)
    × (c.proc.state ≡ runnable)
    × (dynamic_priority c.proc ≡ some c.min)
    × (ltb_ℤ (dp_of (dynamic_priority (entry 2 runnable (some 0) 9))) c.min ≡ false)
    × (pbs_resume c
        ≡ ok (record c.proc { state = running; last_run_time = 0; last_sleep_time = 0 }))
pbs_first_example =
    pbs_first apart 1 (entry 2 runnable (some 0) 9) (inl refl, (inl refl, (inl refl, tt)))
      apart-AllApart refl refl

-- `init` in the first entry, and the shell's child behind it in an entry that was used before.
abbrev young : Proc
young = entry 5 runnable (some 0) 9

abbrev old : Proc
old = entry 3 runnable (some 0) 5

same_priority : IsTie young old (pos 60)
unfolding dynamic_priority
same_priority = record {
  runs_q = refl;
  runs_p = refl;
  dp_q = refl;
  dp_p = refl;
  times = refl;
  older = omega arith;
}

important_priority : dynamic_priority important ≡ some (pos 20)
unfolding dynamic_priority
important_priority = refl

tie_loses_lock_example :
    ((c : Choice) × (pbs ((entry 1 sleeping none 0 ∷ []) ++ young ∷ ([] ++ old ∷ [])) ≡ ok (some c))
      × (c.index ≡ 1 + 1 + 0)
      × (c.proc ≡ old)
      × (pbs_resume c ≡ panic "release"))
    × (pbs ((entry 1 sleeping none 0 ∷ []) ++ young ∷ ([] ++ old ∷ ([] ++ important ∷ [])))
        ≡ panic "release")
tie_loses_lock_example =
    tie_loses_lock (entry 1 sleeping none 0 ∷ []) [] [] [] young old important (pos 60) (pos 20)
      (λ e. cc, tt) tt tt same_priority refl important_priority refl
