-- ===== src/Sched/Fcfs.antt =====
-- First come, first served.
use xv.Proc.{Proc, runnable, Table}
use xv.Sched.{fcfs_scan, fcfs}
use xv.Sched.Pick.{scan_by, IsOrder, scan_by-first}
use xv.Prelude.{
  ℕ, ◌+◌, ◌-◌, ◌≤◌, ◌<◌, ◌≡◌, refl, ◌∙◌, ◌⊎◌, Bool, Option, none, some, [], ◌∷◌, arith, ltb,
  get_elem?,
}

abbrev earlier : Proc → Proc → Bool
earlier p q = ltb p.tick_creation_time q.tick_creation_time

earlier-IsOrder : IsOrder earlier
earlier-IsOrder = record {
  irreflexive = λ a. ground arith;
  trans = λ a b c h k. ground arith;
  split = λ a b c h k. ground arith;
}

fcfs_scan-scan_by :
    (i : ℕ) (best : Option (ℕ × Proc)) (t : Table) → fcfs_scan i best t ≡ scan_by earlier i best t
unfolding fcfs_scan scan_by
fcfs_scan-scan_by i best [] = refl
fcfs_scan-scan_by i best (p ∷ ps) = fcfs_scan-scan_by (i + 1) _ ps

-- If entry `k` of the table is runnable, FCFS chooses an entry that is runnable, and it was created
-- before entry `k`, or in the same tick and its index is at most `k`.
pub fcfs_first :
    (t : Table) (k : ℕ) (p : Proc)
    → get_elem? t k ≡ some p
    → p.state ≡ runnable
    → (j : ℕ) × (q : Proc) × (fcfs t ≡ some (j, q))
      × (get_elem? t j ≡ some q)
      × (q.state ≡ runnable)
      × ((q.tick_creation_time < p.tick_creation_time)
          ⊎ (q.tick_creation_time ≡ p.tick_creation_time) × (j ≤ k))
unfolding fcfs
fcfs_first t k p at run =
    let (r, e, le, found, runs, before) = scan_by-first earlier earlier-IsOrder 0 t k p at run in
    let z : r.0 - 0 ≡ r.0 = omega arith in
    (r.0, r.1, fcfs_scan-scan_by 0 none t ∙ e, rw z at found, runs, ground arith)
