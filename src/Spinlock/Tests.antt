-- ===== src/Spinlock/Tests.antt =====
-- Two nested pairs of calls.
use xv.Prelude.{◌≡◌, refl, inl, true, false, [], ◌∷◌}
use xv.Spinlock.{Cpu}
use xv.Spinlock.Nesting.{run_calls, push, pop, Restored, nested_restores, around, empty}
use xv.Panic.{ok}

abbrev idle_cpu : Cpu
idle_cpu = record { noff = 0; intena = false; intr = true }

nested_restores_example :
    (c : Cpu) × (run_calls (push ∷ push ∷ pop ∷ pop ∷ []) idle_cpu ≡ ok c) × Restored idle_cpu c
nested_restores_example =
    nested_restores (push ∷ push ∷ pop ∷ pop ∷ []) idle_cpu
      (around {xs = push ∷ pop ∷ []} {ys = []} (around {xs = []} {ys = []} empty empty) empty)
      (inl refl)
