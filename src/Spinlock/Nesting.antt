-- ===== src/Spinlock/Nesting.antt =====
-- Nested calls of `push_off` and `pop_off`.
use xv.Panic.{Result, ok, panic, ◌>>=◌}
use xv.Prelude.{
  ◌-◌, ◌≡◌, refl, ◌∙◌, ◌⊎◌, inr, true, false, ◌&&◌, List, [], ◌∷◌, ◌++◌, arith, ◌==◌, if◌then◌else◌,
}
use xv.Spinlock.{push_off, Cpu, pop_off}

pub data Call : Type 0 where
  push : Call
  pop : Call

pub run_calls : List Call → Cpu → Result Cpu
run_calls [] c = ok c
run_calls (push ∷ cs) c = run_calls cs (push_off c)
run_calls (pop ∷ cs) c = pop_off c >>= run_calls cs

-- Every `push` has its `pop`.
pub data Nested : List Call → Type 0 where
  empty : Nested []
  around : {xs ys : List Call} → Nested xs → Nested ys → Nested (push ∷ (xs ++ (pop ∷ ys)))

-- Interrupts are off while any `push_off` is not undone.
abbrev pub IsValid : Cpu → Type 0
IsValid c = (c.noff ≡ 0) ⊎ (c.intr ≡ false)

pub record Restored (c c' : Cpu) : Type 0 where
  pub same_noff : c'.noff ≡ c.noff
  pub same_intr : c'.intr ≡ c.intr
  pub same_intena : (c.noff ≡ 0) ⊎ (c'.intena ≡ c.intena)

after_pop :
    (xs ys : List Call) (r : Result Cpu)
    → ((d : Cpu) → run_calls (xs ++ ys) d ≡ (run_calls xs d >>= run_calls ys))
    → (r >>= run_calls (xs ++ ys)) ≡ (r >>= run_calls xs >>= run_calls ys)
after_pop xs ys (ok d) h = h d
after_pop xs ys (panic e) h = refl

run_calls-append :
    (xs ys : List Call) (c : Cpu) → run_calls (xs ++ ys) c ≡ (run_calls xs c >>= run_calls ys)
unfolding run_calls
run_calls-append [] ys c = refl
run_calls-append (push ∷ xs) ys c = run_calls-append xs ys (push_off c)
run_calls-append (pop ∷ xs) ys c = after_pop xs ys (pop_off c) (λ d. run_calls-append xs ys d)

pop-push :
    (c d : Cpu)
    → IsValid c
    → Restored (push_off c) d
    → (c' : Cpu) × (pop_off d ≡ ok c') × Restored c c'
unfolding push_off pop_off
pop-push c d v r = (
  record d { noff = d.noff - 1; intr = if d.noff - 1 == 0 && d.intena then true else d.intr },
  ground (arith, r.same_noff, r.same_intr),
  record {
    same_noff = omega (arith, r.same_noff);
    same_intr = ground (arith, r.same_noff, r.same_intr, r.same_intena);
    same_intena = ground (arith, r.same_noff, r.same_intena);
  },
)

Restored-trans : (c d e : Cpu) → Restored c d → Restored d e → Restored c e
Restored-trans c d e r s = record {
  same_noff = s.same_noff ∙ r.same_noff;
  same_intr = s.same_intr ∙ r.same_intr;
  same_intena = ground (arith, r.same_noff, r.same_intena, s.same_intena);
}

-- Any nesting of `push_off` and `pop_off`, from a CPU that has interrupts off if some `push_off` is not
-- undone, does not panic and leaves the count and the interrupts as they were; so interrupts are on
-- again only when the outermost pair is closed, and only if they were on before it.
pub nested_restores :
    (cs : List Call) (c : Cpu)
    → Nested cs
    → IsValid c
    → (c' : Cpu) × (run_calls cs c ≡ ok c') × Restored c c'
unfolding run_calls
nested_restores _ c empty v =
    (c, refl, record { same_noff = refl; same_intr = refl; same_intena = inr refl })
nested_restores _ c (around {xs} {ys} inner rest) v =
    let (d, e1, r1) = nested_restores xs (push_off c) inner (unfold push_off in inr refl) in
    let (c1, e2, r2) = pop-push c d v r1 in
    let (c2, e3, r3) = nested_restores ys c1 rest (ground (arith, v, r2.same_noff, r2.same_intr)) in
    (c2, run_calls-append xs (pop ∷ ys) (push_off c) ∙ rw (e1, e2) e3, Restored-trans c c1 c2 r2 r3)
