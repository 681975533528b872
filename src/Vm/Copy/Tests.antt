-- ===== src/Vm/Copy/Tests.antt =====
-- Copies to and from two pages of a user.
use xv.Prelude.{
  ℕ, ◌+◌, ◌*◌, ◌≤◌, ◌<◌, ◌≡◌, refl, inl, inr, arith, leb, ltb, ◌==◌, Bool-cases, if◌then◌else◌,
}
use mathlib.Core.Path.{subst}
use xv.Prelude.Int.{ℤ, pos, negsuc}
use xv.Panic.{ok, Result, ◌>>=◌}
use xv.Strings.{Memory}
use xv.Kalloc.{pgsize}
use xv.Vm.{walkaddr, walk, walk_from, px}
use xv.Vm.Copy.{view, word, copyout}
use xv.Vm.Copy.Out.{CopiedOut, copyout_lem}

-- The tables at 8192, 12288 and 16384 map the virtual pages 1 and 2 to 20480 and 24576; the four bytes at
-- 100 are a message.
abbrev user_memory : Memory
user_memory a =
    if a == 8192
    then 1
    else if a == 8193
    then 12
    else if a == 12288
    then 1
    else if a == 12289
    then 16
    else if a == 16392
    then 23
    else if a == 16393
    then 20
    else if a == 16400
    then 23
    else if a == 16401
    then 24
    else if leb 100 a
    then (if ltb a 104 then a else 0)
    else 0

abbrev frame : ℕ → ℕ
frame k = if k == 1 then 20480 else 24576

word-same :
    (m new : Memory) (a : ℕ) → ((b : ℕ) → a ≤ b → b < a + 8 → new b ≡ m b) → word new a ≡ word m a
unfolding word
word-same m new a same =
    rw
      (
        same a (omega arith) (omega arith),
        same (a + 1) (omega arith) (omega arith),
        same (a + 2) (omega arith) (omega arith),
        same (a + 3) (omega arith) (omega arith),
        same (a + 4) (omega arith) (omega arith),
        same (a + 5) (omega arith) (omega arith),
        same (a + 6) (omega arith) (omega arith),
        same (a + 7) (omega arith) (omega arith),
      )
      refl

-- The tables say what they say as long as their words stay.
frame_found :
    (new : Memory)
    → ((a : ℕ) → 8192 ≤ a → a < 20480 → new a ≡ user_memory a)
    → (k : ℕ) → 1 ≤ k
    → k ≤ 2
    → walkaddr 8192 (k * pgsize) (view new) ≡ ok (frame k)
unfolding walkaddr walk walk_from px word
frame_found new same k low high =
    let root : word new 8192 ≡ 3073 =
      word-same user_memory new 8192 (λ b from to. same b (omega arith) (omega arith)) in
    let mid : word new 12288 ≡ 4097 =
      word-same user_memory new 12288 (λ b from to. same b (omega arith) (omega arith)) in
    let leaf1 : word new 16392 ≡ 5143 =
      word-same user_memory new 16392 (λ b from to. same b (omega arith) (omega arith)) in
    let leaf2 : word new 16400 ≡ 6167 =
      word-same user_memory new 16400 (λ b from to. same b (omega arith) (omega arith)) in
    elim (Bool-cases (k == 1)) [
      | inl here ↦
          let eq : 1 ≡ k = ground arith in
          subst (λ x. walkaddr 8192 (x * pgsize) (view new) ≡ ok (frame x)) eq
            (rw (root, mid, leaf1) refl)
      | inr other ↦
          let eq : 2 ≡ k = ground arith in
          subst (λ x. walkaddr 8192 (x * pgsize) (view new) ≡ ok (frame x)) eq
            (rw (root, mid, leaf2) refl)
    ]

copyout_lem_example :
    (new : Memory) × (copyout 8192 8190 100 4 user_memory ≡ ok (pos 0, new))
    × CopiedOut frame 8190 100 4 user_memory new
copyout_lem_example =
    copyout_lem 8192 8190 100 4 frame user_memory
      (record {
        nonzero = λ k low high. ground arith;
        aligned = λ k low high. ground arith;
        distinct = λ k l bk tk bl tl ne. ground arith;
        mapped = λ new same k low high.
            frame_found new (λ a from to. same a (λ j lj hj. ground arith)) k low high;
      })
      (λ k a low high from to. ground arith)

-- The message goes out to both pages, and a page that is not mapped is an error.
sent : Result (ℤ × ℕ × ℕ × ℤ)
unfolding copyout
sent = do
  (r, m) ← copyout 8192 8190 100 4 user_memory
  (bad, _) ← copyout 8192 12280 100 40 m
  ok (r, m 24575, m 24577, bad)

sent_runs : sent ≡ ok (pos 0, 101, 103, negsuc 0)
unfolding sent word
sent_runs = refl
