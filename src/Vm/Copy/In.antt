-- ===== src/Vm/Copy/In.antt =====
-- `copyin`: the bytes that come from the user's pages.
use xv.Prelude.{
  ℕ, zero, suc, ◌+◌, ◌-◌, ◌*◌, ◌/◌, ◌%◌, ◌≤◌, ◌<◌, ◌≡◌, refl, sym, ap, ◌∙◌, ◌≢◌, ◌⊎◌, inl, inr,
  true, false, arith, leb, ltb, ◌==◌, Bool-cases,
}
use xv.Prelude.Int.{pos}
use xv.Panic.{ok}
use xv.Strings.{Memory, memmove}
use xv.Strings.Move.{memmove_lem}
use xv.Kalloc.{pgsize}
use xv.Vm.{walkaddr, pgrounddown}
use xv.Vm.Copy.{view, chunk, copyin_loop, copyin}
use xv.Vm.Copy.Out.{Outside, place, chunk_bounds}

-- The pages from `bottom` to `top` of the user are those at `frame`, whatever the bytes from `lo` up to `hi`
-- are, and these are in none of the pages.
pub record Readable (root bottom top lo hi : ℕ) (frame : ℕ → ℕ) (m : Memory) : Type 0 where
  pub nonzero : (k : ℕ) → bottom ≤ k → k ≤ top → frame k ≢ 0
  pub apart : (k a : ℕ) → bottom ≤ k → k ≤ top → lo ≤ a → a < hi → Outside (frame k) a
  pub mapped :
      (new : Memory)
      → ((a : ℕ) → (a < lo) ⊎ (hi ≤ a) → new a ≡ m a)
      → (k : ℕ) → bottom ≤ k
      → k ≤ top
      → walkaddr root (k * pgsize) (view new) ≡ ok (frame k)

pub record CopiedIn (frame : ℕ → ℕ) (dst srcva len : ℕ) (m new : Memory) : Type 0 where
  pub inside : (i : ℕ) → i < len → new (dst + i) ≡ m (place frame (srcva + i))
  pub outside : (a : ℕ) → (a < dst) ⊎ (dst + len ≤ a) → new a ≡ m a

module _ {root bottom top lo hi : ℕ} {frame : ℕ → ℕ} {m0 : Memory}
    (u : Readable root bottom top lo hi frame m0) where
  -- One round: the part of the range that is on one page, and the rest.
  CopiedIn-round :
      (dst srcva len n : ℕ) (m new : Memory)
      → n ≤ len
      → srcva % pgsize + n ≤ pgsize
      → (n ≡ len) ⊎ (srcva % pgsize + n ≡ pgsize)
      → bottom ≤ srcva / pgsize
      → srcva + len ≤ (top + 1) * pgsize
      → lo ≤ dst
      → dst + len ≤ hi
      → CopiedIn frame
          (dst + n)
          (pgrounddown srcva + pgsize)
          (len - n)
          (memmove dst (frame (srcva / pgsize) + (srcva - pgrounddown srcva)) n m)
          new
      → CopiedIn frame dst srcva len m new
  CopiedIn-round dst srcva len n m new small fits end low high from to rest =
      let k = srcva / pgsize in
      let src = frame k + (srcva - pgrounddown srcva) in
      let mv = memmove_lem dst src n m in
      record {
        inside = λ i lt. elim (Bool-cases (ltb i n)) [
          | inl here ↦
              let lt_n : i < n = ground arith in
              let page : (srcva + i) / pgsize ≡ k = omega arith in
              let shift : (srcva + i) % pgsize ≡ srcva - pgrounddown srcva + i = omega arith in
              let at : src + i ≡ place frame (srcva + i) = omega (arith, ap frame page, shift) in
              rest.outside (dst + i) (omega arith) ∙ mv.inside i lt_n ∙ ap m at
          | inr later ↦
              let ge : n ≤ i = ground arith in
              let va : pgrounddown srcva + pgsize + (i - n) ≡ srcva + i = omega (arith, end) in
              let at : dst + n + (i - n) ≡ dst + i = omega arith in
              let x = place frame (srcva + i) in
              ap new (sym at)
              ∙ rest.inside (i - n) (omega arith)
              ∙ ap (λ x. memmove dst src n m (place frame x)) va
              ∙ mv.outside (place frame (srcva + i)) (elim (Bool-cases (ltb x dst)) [
                | inl under ↦ inl (ground arith)
                | inr over ↦ elim (Bool-cases (leb (dst + n) x)) [
                  | inl beyond ↦ inr (ground arith)
                  | inr within ↦
                      let ge_dst : dst ≤ x = ground arith in
                      let lt_end : x < dst + n = ground arith in
                      absurd (
                        omega (
                          arith,
                          u.apart ((srcva + i) / pgsize) x (omega arith) (omega arith) (omega arith)
                              (omega arith),
                        ))
                ]
              ])
        ];
        outside = λ a out. rest.outside a (omega (arith, out)) ∙ mv.outside a (omega (arith, out));
      }

  copyin_loop-CopiedIn :
      (rounds dst srcva len : ℕ) (m : Memory)
      → ((a : ℕ) → (a < lo) ⊎ (hi ≤ a) → m a ≡ m0 a)
      → len + srcva % pgsize ≤ rounds * pgsize
      → bottom ≤ srcva / pgsize
      → srcva + len ≤ (top + 1) * pgsize
      → lo ≤ dst
      → dst + len ≤ hi
      → (new : Memory) × (copyin_loop (suc rounds) root dst srcva len m ≡ ok (pos 0, new))
        × CopiedIn frame dst srcva len m new
  unfolding copyin_loop
  copyin_loop-CopiedIn zero dst srcva len m agrees enough low high from to =
      let done : (len == 0) ≡ true = ground arith in
      (m, rw done refl, record { inside = λ i lt. absurd (omega arith); outside = λ a out. refl })
  copyin_loop-CopiedIn (suc rounds) dst srcva len m agrees enough low high from to =
      elim (Bool-cases (len == 0)) [
        | inl done ↦ (
          m,
          rw done refl,
          record { inside = λ i lt. absurd (ground arith); outside = λ a out. refl },
        )
        | inr more ↦
            let pos_len : 0 < len = ground arith in
            let (pos_n, small, fits, end) = chunk_bounds srcva len pos_len in
            let k = srcva / pgsize in
            let below : k ≤ top = omega arith in
            let walked = u.mapped m agrees k low below in
            let some_page : (frame k == 0) ≡ false = ground (arith, u.nonzero k low below) in
            let mv = memmove_lem dst (frame k + (srcva - pgrounddown srcva)) (chunk srcva len) m in
            let (new, e, rest) =
              copyin_loop-CopiedIn rounds (dst + chunk srcva len) (pgrounddown srcva + pgsize)
                (len - chunk srcva len) _
                (λ a out. mv.outside a (omega (arith, out)) ∙ agrees a out) (omega (arith, end))
                (omega arith) (omega (arith, end)) (omega arith) (omega arith) in
            (
              new,
              rw (more, walked, some_page) e,
              CopiedIn-round dst srcva len (chunk srcva len) m new small fits end low high from to
                  rest,
            )
      ]

-- Where the pages of the range are mapped for the user, and neither they nor the page tables overlap the
-- destination, `copyin` returns 0. The destination then holds the bytes at the virtual addresses, and
-- every other byte of memory is as before.
copyin_lem :
    (root dst srcva len : ℕ) (frame : ℕ → ℕ) (m : Memory)
    → Readable root (srcva / pgsize) ((srcva + len - 1) / pgsize) dst (dst + len) frame m
    → (new : Memory) × (copyin root dst srcva len m ≡ ok (pos 0, new))
      × CopiedIn frame dst srcva len m new
unfolding copyin
copyin_lem root dst srcva len frame m u =
    let rounds : len / pgsize + 3 ≡ suc (len / pgsize + 2) = omega arith in
    let (new, e, c) =
      copyin_loop-CopiedIn u (len / pgsize + 2) dst srcva len m (λ a out. refl) (omega arith)
        (omega arith) (omega arith) (omega arith) (omega arith) in
    (new, ap (λ r. copyin_loop r root dst srcva len m) rounds ∙ e, c)
