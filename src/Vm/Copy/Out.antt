-- ===== src/Vm/Copy/Out.antt =====
-- `copyout`: the bytes that reach the user's pages.
use xv.Prelude.{
  ℕ, zero, suc, ◌+◌, ◌-◌, ◌*◌, ◌/◌, ◌%◌, ◌≤◌, ◌<◌, ◌≡◌, refl, sym, ap, ◌∙◌, ◌≢◌, ◌⊎◌, inl, inr,
  true, false, arith, ltb, ◌==◌, Bool-cases,
}
use xv.Prelude.Int.{pos}
use xv.Panic.{ok}
use xv.Strings.{Memory, memmove}
use xv.Strings.Move.{memmove_lem}
use xv.Kalloc.{pgsize}
use xv.Vm.{walkaddr, pgrounddown}
use xv.Vm.Copy.{view, chunk, copyout_loop, copyout}

-- `a` is not in the page at `frame`.
abbrev pub Outside : ℕ → ℕ → Type 0
Outside frame a = (a < frame) ⊎ (frame + pgsize ≤ a)

-- The pages from `bottom` to `top` of the user are those at `frame`, no two of them the same. That is so
-- whatever these pages hold: the page tables are not in them.
pub record UserPages (root bottom top : ℕ) (frame : ℕ → ℕ) (m : Memory) : Type 0 where
  pub nonzero : (k : ℕ) → bottom ≤ k → k ≤ top → frame k ≢ 0
  pub aligned : (k : ℕ) → bottom ≤ k → k ≤ top → frame k % pgsize ≡ 0
  pub distinct : (k l : ℕ) → bottom ≤ k → k ≤ top → bottom ≤ l → l ≤ top → k ≢ l → frame k ≢ frame l
  pub mapped :
      (new : Memory)
      → ((a : ℕ) → ((k : ℕ) → bottom ≤ k → k ≤ top → Outside (frame k) a) → new a ≡ m a)
      → (k : ℕ) → bottom ≤ k
      → k ≤ top
      → walkaddr root (k * pgsize) (view new) ≡ ok (frame k)

-- Where the byte at a virtual address is.
abbrev pub place : (ℕ → ℕ) → ℕ → ℕ
place frame va = frame (va / pgsize) + va % pgsize

pub record CopiedOut (frame : ℕ → ℕ) (dstva src len : ℕ) (m new : Memory) : Type 0 where
  pub inside : (i : ℕ) → i < len → new (place frame (dstva + i)) ≡ m (src + i)
  pub outside : (a : ℕ) → ((i : ℕ) → i < len → a ≢ place frame (dstva + i)) → new a ≡ m a

pub chunk_bounds :
    (va len : ℕ)
    → 0 < len
    → (0 < chunk va len)
      × (chunk va len ≤ len)
      × (va % pgsize + chunk va len ≤ pgsize)
      × ((chunk va len ≡ len) ⊎ (va % pgsize + chunk va len ≡ pgsize))
unfolding chunk
chunk_bounds va len pos_len = elim (Bool-cases (ltb len (pgsize - (va - pgrounddown va)))) [
  | inl small ↦
      let lt : len < pgsize - (va - pgrounddown va) = ground arith in
      rw small (omega arith, omega arith, omega arith, inl refl)
  | inr large ↦
      let ge : pgsize - (va - pgrounddown va) ≤ len = ground arith in
      rw large (omega arith, omega arith, omega arith, inr (omega arith))
]

module _ {root bottom top : ℕ} {frame : ℕ → ℕ} {m0 : Memory}
    (u : UserPages root bottom top frame m0) (lo hi : ℕ)
    (apart : (k a : ℕ) → bottom ≤ k → k ≤ top → lo ≤ a → a < hi → Outside (frame k) a) where
  -- Bytes of different addresses are at different places.
  place_ne :
      (v w : ℕ)
      → bottom ≤ v / pgsize
      → v / pgsize ≤ top
      → bottom ≤ w / pgsize
      → w / pgsize ≤ top
      → v ≢ w
      → place frame v ≢ place frame w
  place_ne v w bv tv bw tw ne e = elim (Bool-cases (v / pgsize == w / pgsize)) [
    | inl same ↦
        let eq : v / pgsize ≡ w / pgsize = ground arith in ne (omega (arith, ap frame eq, e))
    | inr other ↦
        let neq : v / pgsize ≢ w / pgsize = ground arith in
        u.distinct (v / pgsize) (w / pgsize) bv tv bw tw neq
          (omega (arith, e, u.aligned (v / pgsize) bv tv, u.aligned (w / pgsize) bw tw))
  ]

  -- One round: the part of the range that is on one page, and the rest.
  CopiedOut-round :
      (dstva src len n : ℕ) (m new : Memory)
      → 0 < n
      → n ≤ len
      → dstva % pgsize + n ≤ pgsize
      → (n ≡ len) ⊎ (dstva % pgsize + n ≡ pgsize)
      → bottom ≤ dstva / pgsize
      → dstva + len ≤ (top + 1) * pgsize
      → lo ≤ src
      → src + len ≤ hi
      → CopiedOut frame
          (pgrounddown dstva + pgsize)
          (src + n)
          (len - n)
          (memmove (frame (dstva / pgsize) + (dstva - pgrounddown dstva)) src n m)
          new
      → CopiedOut frame dstva src len m new
  CopiedOut-round dstva src len n m new pos_n small fits end low high from to rest =
      let k = dstva / pgsize in
      let dst = frame k + (dstva - pgrounddown dstva) in
      let mv = memmove_lem dst src n m in
      let in_page : (i : ℕ) → i < n → place frame (dstva + i) ≡ dst + i = λ i lt.
        let page : (dstva + i) / pgsize ≡ k = omega arith in
        let shift : (dstva + i) % pgsize ≡ dstva - pgrounddown dstva + i = omega arith in
        omega (arith, ap frame page, shift) in
      record {
        inside = λ i lt. elim (Bool-cases (ltb i n)) [
          | inl here ↦
              let lt_n : i < n = ground arith in
              rest.outside (place frame (dstva + i)) (λ j lt'.
                place_ne (dstva + i) (pgrounddown dstva + pgsize + j) (omega arith) (omega arith)
                  (omega arith) (omega (arith, end)) (omega arith))
              ∙ ap (memmove dst src n m) (in_page i lt_n)
              ∙ mv.inside i lt_n
          | inr later ↦
              let ge : n ≤ i = ground arith in
              let va : pgrounddown dstva + pgsize + (i - n) ≡ dstva + i = omega (arith, end) in
              let at : src + n + (i - n) ≡ src + i = omega arith in
              ap (λ x. new (place frame x)) (sym va)
              ∙ rest.inside (i - n) (omega arith)
              ∙ ap (memmove dst src n m) at
              ∙ mv.outside (src + i) (
                  omega (
                    arith,
                    apart k (src + i) (omega arith) (omega arith) (omega arith) (omega arith),
                  ))
        ];
        outside = λ a out.
            rest.outside a (λ j lt e.
              let va : pgrounddown dstva + pgsize + j ≡ dstva + (n + j) = omega (arith, end) in
              out (n + j) (omega arith) (e ∙ ap (place frame) va))
            ∙ mv.outside a (elim (Bool-cases (ltb a dst)) [
              | inl under ↦ inl (ground arith)
              | inr over ↦ elim (Bool-cases (ltb a (dst + n))) [
                | inl within ↦
                    let at : a ≡ dst + (a - dst) = ground arith in
                    let lt : a - dst < n = ground arith in
                    absurd (out (a - dst) (omega arith) (at ∙ sym (in_page (a - dst) lt)))
                | inr beyond ↦ inr (ground arith)
              ]
            ]);
      }

  copyout_loop-CopiedOut :
      (rounds dstva src len : ℕ) (m : Memory)
      → ((a : ℕ) → ((k : ℕ) → bottom ≤ k → k ≤ top → Outside (frame k) a) → m a ≡ m0 a)
      → len + dstva % pgsize ≤ rounds * pgsize
      → bottom ≤ dstva / pgsize
      → dstva + len ≤ (top + 1) * pgsize
      → lo ≤ src
      → src + len ≤ hi
      → (new : Memory) × (copyout_loop (suc rounds) root dstva src len m ≡ ok (pos 0, new))
        × CopiedOut frame dstva src len m new
  unfolding copyout_loop
  copyout_loop-CopiedOut zero dstva src len m agrees enough low high from to =
      let done : (len == 0) ≡ true = ground arith in
      (m, rw done refl, record { inside = λ i lt. absurd (omega arith); outside = λ a out. refl })
  copyout_loop-CopiedOut (suc rounds) dstva src len m agrees enough low high from to =
      elim (Bool-cases (len == 0)) [
        | inl done ↦ (
          m,
          rw done refl,
          record { inside = λ i lt. absurd (ground arith); outside = λ a out. refl },
        )
        | inr more ↦
            let pos_len : 0 < len = ground arith in
            let (pos_n, small, fits, end) = chunk_bounds dstva len pos_len in
            let k = dstva / pgsize in
            let below : k ≤ top = omega arith in
            let walked = u.mapped m agrees k low below in
            let some_page : (frame k == 0) ≡ false = ground (arith, u.nonzero k low below) in
            let mv = memmove_lem (frame k + (dstva - pgrounddown dstva)) src (chunk dstva len) m in
            let (new, e, rest) =
              copyout_loop-CopiedOut rounds (pgrounddown dstva + pgsize) (src + chunk dstva len)
                (len - chunk dstva len) _
                (λ a out. mv.outside a (omega (arith, out k low below)) ∙ agrees a out)
                (omega (arith, end)) (omega arith) (omega (arith, end)) (omega arith)
                (omega arith) in
            (
              new,
              rw (more, walked, some_page) e,
              CopiedOut-round dstva src len (chunk dstva len) m new pos_n small fits end low high
                  from to rest,
            )
      ]

-- Where the pages of the range are mapped for the user, to pages of memory that are not the same and hold no
-- part of the page tables and of the source, `copyout` returns 0. The bytes at the virtual addresses
-- are then those of the source, and every other byte of memory is as before.
pub copyout_lem :
    (root dstva src len : ℕ) (frame : ℕ → ℕ) (m : Memory)
    → UserPages root (dstva / pgsize) ((dstva + len - 1) / pgsize) frame m
    → ((k a : ℕ)
        → dstva / pgsize ≤ k
        → k ≤ (dstva + len - 1) / pgsize
        → src ≤ a
        → a < src + len
        → Outside (frame k) a)
    → (new : Memory) × (copyout root dstva src len m ≡ ok (pos 0, new))
      × CopiedOut frame dstva src len m new
unfolding copyout
copyout_lem root dstva src len frame m u apart =
    let rounds : len / pgsize + 3 ≡ suc (len / pgsize + 2) = omega arith in
    let (new, e, c) =
      copyout_loop-CopiedOut u src (src + len) apart (len / pgsize + 2) dstva src len m
        (λ a out. refl) (omega arith) (omega arith) (omega arith) (omega arith) (omega arith) in
    (new, ap (λ r. copyout_loop r root dstva src len m) rounds ∙ e, c)
