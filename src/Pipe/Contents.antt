-- ===== src/Pipe/Contents.antt =====
-- The bytes that a pipe holds, in order, across the wrap-around of its two counters.
use mathlib.Core.Path.{ap₂}
use xv.Prelude.{
  ℕ, zero, suc, ◌+◌, ◌-◌, ◌%◌, ◌≤◌, ◌<◌, ◌≡◌, refl, ap, ◌≢◌, ◌↔◌, true, List, [], ◌∷◌, ◌++◌, arith,
  length, get_or, set, length-set, get_or-set_self, get_or-set_ne,
}
use xv.Pipe.{Pipe, pipesize, uint_mod, put, get, is_full, is_empty}

-- `nwrite - nread` in `uint` arithmetic
abbrev pub held : Pipe → ℕ
held p = (p.nwrite + uint_mod - p.nread) % uint_mod

pub record IsValid (p : Pipe) : Type 0 where
  pub size : length p.bytes ≡ pipesize
  pub read_fits : p.nread < uint_mod
  pub write_fits : p.nwrite < uint_mod
  pub bounded : held p ≤ pipesize

-- the `n` bytes from the count `r` on
abbrev pub window : List ℕ → ℕ → ℕ → List ℕ
window bs r zero = []
window bs r (suc n) = get_or bs (r % pipesize) 0 ∷ window bs ((r + 1) % uint_mod) n

abbrev pub contents : Pipe → List ℕ
contents p = window p.bytes p.nread (held p)

pub length-window : (bs : List ℕ) (r n : ℕ) → length (window bs r n) ≡ n
length-window bs r zero = refl
length-window bs r (suc n) = ap suc (length-window bs ((r + 1) % uint_mod) n)

pub is_full_lem : {p : Pipe} → IsValid p → (is_full p ≡ true) ↔ (held p ≡ pipesize)
unfolding is_full
is_full_lem v = (ground arith, ground arith)

pub is_empty_lem : {p : Pipe} → IsValid p → (is_empty p ≡ true) ↔ (held p ≡ 0)
unfolding is_empty
is_empty_lem v = (ground arith, ground arith)

-- A write just past a window extends it by that byte.
window-set :
    (bs : List ℕ) (ch n r w : ℕ)
    → length bs ≡ pipesize
    → n < pipesize
    → w ≡ (r + n) % uint_mod
    → window (set bs (w % pipesize) ch) r (suc n) ≡ window bs r n ++ (ch ∷ [])
window-set bs ch zero r w size room e =
    ap (λ b. b ∷ [])
      (let at : r % pipesize ≡ w % pipesize = omega arith in
        rw at (get_or-set_self bs (w % pipesize) ch 0 (omega arith)))
window-set bs ch (suc n) r w size room e =
    ap₂ ◌∷◌ (get_or-set_ne bs ch 0 (omega arith))
      (window-set bs ch n ((r + 1) % uint_mod) w size (omega arith) (omega arith))

module _ {p : Pipe} (v : IsValid p) where
  open v use {size, read_fits, write_fits, bounded}

  pub put-IsValid : held p ≢ pipesize → (ch : ℕ) → IsValid (put p ch)
  unfolding put
  put-IsValid room ch = record {
    size = omega (arith, length-set p.bytes (p.nwrite % pipesize) ch);
    read_fits = read_fits;
    write_fits = omega arith;
    bounded = omega arith;
  }

  held-put : held p ≢ pipesize → (ch : ℕ) → held (put p ch) ≡ suc (held p)
  unfolding put
  held-put room ch = omega arith

  -- A byte that is put goes to the end of the contents.
  pub contents-put : held p ≢ pipesize → (ch : ℕ) → contents (put p ch) ≡ contents p ++ (ch ∷ [])
  contents-put room ch = rw (held-put room ch) (
      unfold put in
      window-set p.bytes ch (held p) p.nread p.nwrite size (omega arith) (omega arith))

  pub get-IsValid : held p ≢ 0 → IsValid (get p).1
  unfolding get
  get-IsValid some_held = omega arith

  -- A byte that is got comes from the front of the contents.
  pub contents-get : held p ≢ 0 → contents p ≡ (get p).0 ∷ contents (get p).1
  unfolding get
  contents-get some_held = let e : held p ≡ suc (held (get p).1) = omega arith in rw e refl
