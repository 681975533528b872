-- ===== src/Pipe/Read.antt =====
-- What a run of `piperead` takes from the pipe.
use xv.Prelude.{
  ℕ, zero, suc, ◌+◌, ◌<◌, ◌≡◌, refl, ap, ◌∙◌, ◌≢◌, ◌⊎◌, inl, inr, Bool, true, false, List, [], ◌∷◌,
  ◌++◌, arith, length, Bool-cases,
}
use xv.Pipe.{Pipe, get, is_empty, ReadEnd, got, interrupted, waits, piperead_loop, piperead}
use xv.Pipe.Contents.{IsValid, held, contents, is_empty_lem, get-IsValid, contents-get}

-- How the loop stops, begun at round `i` of `n`, with `k` bytes copied out and `lost` taken from
-- the ring besides.
abbrev pub Stop : (ℕ → Bool) → ℕ → ℕ → ℕ → Pipe → List ℕ → Type 0
Stop copyout addr n k q [] = (k ≡ n) ⊎ (held q ≡ 0)
Stop copyout addr n k q (ch ∷ lost) = (lost ≡ []) × (k < n) × (copyout (addr + k) ≡ false)

pub record Taken (copyout : ℕ → Bool) (addr n i : ℕ) (p : Pipe) (out : List ℕ × Pipe) : Type 0 where
  pub lost : List ℕ
  pub valid : IsValid out.1
  pub front : contents p ≡ out.0 ++ (lost ++ contents out.1)
  pub same_ends : (out.1.readopen ≡ p.readopen) × (out.1.writeopen ≡ p.writeopen)
  pub stop : Stop copyout addr n (i + length out.0) out.1 lost

-- What a whole run leaves, by how it ends.
abbrev pub Outcome : (ℕ → Bool) → Bool → ℕ → ℕ → Pipe → ReadEnd × Pipe → Type 0
Outcome copyout killed addr n p (got bs, q) =
    ((held p ≢ 0) ⊎ (p.writeopen ≡ false)) × Taken copyout addr n 0 p (bs, q)
Outcome copyout killed addr n p (interrupted, q) =
    (q ≡ p) × (held p ≡ 0) × (p.writeopen ≡ true) × (killed ≡ true)
Outcome copyout killed addr n p (waits, q) =
    (q ≡ p) × (held p ≡ 0) × (p.writeopen ≡ true) × (killed ≡ false)

module _ (copyout : ℕ → Bool) (addr n : ℕ) where
  nothing :
      {i : ℕ} {p : Pipe} → IsValid p → (i ≡ n) ⊎ (held p ≡ 0) → Taken copyout addr n i p ([], p)
  nothing v why = record {
    lost = [];
    valid = v;
    front = refl;
    same_ends = (refl, refl);
    stop = ground arith;
  }

  dropped :
      {i : ℕ} {p : Pipe}
      → IsValid p
      → held p ≢ 0
      → i < n
      → copyout (addr + i) ≡ false
      → Taken copyout addr n i p ([], (get p).1)
  dropped {i} {p} v some_held lt bad = record {
    lost = (get p).0 ∷ [];
    valid = get-IsValid v some_held;
    front = contents-get v some_held;
    same_ends = unfold get in (refl, refl);
    stop = (refl, omega arith, let e : addr + (i + 0) ≡ addr + i = omega arith in rw e bad);
  }

  one_more :
      {i : ℕ} {p : Pipe} {bs : List ℕ} {q : Pipe}
      → IsValid p
      → held p ≢ 0
      → Taken copyout addr n (i + 1) (get p).1 (bs, q)
      → Taken copyout addr n i p ((get p).0 ∷ bs, q)
  one_more {i} {p} {bs} {q} v some_held t = record {
    lost = t.lost;
    valid = t.valid;
    front = contents-get v some_held ∙ ap (λ xs. (get p).0 ∷ xs) t.front;
    same_ends = unfold get in t.same_ends;
    stop = let e : i + suc (length bs) ≡ i + 1 + length bs = omega arith in rw e t.stop;
  }

  piperead_loop-Taken :
      (left i : ℕ) {p : Pipe}
      → n ≡ i + left
      → IsValid p
      → Taken copyout addr n i p (piperead_loop copyout addr left i p)
  unfolding piperead_loop
  piperead_loop-Taken zero i count v = nothing v (inl (omega arith))
  piperead_loop-Taken (suc left) i {p} count v = elim (Bool-cases (is_empty p)) [
    | inl none_held ↦ rw none_held (nothing v (inr ((is_empty_lem v).0 none_held)))
    | inr some_held ↦
        let ne : held p ≢ 0 = ground (arith, is_empty_lem v) in
        rw some_held (elim (Bool-cases (copyout (addr + i))) [
          | inl good ↦
              rw good
                (one_more v ne (piperead_loop-Taken left (i + 1) (omega arith) (get-IsValid v ne)))
          | inr bad ↦ rw bad (dropped v ne (omega arith) bad)
        ])
  ]

  -- A run of `piperead` on a valid pipe takes its bytes from the front of the contents, in order,
  -- and leaves the rest, the pipe valid and the same ends open. It returns when the pipe holds a
  -- byte or its write end is closed: with `n` bytes, with all that the pipe held, or with those
  -- before an address that takes no byte, and then one byte more is lost. On an empty pipe with an
  -- open write end it changes nothing, and returns -1 if the reader is killed, else sleeps.
  pub piperead_lem :
      (killed : Bool) {p : Pipe}
      → IsValid p
      → Outcome copyout killed addr n p (piperead copyout killed addr n p)
  unfolding piperead
  piperead_lem killed {p} v =
      ground (arith, is_empty_lem v, piperead_loop-Taken n 0 {p = p} (omega arith) v)
