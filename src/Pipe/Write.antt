-- ===== src/Pipe/Write.antt =====
-- What a run of `pipewrite` puts into the pipe.
use mathlib.Core.List.{append-nil, append_assoc}
use xv.Prelude.{
  ℕ, zero, suc, ◌+◌, ◌-◌, ◌≤◌, ◌<◌, ◌≡◌, refl, ◌∙◌, ◌≢◌, ◌⊎◌, inl, inr, Bool, true, false, not,
  ◌||◌, Option, none, some, List, [], ◌∷◌, ◌++◌, arith, length, Bool-cases, Option-cases,
}
use xv.Pipe.{
  Pipe, pipesize, put, is_full, WriteEnd, wrote, refused, blocked, pipewrite_loop, pipewrite,
}
use xv.Pipe.Contents.{IsValid, held, contents, is_full_lem, put-IsValid, contents-put}

-- The bytes `bs` stand in user memory from the address `a` on.
abbrev pub FromUser : (ℕ → Option ℕ) → ℕ → List ℕ → Type 0
FromUser copyin a [] = Unit
FromUser copyin a (b ∷ bs) = (copyin a ≡ some b) × FromUser copyin (a + 1) bs

-- Why a run that began at round `i` of `n` ends as it does, with `k` bytes put into the pipe `q`.
abbrev pub Reason : (ℕ → Option ℕ) → (ℕ → Bool) → ℕ → ℕ → ℕ → Pipe → ℕ → WriteEnd → Type 0
Reason copyin killed addr n i q k (wrote j) = (j ≡ i + k) × ((j ≡ n) ⊎ (copyin (addr + j) ≡ none))
Reason copyin killed addr n i q k refused =
    ((q.readopen ≡ false) × (k ≡ 0)) ⊎ ((q.readopen ≡ true) × (killed (i + k) ≡ true))
Reason copyin killed addr n i q k (blocked j) =
    (j ≡ i + k) × (j < n) × (held q ≡ pipesize) × (q.readopen ≡ true)

pub record Written (copyin : ℕ → Option ℕ) (killed : ℕ → Bool) (addr n i : ℕ) (p : Pipe)
    (out : WriteEnd × Pipe) : Type 0 where
  pub sent : List ℕ
  pub from_user : FromUser copyin (addr + i) sent
  pub valid : IsValid out.1
  pub appended : contents out.1 ≡ contents p ++ sent
  pub same_ends : (out.1.readopen ≡ p.readopen) × (out.1.writeopen ≡ p.writeopen)
  pub reason : Reason copyin killed addr n i out.1 (length sent) out.0

module _ (copyin : ℕ → Option ℕ) (killed : ℕ → Bool) (addr n : ℕ) where
  nothing :
      {i : ℕ} {p : Pipe} (e : WriteEnd)
      → IsValid p
      → Reason copyin killed addr n i p 0 e
      → Written copyin killed addr n i p (e, p)
  nothing {p} e v why = record {
    sent = [];
    from_user = tt;
    valid = v;
    appended = rw append-nil;
    same_ends = (refl, refl);
    reason = why;
  }

  one_more :
      {i : ℕ} {p : Pipe} {out : WriteEnd × Pipe} (ch : ℕ)
      → IsValid p
      → p.readopen ≡ true
      → is_full p ≡ false
      → copyin (addr + i) ≡ some ch
      → Written copyin killed addr n (i + 1) (put p ch) out
      → Written copyin killed addr n i p out
  one_more {i} {p} {out} ch v open_end room there w = record {
    sent = ch ∷ w.sent;
    from_user = (there, let e : addr + i + 1 ≡ addr + (i + 1) = omega arith in rw e w.from_user);
    valid = w.valid;
    appended =
        w.appended
        ∙ rw (contents-put v (not_full v room) ch) (append_assoc (contents p) (ch ∷ []) w.sent);
    same_ends = unfold put in w.same_ends;
    reason = Reason-suc (length w.sent) out.1 out.0 still_open w.reason;
  }
    where
      not_full : {p : Pipe} → IsValid p → is_full p ≡ false → held p ≢ pipesize
      not_full v room = ground (arith, is_full_lem v)

      Reason-suc :
          (k : ℕ) (q : Pipe) (e : WriteEnd)
          → q.readopen ≡ true
          → Reason copyin killed addr n (i + 1) q k e
          → Reason copyin killed addr n i q (suc k) e
      Reason-suc k q (wrote j) o (a, b) = (omega arith, b)
      Reason-suc k q refused o (inl (closed, none_sent)) = cc
      Reason-suc k q refused o (inr (still, dead)) =
          let e : i + suc k ≡ i + 1 + k = omega arith in inr (still, rw e dead)
      Reason-suc k q (blocked j) o (a, b, c, d) = (omega arith, b, c, d)

      still_open : out.1.readopen ≡ true
      still_open = unfold put in w.same_ends.0 ∙ open_end

  pipewrite_loop-Written :
      (left i : ℕ) {p : Pipe}
      → n ≡ i + left
      → IsValid p
      → Written copyin killed addr n i p (pipewrite_loop copyin killed addr left i p)
  unfolding pipewrite_loop
  pipewrite_loop-Written zero i count v = nothing (wrote i) v (omega arith, inl (omega arith))
  pipewrite_loop-Written (suc left) i {p} count v = elim (Bool-cases (not p.readopen || killed i)) [
    | inl stop ↦
        rw stop (let e : i + 0 ≡ i = omega arith in nothing refused v (rw e (ground arith)))
    | inr go ↦ rw go (elim (Bool-cases (is_full p)) [
      | inl full ↦
          rw full
            (nothing (blocked i) v (omega arith, omega arith, (is_full_lem v).0 full, ground arith))
      | inr room ↦ rw room (elim (Option-cases (copyin (addr + i))) [
        | inl bad ↦ rw bad (nothing (wrote i) v (omega arith, inr bad))
        | inr (ch, there) ↦ rw there (
            one_more ch v (ground arith) room there (
              pipewrite_loop-Written left (i + 1) (omega arith)
                (put-IsValid v (ground (arith, is_full_lem v)) ch)))
      ])
    ])
  ]

  -- A run of `pipewrite` from round `i` appends to the contents of a valid pipe bytes that stand in
  -- user memory from `addr + i` on, in order, and leaves it valid with the same ends open. If it
  -- returns `j`, it has sent all up to `j`, and `j` is `n` or the byte at `addr + j` cannot be
  -- read. If it returns -1, either the read end is closed and no byte is sent, or the
  -- writer is found killed in the round after those bytes. If it sleeps with `j` written, it has sent all up to `j`, bytes are left, the read end is open and the pipe is full.
  pub pipewrite_lem :
      {p : Pipe} (i : ℕ)
      → i ≤ n
      → IsValid p
      → Written copyin killed addr n i p (pipewrite copyin killed addr n i p)
  unfolding pipewrite
  pipewrite_lem i h v = pipewrite_loop-Written (n - i) i (omega arith) v
