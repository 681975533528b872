-- ===== src/Shell/Lengths.antt =====
-- Each part of the lexer leaves no more text than it was given.
use Prim.Native.String.{String}
use xv.Prelude.{
  ℕ, ◌≤◌, ◌<◌, ◌≡◌, refl, sym, ap, ◌∙◌, inl, inr, true, false, ◌||◌, List, [], ◌∷◌, ◌==◌, arith,
  Bool-cases, length,
}
use xv.Panic.{Result, ok, panic, ◌>>=◌}
use xv.Shell.{
  Text, Cmd, strchr, whitespace, symbols, skip_white, scan_word, scan_default, scan_token, gettoken,
  peek,
}
use mathlib.Core.Path.{subst}

-- What the parser says of a text that is no command.
pub data IsSyntaxError : String → Type 0 where
  bad_file : IsSyntaxError "missing file for redirection"
  bad_token : IsSyntaxError "syntax"
  bad_count : IsSyntaxError "too many args"
  bad_block : IsSyntaxError "syntax - missing )"

-- A command and at most `k` characters that are left, or a syntax error.
pub data Ends (k : ℕ) : Result (Cmd × Text) → Type 0 where
  done : (cmd : Cmd) (s : Text) → length s ≤ k → Ends k (ok (cmd, s))
  failed : (e : String) → IsSyntaxError e → Ends k (panic e)

pub Ends-bind :
    (k k' : ℕ) (r : Result (Cmd × Text)) (f : Cmd × Text → Result (Cmd × Text))
    → Ends k r
    → ((cmd : Cmd) (s : Text) → length s ≤ k → Ends k' (f (cmd, s)))
    → Ends k' (r >>= f)
Ends-bind k k' (ok (cmd, s)) f (done cmd' s' le) h = h cmd s le
Ends-bind k k' (panic e) f (failed e' v) h = failed e v

skip_white-length : (s : Text) → length (skip_white s) ≤ length s
skip_white-length [] = omega arith
skip_white-length (c ∷ s) = elim (Bool-cases (strchr whitespace c)) [
  | inl white ↦ rw white (omega (arith, skip_white-length s))
  | inr other ↦ rw other (omega arith)
]

-- What is left after white space does not begin with it.
pub skip_white-twice : (s : Text) → skip_white (skip_white s) ≡ skip_white s
skip_white-twice [] = refl
skip_white-twice (c ∷ s) = elim (Bool-cases (strchr whitespace c)) [
  | inl white ↦ rw white (skip_white-twice s)
  | inr other ↦ rw (other, other) refl
]

scan_word-length : (s : Text) → length ((scan_word s).1) ≤ length s
scan_word-length [] = omega arith
scan_word-length (c ∷ s) = elim (Bool-cases (strchr whitespace c || strchr symbols c)) [
  | inl stop ↦ rw stop (omega arith)
  | inr more ↦ rw more (omega (arith, scan_word-length s))
]

scan_default-length :
    (c : ℕ) (s : Text)
    → (strchr whitespace c || strchr symbols c) ≡ false
    → length ((scan_default (c ∷ s)).2) ≤ length s
unfolding scan_default
scan_default-length c s plain = rw plain (scan_word-length s)

scan_greater-length : (s : Text) → length ((scan_token (62 ∷ s)).2) ≤ length s
scan_greater-length [] = omega arith
scan_greater-length (d ∷ s) = elim (Bool-cases (d == 62)) [
  | inl twice ↦ rw twice (omega arith)
  | inr once ↦ rw once (omega arith)
]

-- A token takes at least one character.
scan_token-length :
    (c : ℕ) (s : Text) → strchr whitespace c ≡ false → length ((scan_token (c ∷ s)).2) ≤ length s
scan_token-length c s w = elim (Bool-cases (c == 62)) [
  | inl greater ↦
      let e : 62 ≡ c = ground arith in
      subst (λ d. length ((scan_token (d ∷ s)).2) ≤ length s) e (scan_greater-length s)
  | inr not_greater ↦ elim (Bool-cases (strchr (124 ∷ 40 ∷ 41 ∷ 59 ∷ 38 ∷ 60 ∷ []) c)) [
    | inl symbol ↦ rw symbol (omega arith)
    | inr other ↦
        let plain : (strchr whitespace c || strchr symbols c) ≡ false = ground arith in
        rw (other, not_greater) (scan_default-length c s plain)
  ]
]

not_white : (c : ℕ) (s : Text) → skip_white (c ∷ s) ≡ c ∷ s → strchr whitespace c ≡ false
not_white c s e = elim (Bool-cases (strchr whitespace c)) [
  | inr other ↦ other
  | inl white ↦
      let e' : skip_white s ≡ c ∷ s = rw white at e in
      absurd (omega (arith, skip_white-length s, ap length e'))
]

gettoken-length : (s t : Text) (c : ℕ) → skip_white s ≡ c ∷ t → length ((gettoken s).2) ≤ length t
unfolding gettoken
gettoken-length s t c e =
    let w = not_white c t (ap skip_white (sym e) ∙ skip_white-twice s ∙ e) in
    rw e (omega (arith, skip_white-length ((scan_token (c ∷ t)).2), scan_token-length c t w))

gettoken-none : (s : Text) → skip_white s ≡ [] → length ((gettoken s).2) ≤ length s
unfolding gettoken
gettoken-none s e = rw e (omega arith)

peek-none : (s : Text) (toks : List ℕ) → skip_white s ≡ [] → (peek s toks).0 ≡ false
unfolding peek
peek-none s toks e = rw e refl

pub gettoken-le : (s : Text) → length ((gettoken s).2) ≤ length s
gettoken-le s = go (skip_white s) refl
  where
    go : (t : Text) → skip_white s ≡ t → length ((gettoken s).2) ≤ length s
    go [] e = gettoken-none s e
    go (c ∷ t) e = omega (arith, gettoken-length s t c e, skip_white-length s, ap length e)

pub peek-length : (s : Text) (toks : List ℕ) → length ((peek s toks).1) ≤ length s
unfolding peek
peek-length s toks = skip_white-length s

-- A token that was seen is taken.
pub peek-gettoken :
    (s : Text) (toks : List ℕ)
    → (peek s toks).0 ≡ true
    → length ((gettoken ((peek s toks).1)).2) < length s
unfolding peek
peek-gettoken s toks e = go (skip_white s) refl e
  where
    go :
        (t : Text)
        → skip_white s ≡ t
        → (peek s toks).0 ≡ true
        → length ((gettoken (skip_white s)).2) < length s
    go [] q e = absurd (let none_there = peek-none s toks q in cc)
    go (c ∷ t) q e = omega (
      arith,
      gettoken-length (skip_white s) t c (skip_white-twice s ∙ q),
      skip_white-length s,
      ap length q,
    )

gettoken-end_lem : (s : Text) → skip_white s ≡ [] → (gettoken s).0 ≡ 0
unfolding gettoken
gettoken-end_lem s e = rw e refl

-- A token other than the end is taken.
pub gettoken-shorter :
    (s : Text) → ((gettoken s).0 == 0) ≡ false → length ((gettoken s).2) < length s
gettoken-shorter s some_token = go (skip_white s) refl
  where
    go : (t : Text) → skip_white s ≡ t → length ((gettoken s).2) < length s
    go [] e = absurd (ground (arith, gettoken-end_lem s e))
    go (c ∷ t) e = omega (arith, gettoken-length s t c e, skip_white-length s, ap length e)
