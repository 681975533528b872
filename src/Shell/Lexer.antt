-- ===== src/Shell/Lexer.antt =====
-- Tokens as text, each followed by a space, and what `gettoken` and `peek` read from it.
use xv.Prelude.{
  ℕ, ◌≡◌, refl, inl, inr, Bool, true, false, not, ◌||◌, List, [], ◌∷◌, ◌++◌, ◌==◌, arith,
  Bool-cases, All,
}
use xv.Shell.{
  Text, strchr, whitespace, symbols, skip_white, scan_word, scan_default, gettoken, peek,
}

pub data Token : Type 0 where
  word : (c : ℕ) (cs : Text) → Token
  sym : (c : ℕ) → Token
  gtgt : Token

-- A character that may stand in a word.
abbrev pub is_plain : ℕ → Bool
is_plain c = not (strchr whitespace c || strchr symbols c)

abbrev pub IsToken : Token → Type 0
IsToken (word c cs) = All (λ d. is_plain d ≡ true) (c ∷ cs)
IsToken (sym c) = strchr symbols c ≡ true
IsToken gtgt = Unit {0}

abbrev pub chars : Token → Text
chars (word c cs) = c ∷ cs
chars (sym c) = c ∷ []
chars gtgt = 62 ∷ 62 ∷ []

abbrev pub code : Token → ℕ
code (word c cs) = 97
code (sym c) = c
code gtgt = 43

abbrev pub render : List Token → Text
render [] = []
render (t ∷ ts) = chars t ++ (32 ∷ render ts)

-- The first token is a symbol that begins with one of `toks`.
abbrev pub begins : List ℕ → List Token → Bool
begins toks [] = false
begins toks (word c cs ∷ ts) = false
begins toks (sym c ∷ ts) = strchr toks c
begins toks (gtgt ∷ ts) = strchr toks 62

skip_white-render : (ts : List Token) → All IsToken ts → skip_white (render ts) ≡ render ts
skip_white-render [] v = refl
skip_white-render (word c cs ∷ ts) ((p, ps), vs) =
    let e : strchr whitespace c ≡ false = ground arith in rw e
skip_white-render (sym c ∷ ts) (p, vs) = let e : strchr whitespace c ≡ false = ground arith in rw e
skip_white-render (gtgt ∷ ts) v = refl

scan_word-append :
    (w : Text) (s : Text) → All (λ d. is_plain d ≡ true) w → scan_word (w ++ (32 ∷ s)) ≡ (w, 32 ∷ s)
scan_word-append [] s v = refl
scan_word-append (c ∷ w) s (p, ps) =
    let e : (strchr whitespace c || strchr symbols c) ≡ false = ground arith in
    rw (e, scan_word-append w s ps) refl

scan_default-append :
    (w : Text) (s : Text)
    → All (λ d. is_plain d ≡ true) w
    → scan_default (w ++ (32 ∷ s)) ≡ (97, w, 32 ∷ s)
unfolding scan_default
scan_default-append w s v = rw (scan_word-append w s v) refl

pub peek-render :
    (toks : List ℕ) (ts : List Token)
    → All IsToken ts
    → ((c : ℕ) → is_plain c ≡ true → strchr toks c ≡ false)
    → peek (render ts) toks ≡ (begins toks ts, render ts)
unfolding peek
peek-render toks [] v none_plain = refl
peek-render toks (word c cs ∷ ts) v none_plain =
    rw (skip_white-render (word c cs ∷ ts) v, none_plain c (v.0.0)) refl
peek-render toks (sym c ∷ ts) v none_plain = rw (skip_white-render (sym c ∷ ts) v) refl
peek-render toks (gtgt ∷ ts) v none_plain = refl

pub gettoken-render :
    (t : Token) (ts : List Token)
    → IsToken t
    → All IsToken ts
    → gettoken (render (t ∷ ts)) ≡ (code t, chars t, render ts)
unfolding gettoken
gettoken-render (word c cs) ts p vs =
    let w : strchr whitespace c ≡ false = ground (arith, p.0) in
    let s : strchr (124 ∷ 40 ∷ 41 ∷ 59 ∷ 38 ∷ 60 ∷ []) c ≡ false = ground (arith, p.0) in
    let g : (c == 62) ≡ false = ground (arith, p.0) in
    rw (w, s, g, scan_default-append (c ∷ cs) (render ts) p, skip_white-render ts vs) refl
gettoken-render (sym c) ts p vs = elim (Bool-cases (c == 62)) [
  | inl greater ↦ let e : c ≡ 62 = ground arith in rw (e, skip_white-render ts vs) refl
  | inr other ↦
      let w : strchr whitespace c ≡ false = ground (arith, p) in
      let s : strchr (124 ∷ 40 ∷ 41 ∷ 59 ∷ 38 ∷ 60 ∷ []) c ≡ true = ground (arith, p) in
      rw (w, s, skip_white-render ts vs) refl
]
gettoken-render gtgt ts p vs = rw (skip_white-render ts vs) refl

pub gettoken-end : gettoken [] ≡ (0, [], [])
unfolding gettoken
gettoken-end = refl
