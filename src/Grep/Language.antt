-- ===== src/Grep/Language.antt =====
-- What a pattern means, and that the matcher finds just that.
use xv.Prelude.{
  ℕ, ◌≡◌, refl, ap, ◌↔◌, ◌⊎◌, inl, inr, Bool, true, List, [], ◌∷◌, ◌++◌, arith, ◌==◌, if◌then◌else◌,
  Bool-cases, All,
}
use xv.Grep.{
  caret, matchone, dollar, matchstar, dot, matchhere, star, match_text, match_loop, at_end,
}
use mathlib.Core.Path.{subst}

-- The parts of a pattern: one character, any number of them, the end of the text.
pub data Item : Type 0 where
  one : ℕ → Item
  many : ℕ → Item
  finish : Item

abbrev pub items : List ℕ → List Item
items [] = []
items (r ∷ []) = (if r == dollar then finish else one r) ∷ []
items (r ∷ s ∷ re) = if s == star then many r ∷ items re else one r ∷ items (s ∷ re)

abbrev pub Fits : ℕ → ℕ → Type 0
Fits c t = (c ≡ dot) ⊎ (t ≡ c)

-- A beginning of the text is in the language of the items.
abbrev pub Begins : List Item → List ℕ → Type 0
Begins [] text = Unit
Begins (one c ∷ is) text = (t : ℕ) × (ts : List ℕ) × (text ≡ t ∷ ts) × Fits c t × Begins is ts
Begins (many c ∷ is) text =
    (run : List ℕ) × (ts : List ℕ) × (text ≡ run ++ ts) × All (Fits c) run × Begins is ts
Begins (finish ∷ is) text = text ≡ []

-- Some part of the text, from some place on, begins with the pattern.
abbrev pub Anywhere : List ℕ → List ℕ → Type 0
Anywhere re text =
    (before : List ℕ) × (after : List ℕ) × (text ≡ before ++ after) × Begins (items re) after

-- The pattern occurs in the text, at its beginning if the pattern starts with `^`.
abbrev pub Occurs : List ℕ → List ℕ → Type 0
Occurs [] text = Unit
Occurs (r ∷ re) text = if r == caret then Begins (items re) text else Anywhere (r ∷ re) text

matchstar_sound :
    (c : ℕ) (here : List ℕ → Bool) (P : List ℕ → Type 0) (text : List ℕ)
    → ((ts : List ℕ) → here ts ≡ true → P ts)
    → matchstar c here text ≡ true
    → (run : List ℕ) × (ts : List ℕ) × (text ≡ run ++ ts) × All (Fits c) run × P ts
unfolding matchstar
matchstar_sound c here P [] h e = ([], [], refl, tt, h [] e)
matchstar_sound c here P (t ∷ ts) h e = elim (Bool-cases (here (t ∷ ts))) [
  | inl now ↦ ([], t ∷ ts, refl, tt, h (t ∷ ts) now)
  | inr later ↦
      let (run, rest, at, fits, p) = matchstar_sound c here P ts h (ground arith) in
      (t ∷ run, rest, ap (λ x. t ∷ x) at, ((ground arith), fits), p)
]

matchstar_complete :
    (c : ℕ) (here : List ℕ → Bool) (run ts : List ℕ)
    → All (Fits c) run
    → here ts ≡ true
    → matchstar c here (run ++ ts) ≡ true
unfolding matchstar
matchstar_complete c here [] [] fits e = e
matchstar_complete c here [] (t ∷ ts) fits e = rw e
matchstar_complete c here (r ∷ run) ts fits e =
    ground (arith, matchstar_complete c here run ts fits.1 e, fits.0)

matchone_sound :
    (r : ℕ) (here : List ℕ → Bool) (P : List ℕ → Type 0) (text : List ℕ)
    → ((ts : List ℕ) → here ts ≡ true → P ts)
    → matchone r here text ≡ true
    → (t : ℕ) × (ts : List ℕ) × (text ≡ t ∷ ts) × Fits r t × P ts
unfolding matchone
matchone_sound r here P [] h e = cc
matchone_sound r here P (t ∷ ts) h e = (t, ts, refl, ground arith, h ts (ground arith))

matchone_complete :
    (r t : ℕ) (here : List ℕ → Bool) (ts : List ℕ)
    → Fits r t
    → here ts ≡ true
    → matchone r here (t ∷ ts) ≡ true
unfolding matchone
matchone_complete r t here ts fits e = ground arith

at_end_lem : (text : List ℕ) → at_end text ≡ true → text ≡ []
unfolding at_end
at_end_lem [] e = refl
at_end_lem (t ∷ ts) e = cc

matchhere_sound : (re text : List ℕ) → matchhere re text ≡ true → Begins (items re) text
unfolding matchhere at_end
matchhere_sound [] text e = tt
matchhere_sound (r ∷ []) text e = elim (Bool-cases (r == dollar)) [
  | inl anchor ↦ rw anchor (at_end_lem text (ground arith))
  | inr other ↦
      rw other (matchone_sound r (λ ts. true) (λ ts. Unit) text (λ ts h. tt) (ground arith))
]
matchhere_sound (r ∷ s ∷ re) text e = elim (Bool-cases (s == star)) [
  | inl starred ↦ rw starred (
      matchstar_sound r (λ ts. matchhere re ts) (Begins (items re)) text
        (λ ts h. matchhere_sound re ts h) (ground arith))
  | inr plain ↦ rw plain (
      matchone_sound r (λ ts. matchhere (s ∷ re) ts) (Begins (items (s ∷ re))) text
        (λ ts h. matchhere_sound (s ∷ re) ts h) (ground arith))
]

matchhere_complete : (re text : List ℕ) → Begins (items re) text → matchhere re text ≡ true
unfolding matchhere at_end
matchhere_complete [] text b = refl
matchhere_complete (r ∷ []) text b = elim (Bool-cases (r == dollar)) [
  | inl anchor ↦
      let nothing_left : text ≡ [] =
        subst (λ x. Begins ((if x then finish else one r) ∷ []) text) anchor b in
      rw (anchor, nothing_left)
  | inr other ↦
      let (t, ts, at, fits, rest) =
        subst (λ x. Begins ((if x then finish else one r) ∷ []) text) other b in
      rw (other, at) (matchone_complete r t (λ x. true) ts fits refl)
]
matchhere_complete (r ∷ s ∷ re) text b = elim (Bool-cases (s == star)) [
  | inl starred ↦
      let (run, ts, at, fits, rest) =
        subst (λ x. Begins (if x then many r ∷ items re else one r ∷ items (s ∷ re)) text) starred
          b in
      rw (starred, at)
        (matchstar_complete r (λ x. matchhere re x) run ts fits (matchhere_complete re ts rest))
  | inr plain ↦
      let (t, ts, at, fits, rest) =
        subst (λ x. Begins (if x then many r ∷ items re else one r ∷ items (s ∷ re)) text) plain
          b in
      rw (plain, at)
        (matchone_complete r t (λ x. matchhere (s ∷ re) x) ts fits
          (matchhere_complete (s ∷ re) ts rest))
]

match_loop_sound :
    (here : List ℕ → Bool) (P : List ℕ → Type 0) (text : List ℕ)
    → ((ts : List ℕ) → here ts ≡ true → P ts)
    → match_loop here text ≡ true
    → (before : List ℕ) × (after : List ℕ) × (text ≡ before ++ after) × P after
unfolding match_loop
match_loop_sound here P [] h e = ([], [], refl, h [] e)
match_loop_sound here P (t ∷ ts) h e = elim (Bool-cases (here (t ∷ ts))) [
  | inl now ↦ ([], t ∷ ts, refl, h (t ∷ ts) now)
  | inr later ↦
      let (before, after, at, p) = match_loop_sound here P ts h (ground arith) in
      (t ∷ before, after, ap (λ x. t ∷ x) at, p)
]

match_loop_complete :
    (here : List ℕ → Bool) (before after : List ℕ)
    → here after ≡ true
    → match_loop here (before ++ after) ≡ true
unfolding match_loop
match_loop_complete here [] [] e = e
match_loop_complete here [] (t ∷ ts) e = rw e
match_loop_complete here (b ∷ before) after e =
    ground (arith, match_loop_complete here before after e)

match_text_sound : (re text : List ℕ) → match_text re text ≡ true → Occurs re text
unfolding match_text
match_text_sound [] text e = tt
match_text_sound (r ∷ re) text e = elim (Bool-cases (r == caret)) [
  | inl anchored ↦ rw anchored (matchhere_sound re text (ground arith))
  | inr anywhere ↦ rw anywhere (
      match_loop_sound (λ ts. matchhere (r ∷ re) ts) (Begins (items (r ∷ re))) text
        (λ ts h. matchhere_sound (r ∷ re) ts h) (ground arith))
]

match_text_complete : (re text : List ℕ) → Occurs re text → match_text re text ≡ true
unfolding match_text match_loop matchhere
match_text_complete [] [] o = refl
match_text_complete [] (t ∷ ts) o = refl
match_text_complete (r ∷ re) text o = elim (Bool-cases (r == caret)) [
  | inl anchored ↦
      let b =
        subst (λ x. if x then Begins (items re) text else Anywhere (r ∷ re) text) anchored o in
      rw anchored (matchhere_complete re text b)
  | inr anywhere ↦
      let (before, after, at, b) =
        subst (λ x. if x then Begins (items re) text else Anywhere (r ∷ re) text) anywhere o in
      rw (anywhere, at)
        (match_loop_complete (λ ts. matchhere (r ∷ re) ts) before after
          (matchhere_complete (r ∷ re) after b))
]

-- `match` returns 1 just for a text in which the pattern occurs, read with `.` for any character, `c*`
-- for any number of `c`, `$` at the end for the end of the text, and `^` at its start for the start
-- of the text.
pub match_text_lem : (re text : List ℕ) → (match_text re text ≡ true) ↔ Occurs re text
match_text_lem re text = (match_text_sound re text, match_text_complete re text)
