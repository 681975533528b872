-- ===== src/Names/Split.antt =====
-- The names of a path, one `skipelem` after the other, against the path split at its slashes.
use xv.Prelude.{
  ℕ, zero, suc, ◌≤◌, ◌<◌, ◌≡◌, refl, sym, ap, ◌∙◌, Bool, true, false, none, some, List, [], ◌∷◌,
  arith, ◌==◌, if◌then◌else◌, Bool-cases, take, map, length, inl, inr, ◌⊎◌,
}
use xv.Names.{Text, slash, dirsiz, skip_slashes, scan_elem, skipelem, ends_here}

abbrev longer : ℕ → List Text → List Text
longer c [] = []
longer c (w ∷ ws) = (c ∷ w) ∷ ws

-- Before the first slash, between the slashes, and after the last.
pub fields : Text → List Text
fields [] = [] ∷ []
fields (c ∷ s) = if c == slash then [] ∷ fields s else longer c (fields s)

-- The texts of the list that are not empty.
pub nonempty : List Text → List Text
nonempty [] = []
nonempty ([] ∷ ws) = nonempty ws
nonempty ((c ∷ w) ∷ ws) = (c ∷ w) ∷ nonempty ws

-- The names that `skipelem` gives for the path, at most so many.
unfoldable pub names : ℕ → Text → List Text
names zero path = []
names (suc fuel) path = elim (skipelem path) [
  | none ↦ []
  | some (name, rest) ↦ name ∷ names fuel rest
]

fields-skip_slashes : (s : Text) → nonempty (fields (skip_slashes s)) ≡ nonempty (fields s)
unfolding fields skip_slashes nonempty
fields-skip_slashes [] = refl
fields-skip_slashes (c ∷ s) = elim (Bool-cases (c == slash)) [
  | inl here ↦ rw here (fields-skip_slashes s)
  | inr other ↦ rw other (rw other refl)
]

-- The first field is what `scan_elem` passes over.
fields-scan_elem :
    (s : Text)
    → (ws : List Text) × (fields s ≡ (scan_elem s).0 ∷ ws)
      × (nonempty ws ≡ nonempty (fields (scan_elem s).1))
unfolding fields scan_elem nonempty
fields-scan_elem [] = ([], refl, refl)
fields-scan_elem (c ∷ s) = elim (Bool-cases (c == slash)) [
  | inl here ↦ (fields s, rw here refl, rw here (rw here refl))
  | inr other ↦ let (ws, e, same) = fields-scan_elem s in (ws, rw (other, e) refl, rw other same)
]

length-skip_slashes : (s : Text) → length (skip_slashes s) ≤ length s
unfolding skip_slashes
length-skip_slashes [] = omega arith
length-skip_slashes (c ∷ s) = elim (Bool-cases (c == slash)) [
  | inl here ↦ rw here (omega (arith, length-skip_slashes s))
  | inr other ↦ rw other (omega arith)
]

length-scan_elem : (s : Text) → length (scan_elem s).1 ≤ length s
unfolding scan_elem
length-scan_elem [] = omega arith
length-scan_elem (c ∷ s) = elim (Bool-cases (c == slash)) [
  | inl here ↦ rw here (omega arith)
  | inr other ↦ rw other (omega (arith, length-scan_elem s))
]

-- What is left of leading slashes starts with another character.
skip_slashes-head : (s : Text) (c : ℕ) (t : Text) → skip_slashes s ≡ c ∷ t → (c == slash) ≡ false
unfolding skip_slashes
skip_slashes-head [] c t e = cc
skip_slashes-head (d ∷ s) c t e = elim (Bool-cases (d == slash)) [
  | inl here ↦ skip_slashes-head s c t (rw here at e)
  | inr other ↦
      let both : d ∷ s ≡ c ∷ t = rw other at e in
      let eq : d ≡ c = cc in ap (λ x. x == slash) (sym eq) ∙ other
]

scan_elem-cons :
    (c : ℕ) (s : Text)
    → (c == slash) ≡ false
    → ((scan_elem (c ∷ s)).0 ≡ c ∷ (scan_elem s).0) × ((scan_elem (c ∷ s)).1 ≡ (scan_elem s).1)
unfolding scan_elem
scan_elem-cons c s e = (rw e refl, rw e refl)

abbrev pub no_names : List Text → Bool
no_names [] = true
no_names (w ∷ ws) = false

-- Behind the slashes nothing is left exactly where no field that is not empty is left.
skip_slashes-ends :
    (t : Text) → ends_here (skip_slashes t) ≡ no_names (nonempty (fields (skip_slashes t)))
unfolding nonempty fields
skip_slashes-ends t = from (skip_slashes t) refl
  where
    from : (u : Text) → skip_slashes t ≡ u → ends_here u ≡ no_names (nonempty (fields u))
    from [] e = refl
    from (c ∷ s) e =
        let (at_word, at_rest) = scan_elem-cons c s (skip_slashes-head t c s e) in
        let (ws, split, same) = fields-scan_elem (c ∷ s) in
        sym (ap (λ x. no_names (nonempty x)) (split ∙ ap (λ w. w ∷ ws) at_word))

-- `skipelem` finds no name where all fields are empty; otherwise it gives the first field that is not, cut to
-- `DIRSIZ` characters, and a shorter path that has the other fields.
abbrev Skipped : Text → Type 0
Skipped path =
    ((skipelem path ≡ none) × (nonempty (fields path) ≡ []))
    ⊎ ((word : Text) × (rest : Text) × (skipelem path ≡ some (take dirsiz word, rest))
        × (nonempty (fields path) ≡ word ∷ nonempty (fields rest))
        × (ends_here rest ≡ no_names (nonempty (fields rest)))
        × (length rest < length path))

skipelem-none : (path : Text) → skip_slashes path ≡ [] → Skipped path
unfolding skipelem fields nonempty
skipelem-none path e =
    inl (rw (skipelem, e) refl, sym (fields-skip_slashes path) ∙ ap (λ t. nonempty (fields t)) e)

skipelem-some : (path : Text) (c : ℕ) (s : Text) → skip_slashes path ≡ c ∷ s → Skipped path
unfolding skipelem nonempty
skipelem-some path c s e =
    let no_slash = skip_slashes-head path c s e in
    let (at_word, at_rest) = scan_elem-cons c s no_slash in
    let (ws, split, same) = fields-scan_elem (c ∷ s) in
    let at_w = ap (λ t. (scan_elem t).0) e ∙ at_word in
    let at_r = ap (λ t. (scan_elem t).1) e ∙ at_rest in
    let word : Text = c ∷ (scan_elem s).0 in
    let first : fields (c ∷ s) ≡ word ∷ ws = split ∙ ap (λ w. w ∷ ws) at_word in
    inr (
      word,
      skip_slashes (scan_elem s).1,
      rw (skipelem, e, at_w, at_r) refl,
      sym (fields-skip_slashes path)
          ∙ ap (λ t. nonempty (fields t)) e
          ∙ ap nonempty first
          ∙ ap (λ t. word ∷ t)
              (same
                ∙ ap (λ t. nonempty (fields t)) at_rest
                ∙ sym (fields-skip_slashes (scan_elem s).1)),
      skip_slashes-ends (scan_elem s).1,
      omega (
        arith,
        length-skip_slashes (scan_elem s).1,
        length-scan_elem s,
        length-skip_slashes path,
        ap length e,
      ),
    )

pub skipelem-Skipped : (path : Text) → Skipped path
skipelem-Skipped path = from (skip_slashes path) refl
  where
    from : (t : Text) → skip_slashes path ≡ t → Skipped path
    from [] e = skipelem-none path e
    from (c ∷ s) e = skipelem-some path c s e

-- The names that `skipelem` gives, one after the other, for a path are the parts of the path between its slashes
-- that are not empty, in order and each cut to `DIRSIZ` characters. As many rounds as the path has
-- characters and one more are enough.
pub names-fields :
    (fuel : ℕ) (path : Text)
    → length path < fuel
    → names fuel path ≡ map (take dirsiz) (nonempty (fields path))
unfolding names
names-fields zero path enough = absurd (omega arith)
names-fields (suc fuel) path enough = elim (skipelem-Skipped path) [
  | inl (e, empty) ↦ rw (names, e, empty) refl
  | inr (word, rest, e, split, ends, shorter) ↦
      let later = names-fields fuel rest (omega (arith, shorter)) in
      rw (names, e, split, later) refl
]
