-- ===== src/Grep.antt =====
-- user/grep.c: the matcher. A string is the list of its characters before the NUL.
pub mod Language
mod Tests
use xv.Prelude.{ℕ, Bool, true, false, ◌&&◌, ◌||◌, List, [], ◌∷◌, ◌==◌, if◌then◌else◌}

-- `'.'`, `'*'`, `'$'` and `'^'`
abbrev pub dot : ℕ
dot = 46

abbrev pub star : ℕ
star = 42

abbrev pub dollar : ℕ
dollar = 36

abbrev pub caret : ℕ
caret = 94

pub at_end : List ℕ → Bool
at_end [] = true
at_end (t ∷ ts) = false

-- `matchstar(c, re, text)`, where `here` is `matchhere` on `re`
pub matchstar : ℕ → (List ℕ → Bool) → List ℕ → Bool
matchstar c here [] = here []
matchstar c here (t ∷ ts) = here (t ∷ ts) || ((t == c || c == dot) && matchstar c here ts)

-- The last test of `matchhere`, for the character `r`, where `here` is `matchhere` on what follows.
pub matchone : ℕ → (List ℕ → Bool) → List ℕ → Bool
matchone r here [] = false
matchone r here (t ∷ ts) = (r == dot || r == t) && here ts

pub matchhere : List ℕ → List ℕ → Bool
unfolding matchstar matchone at_end
matchhere [] text = true
matchhere (r ∷ []) text = if r == dollar then at_end text else matchone r (λ ts. true) text
matchhere (r ∷ s ∷ re) text =
    if s == star
    then matchstar r (λ ts. matchhere re ts) text
    else matchone r (λ ts. matchhere (s ∷ re) ts) text

-- The loop of `match`.
pub match_loop : (List ℕ → Bool) → List ℕ → Bool
match_loop here [] = here []
match_loop here (t ∷ ts) = here (t ∷ ts) || match_loop here ts

pub match_text : List ℕ → List ℕ → Bool
unfolding match_loop matchhere
match_text [] text = match_loop (λ ts. matchhere [] ts) text
match_text (r ∷ re) text =
    if r == caret then matchhere re text else match_loop (λ ts. matchhere (r ∷ re) ts) text
