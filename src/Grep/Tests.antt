-- ===== src/Grep/Tests.antt =====
-- The matcher at work on a concrete text.
use xv.Prelude.{◌≡◌, refl, ◌↔◌, true, [], ◌∷◌}
use xv.Grep.{match_text, matchhere, matchstar, matchone, at_end}
use xv.Grep.Language.{Occurs, match_text_lem}

-- `^a.*c$` in `abbc`
match_text_lem_example :
    (match_text (94 ∷ 97 ∷ 46 ∷ 42 ∷ 99 ∷ 36 ∷ []) (97 ∷ 98 ∷ 98 ∷ 99 ∷ []) ≡ true)
    ↔ Occurs (94 ∷ 97 ∷ 46 ∷ 42 ∷ 99 ∷ 36 ∷ []) (97 ∷ 98 ∷ 98 ∷ 99 ∷ [])
match_text_lem_example = match_text_lem (94 ∷ 97 ∷ 46 ∷ 42 ∷ 99 ∷ 36 ∷ []) (97 ∷ 98 ∷ 98 ∷ 99 ∷ [])

found : match_text (94 ∷ 97 ∷ 46 ∷ 42 ∷ 99 ∷ 36 ∷ []) (97 ∷ 98 ∷ 98 ∷ 99 ∷ []) ≡ true
unfolding match_text matchhere matchstar matchone at_end
found = refl
