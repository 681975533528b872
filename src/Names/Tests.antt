-- ===== src/Names/Tests.antt =====
-- Paths and directories.
use xv.Prelude.{ℕ, ◌≡◌, refl, true, false, some, [], ◌∷◌, arith, ◌==◌, if◌then◌else◌, take, map}
use xv.Names.{Text, Tree, dirsiz, namex, skipelem}
use xv.Names.Split.{names, nonempty, fields, names-fields}
use xv.Names.Resolve.{namex_lem, resolve, names_of, with_result}

-- "//a/bb/"
abbrev path : Text
path = 47 ∷ 47 ∷ 97 ∷ 47 ∷ 98 ∷ 98 ∷ 47 ∷ []

names-fields_example : names 8 path ≡ map (take dirsiz) (nonempty (fields path))
names-fields_example = names-fields 8 path (omega arith)

names_runs : names 8 path ≡ (97 ∷ []) ∷ (98 ∷ 98 ∷ []) ∷ []
unfolding names skipelem
names_runs = refl

-- The root 1 has "a", the directory 2, and that has "bb", the file 3.
abbrev small_tree : Tree
small_tree = record {
  is_dir = λ i. if i == 3 then false else true;
  entries = λ i.
      if i == 1
      then record { inum = 0; name = 98 ∷ 98 ∷ [] } ∷ record { inum = 2; name = 97 ∷ [] } ∷ []
      else record { inum = 3; name = 98 ∷ 98 ∷ [] } ∷ [];
}

namex_lem_example :
    ((namex small_tree true 1 7 path (λ i. 0)).0 ≡ resolve small_tree true 1 (names_of path))
    × ((i : ℕ)
        → (namex small_tree true 1 7 path (λ i. 0)).1 i
          ≡ with_result (namex small_tree true 1 7 path (λ i. 0)).0 (λ i. 0) i)
namex_lem_example = namex_lem small_tree true 1 7 path (λ i. 0)

file_found : (namex small_tree false 1 7 path (λ i. 0)).0 ≡ some 3
unfolding namex
file_found = refl

parent_found : (namex small_tree true 1 7 path (λ i. 0)).0 ≡ some 2
unfolding namex
parent_found = refl
