-- ===== src/Names/Resolve.antt =====
-- `namex` against the names of the path looked up one after the other, and the references that it takes.
use xv.Prelude.{
  ℕ, zero, suc, ◌+◌, ◌<◌, ◌≡◌, refl, inl, inr, Bool, not, ◌&&◌, Option, none, some, Option-cases,
  List, [], ◌∷◌, arith, ◌==◌, if◌then◌else◌, Bool-cases, take, map, length,
}
use xv.Names.{
  Text, Tree, Refs, dirsiz, dirlookup, namex, namex_loop, get_ref, put_ref, starts_at_root,
}
use xv.Names.Split.{fields, nonempty, skipelem-Skipped, no_names}

-- The inode that the names lead to from `ip`, or the directory of the last of them.
pub resolve : Tree → Bool → ℕ → List Text → Option ℕ
resolve fs parent ip [] = if parent then none else some ip
resolve fs parent ip (name ∷ ns) =
    if not (fs.is_dir ip)
    then none
    else if parent && no_names ns
    then some ip
    else elim (dirlookup (fs.entries ip) name) [
      | none ↦ none
      | some next ↦ resolve fs parent next ns
    ]

-- The names of a path.
abbrev pub names_of : Text → List Text
names_of path = map (take dirsiz) (nonempty (fields path))

-- One more reference to the inode of the result.
abbrev pub with_result : Option ℕ → Refs → ℕ → ℕ
with_result none refs i = refs i
with_result (some j) refs i = if i == j then refs i + 1 else refs i

no_names-map : (ws : List Text) → no_names (map (take dirsiz) ws) ≡ no_names ws
no_names-map [] = refl
no_names-map (w ∷ ws) = refl

-- What the loop of `namex` returns from `ip`, one reference to which it was given.
abbrev Resolved : Tree → Bool → ℕ → List Text → Refs → Option ℕ × Refs → Type 0
Resolved fs parent ip ns base out =
    (out.0 ≡ resolve fs parent ip ns) × ((i : ℕ) → out.1 i ≡ with_result out.0 base i)

module _ (fs : Tree) (parent : Bool) where
  drop_ref :
      (ip : ℕ) (base refs : Refs)
      → ((i : ℕ) → refs i ≡ with_result (some ip) base i)
      → (i : ℕ) → put_ref ip refs i ≡ base i
  unfolding put_ref
  drop_ref ip base refs start i = ground (arith, start i)

  next_ref :
      (ip next : ℕ) (base refs : Refs)
      → ((i : ℕ) → refs i ≡ with_result (some ip) base i)
      → (i : ℕ) → put_ref ip (get_ref next refs) i ≡ with_result (some next) base i
  unfolding put_ref get_ref
  next_ref ip next base refs start i = ground (arith, start i)

  namex_loop-Resolved :
      (fuel ip : ℕ) (path : Text) (base refs : Refs)
      → length path < fuel
      → ((i : ℕ) → refs i ≡ with_result (some ip) base i)
      → Resolved fs parent ip (names_of path) base (namex_loop fuel fs parent ip path refs)
  unfolding namex_loop resolve
  namex_loop-Resolved zero ip path base refs enough start = absurd (omega arith)
  namex_loop-Resolved (suc fuel) ip path base refs enough start = elim (skipelem-Skipped path) [
    | inl (e, empty) ↦
        rw (namex_loop, e, empty)
          (elim (Bool-cases parent) [
            | inl up ↦ rw up (refl, drop_ref ip base refs start)
            | inr down ↦ rw down (refl, start)
          ])
    | inr (word, rest, e, split, ends, shorter) ↦
        let last = no_names-map (nonempty (fields rest)) in
        rw (namex_loop, e, split, ends, last)
          (elim (Bool-cases (fs.is_dir ip)) [
            | inl dir ↦ rw dir (elim (Bool-cases (parent && no_names (nonempty (fields rest)))) [
              | inl stop ↦ rw stop (refl, start)
              | inr on ↦ rw on (elim (Option-cases (dirlookup (fs.entries ip) (take dirsiz word))) [
                | inl missing ↦ rw missing (refl, drop_ref ip base refs start)
                | inr (next, found) ↦ rw found (
                    namex_loop-Resolved fuel next rest base (put_ref ip (get_ref next refs))
                      (omega (arith, shorter)) (next_ref ip next base refs start))
              ])
            ])
            | inr no_dir ↦ rw no_dir (refl, drop_ref ip base refs start)
          ])
  ]

first_ref : (ip : ℕ) (refs : Refs) (i : ℕ) → get_ref ip refs i ≡ with_result (some ip) refs i
unfolding get_ref
first_ref ip refs i = ground arith

-- `namex` gives the inode that the names of the path lead to: from the root if the path starts with a slash and
-- from the current directory otherwise, through directories only, each name looked up in turn; with
-- `nameiparent` it is the directory in which the last name would be looked up, and none if there is
-- no name. On every branch, the failing ones too, it leaves the references as they were, but for one
-- to the inode that it returns.
pub namex_lem :
    (fs : Tree) (parent : Bool) (root cwd : ℕ) (path : Text) (refs : Refs)
    → ((namex fs parent root cwd path refs).0
        ≡ resolve fs parent (if starts_at_root path then root else cwd) (names_of path))
      × ((i : ℕ)
          → (namex fs parent root cwd path refs).1 i
            ≡ with_result (namex fs parent root cwd path refs).0 refs i)
unfolding namex
namex_lem fs parent root cwd path refs =
    let ip = if starts_at_root path then root else cwd in
    namex_loop-Resolved fs parent (length path + 1) ip path refs (get_ref ip refs) (omega arith)
      (first_ref ip refs)
