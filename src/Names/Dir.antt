-- ===== src/Names/Dir.antt =====
-- `dirlink` and `dirlookup` on the entries of a directory.
use xv.Prelude.{
  ℕ, zero, suc, ◌≡◌, refl, ap, ◌≢◌, ◌⊎◌, inl, inr, true, false, none, some, Option-cases, List, [],
  ◌∷◌, arith, ◌==◌, Bool-cases, take,
}
use xv.Prelude.Int.{pos, negsuc}
use xv.Names.{Text, Dirent, dirsiz, same_name, namecmp, dirlookup, put_entry, dirlink}

take-take : (n : ℕ) (s : Text) → take n (take n s) ≡ take n s
take-take zero s = refl
take-take (suc n) [] = refl
take-take (suc n) (c ∷ s) = ap (λ t. c ∷ t) (take-take n s)

same_name_refl : (s : Text) → same_name s s ≡ true
unfolding same_name
same_name_refl [] = refl
same_name_refl (c ∷ s) = ground (arith, same_name_refl s)

namecmp-take : (s t : Text) → namecmp s (take dirsiz t) ≡ namecmp s t
unfolding namecmp
namecmp-take s t = ap (same_name (take dirsiz s)) (take-take dirsiz t)

namecmp_refl : (s : Text) → namecmp s s ≡ true
unfolding namecmp
namecmp_refl s = same_name_refl (take dirsiz s)

-- The new entry is found under its name, if that was not there before.
dirlookup-put_entry_self :
    (dir : List Dirent) (name : Text) (inum : ℕ)
    → inum ≢ 0
    → dirlookup dir name ≡ none
    → dirlookup (put_entry dir (record { inum = inum; name = take dirsiz name })) name ≡ some inum
unfolding dirlookup put_entry
dirlookup-put_entry_self [] name inum nz e =
    let used : (inum == 0) ≡ false = ground arith in
    rw (used, namecmp-take name name, namecmp_refl name) refl
dirlookup-put_entry_self (de ∷ dir) name inum nz e =
    let used : (inum == 0) ≡ false = ground arith in
    elim (Bool-cases (de.inum == 0)) [
      | inl free ↦ rw free (rw (used, namecmp-take name name, namecmp_refl name) refl)
      | inr taken ↦ elim (Bool-cases (namecmp name de.name)) [
        | inl same ↦ (let bad : some de.inum ≡ none = rw (taken, same) at e in cc)
        | inr other ↦
            rw taken (
              rw (taken, other)
                (dirlookup-put_entry_self dir name inum nz (rw (taken, other) at e)))
      ]
    ]

-- Other names are found as before.
dirlookup-put_entry_ne :
    (dir : List Dirent) (name other : Text) (inum : ℕ)
    → namecmp other name ≡ false
    → dirlookup (put_entry dir (record { inum = inum; name = take dirsiz name })) other
      ≡ dirlookup dir other
unfolding dirlookup put_entry
dirlookup-put_entry_ne [] name other inum ne = elim (Bool-cases (inum == 0)) [
  | inl z ↦ rw z refl
  | inr nz ↦ rw (nz, namecmp-take other name, ne) refl
]
dirlookup-put_entry_ne (de ∷ dir) name other inum ne = elim (Bool-cases (de.inum == 0)) [
  | inl free ↦ rw free (elim (Bool-cases (inum == 0)) [
    | inl z ↦ rw z refl
    | inr nz ↦ rw (nz, namecmp-take other name, ne) refl
  ])
  | inr taken ↦ rw taken (elim (Bool-cases (namecmp other de.name)) [
    | inl same ↦ rw (taken, same) refl
    | inr apart ↦ rw (taken, apart) (dirlookup-put_entry_ne dir name other inum ne)
  ])
]

-- `dirlink` of a name that the directory has fails and changes nothing. Otherwise it returns 0, and then the
-- directory has the name, with the inode number that was given if it is not 0, and finds every name
-- that differs within the first `DIRSIZ` characters as before.
pub dirlink_lem :
    (dir : List Dirent) (name : Text) (inum : ℕ)
    → inum ≢ 0
    → ((found : ℕ) × (dirlookup dir name ≡ some found) × (dirlink dir name inum ≡ (negsuc 0, dir)))
      ⊎ ((dirlookup dir name ≡ none)
          × ((new : List Dirent) × (dirlink dir name inum ≡ (pos 0, new))
              × (dirlookup new name ≡ some inum)
              × ((other : Text)
                  → namecmp other name ≡ false
                  → dirlookup new other ≡ dirlookup dir other)))
unfolding dirlink
dirlink_lem dir name inum nz = elim (Option-cases (dirlookup dir name)) [
  | inr (found, e) ↦ inl (found, e, rw (dirlink, e) refl)
  | inl e ↦ inr (
    e,
    (
      put_entry dir (record { inum = inum; name = take dirsiz name }),
      rw (dirlink, e) refl,
      dirlookup-put_entry_self dir name inum nz e,
      λ other ne. dirlookup-put_entry_ne dir name other inum ne,
    ),
  )
]
