-- ===== src/Itable/Life.antt =====
-- When `iput` frees an inode on disk.
use xv.Prelude.{
  ℕ, ◌-◌, ◌≡◌, refl, ap, ◌∙◌, ◌≢◌, ◌⊎◌, inl, inr, Bool, true, false, ◌&&◌, arith, ◌==◌, Bool-cases,
  update,
}
use xv.Itable.{Itable, Dinodes, iupdate, iput, destroy, drop_ref, truncated}

iupdate_self :
    (i : ℕ) (t : Itable) (disk : Dinodes) (d n : ℕ)
    → d ≡ (t i).dev
    → n ≡ (t i).inum
    → iupdate i t disk d n ≡ (t i).copy
unfolding iupdate
iupdate_self i t disk d n ed en =
    let here : (d == (t i).dev) ≡ true = ground arith in
    let there : (n == (t i).inum) ≡ true = ground arith in rw here (rw there refl)

iupdate_ne :
    (i : ℕ) (t : Itable) (disk : Dinodes) (d n : ℕ)
    → (d ≢ (t i).dev) ⊎ (n ≢ (t i).inum)
    → iupdate i t disk d n ≡ disk d n
unfolding iupdate
iupdate_ne i t disk d n ne = elim (Bool-cases (d == (t i).dev)) [
  | inl here ↦
      let eq : (t i).dev ≡ d = ground arith in
      let there : (n == (t i).inum) ≡ false = ground arith in
      rw here (rw there (ap (λ x. disk x n) eq))
  | inr other ↦ rw other refl
]

-- The condition of `iput` for the last reference to an inode without links.
abbrev is_dead : Itable → ℕ → Bool
is_dead t i = (t i).ref == 1 && ((t i).valid && (t i).copy.nlink == 0)

-- `iput` drops one reference of the entry and leaves the other entries. If that was the last reference
-- to a valid inode without links, the inode on disk gets type 0 and size 0, and the entry is no longer
-- valid; every other inode on disk stays. Otherwise the whole disk stays.
pub iput_lem :
    (i : ℕ) (t : Itable) (disk : Dinodes)
    → ((((iput i t disk).0) i).ref ≡ (t i).ref - 1)
      × ((k : ℕ) → k ≢ i → (iput i t disk).0 k ≡ t k)
      × ((((t i).ref ≡ 1)
            × ((t i).valid ≡ true)
            × ((t i).copy.nlink ≡ 0)
            × (((iput i t disk).0 i).valid ≡ false)
            × (((iput i t disk).1 (t i).dev (t i).inum).type ≡ 0)
            × (((iput i t disk).1 (t i).dev (t i).inum).size ≡ 0)
            × ((d n : ℕ) → (d ≢ (t i).dev) ⊎ (n ≢ (t i).inum) → (iput i t disk).1 d n ≡ disk d n))
          ⊎ ((((t i).ref ≢ 1) ⊎ (((t i).valid ≡ false) ⊎ ((t i).copy.nlink ≢ 0)))
              × ((iput i t disk).1 ≡ disk)))
unfolding iput destroy drop_ref
iput_lem i t disk =
    let self : (i == i) ≡ true = ground arith in
    elim (Bool-cases (is_dead t i)) [
      | inl dead ↦
          let erased : Itable =
            update t i (record (t i) { copy = record (truncated (t i).copy) { type = 0 } }) in
          let dev_same : (t i).dev ≡ (erased i).dev = rw self refl in
          let inum_same : (t i).inum ≡ (erased i).inum = rw self refl in
          let at = iupdate_self i erased disk (t i).dev (t i).inum dev_same inum_same in
          rw dead (
            rw self refl,
            λ k ne. (let other : (k == i) ≡ false = ground arith in rw other refl),
            inl (
              ground arith,
              ground arith,
              ground arith,
              rw self refl,
              ap (λ x. x.type) at ∙ rw self refl,
              ap (λ x. x.size) at ∙ rw self refl,
              λ d n ne. iupdate_ne i erased disk d n (ground (arith, dev_same, inum_same)),
            ),
          )
      | inr alive ↦ rw alive (
        rw self refl,
        λ k ne. (let other : (k == i) ≡ false = ground arith in rw other refl),
        inr (ground arith, refl),
      )
    ]
