-- ===== src/Itable/Get.antt =====
-- `iget`: one entry for each inode.
use xv.Prelude.{
  ℕ, zero, suc, ◌+◌, ◌<◌, ◌≡◌, refl, ◌≢◌, ◌⊎◌, inl, inr, true, false, Option, none, some, arith,
  ◌==◌, Bool-cases,
}
use mathlib.Core.Path.{subst}
use xv.Panic.{ok, panic}
use xv.Itable.{
  Itable, Scan, found, missing, ninode, is_inode, remember, iget_loop, iget, add_ref, recycle,
}

-- Below `i`, the first empty entry, or none where there is none.
abbrev pub FirstEmpty : Itable → ℕ → Option ℕ → Type 0
FirstEmpty t i none = (k : ℕ) → k < i → (t k).ref ≢ 0
FirstEmpty t i (some j) = (j < i) × ((t j).ref ≡ 0) × ((k : ℕ) → k < j → (t k).ref ≢ 0)

abbrev pub Missing : (dev inum : ℕ) → Itable → ℕ → Type 0
Missing dev inum t i = (k : ℕ) → k < i → is_inode dev inum t k ≡ false

-- What the loop finds.
abbrev Scanned : (dev inum : ℕ) → Itable → Scan → Type 0
Scanned dev inum t (found j) = (j < ninode) × (is_inode dev inum t j ≡ true)
Scanned dev inum t (missing empty) = Missing dev inum t ninode × FirstEmpty t ninode empty

remember-FirstEmpty :
    (t : Itable) (i : ℕ) (empty : Option ℕ)
    → FirstEmpty t i empty
    → FirstEmpty t (i + 1) (remember empty i t)
unfolding remember
remember-FirstEmpty t i (some j) first = (omega (arith, first.0), first.1, first.2)
remember-FirstEmpty t i none first = elim (Bool-cases ((t i).ref == 0)) [
  | inl free ↦ rw free (omega arith, ground arith, first)
  | inr taken ↦ rw taken (λ k lt. elim (Bool-cases (k == i)) [
    | inl here ↦
        let eq : i ≡ k = ground arith in
        let at : (t i).ref ≢ 0 = ground arith in subst (λ x. (t x).ref ≢ 0) eq at
    | inr other ↦ first k (ground arith)
  ])
]

iget_loop-Scanned :
    (left i dev inum : ℕ) (empty : Option ℕ) (t : Itable)
    → left + i ≡ ninode
    → Missing dev inum t i
    → FirstEmpty t i empty
    → Scanned dev inum t (iget_loop left i dev inum empty t)
unfolding iget_loop
iget_loop-Scanned zero i dev inum empty t e miss first =
    let at : i ≡ ninode = omega (arith, e) in
    (subst (Missing dev inum t) at miss, subst (λ x. FirstEmpty t x empty) at first)
iget_loop-Scanned (suc left) i dev inum empty t e miss first =
    elim (Bool-cases (is_inode dev inum t i)) [
      | inl here ↦ rw here (omega (arith, e), here)
      | inr other ↦ rw other (
          iget_loop-Scanned left (i + 1) dev inum (remember empty i t) t (omega (arith, e))
            (λ k lt. elim (Bool-cases (k == i)) [
              | inl same ↦
                  (let eq : i ≡ k = ground arith in
                    subst (λ x. is_inode dev inum t x ≡ false) eq other)
              | inr before ↦ miss k (ground arith)
            ])
            (remember-FirstEmpty t i empty first))
    ]

-- No inode has two entries with references.
abbrev pub IsTable : Itable → Type 0
IsTable t =
    (i j : ℕ)
    → i < ninode
    → j < ninode
    → (t i).ref ≢ 0
    → (t j).ref ≢ 0
    → (t i).dev ≡ (t j).dev
    → (t i).inum ≡ (t j).inum
    → i ≡ j

add_ref-IsTable :
    (dev inum i : ℕ) (t : Itable) → is_inode dev inum t i ≡ true → IsTable t → IsTable (add_ref i t)
unfolding add_ref is_inode
add_ref-IsTable dev inum i t is v j k lj lk rj rk ed ei = ground (arith, v j k lj lk)

recycle-IsTable :
    (dev inum i : ℕ) (t : Itable)
    → Missing dev inum t ninode
    → IsTable t
    → IsTable (recycle dev inum i t)
unfolding recycle is_inode
recycle-IsTable dev inum i t miss v j k lj lk rj rk ed ei =
    ground (arith, v j k lj lk, miss j lj, miss k lk)

-- Entry `i` of `t'` is that of `t` with one more reference; the others stay.
pub record IsCounted (i : ℕ) (t t' : Itable) : Type 0 where
  pub ref : (t' i).ref ≡ (t i).ref + 1
  pub dev : (t' i).dev ≡ (t i).dev
  pub inum : (t' i).inum ≡ (t i).inum
  pub valid : (t' i).valid ≡ (t i).valid
  pub lock : (t' i).lock ≡ (t i).lock
  pub copy : (t' i).copy ≡ (t i).copy
  pub others : (k : ℕ) → k ≢ i → t' k ≡ t k

-- Entry `i` of `t'` is given to the inode, still to be read; the others stay.
pub record IsGiven (dev inum i : ℕ) (t t' : Itable) : Type 0 where
  pub ref : (t' i).ref ≡ 1
  pub valid : (t' i).valid ≡ false
  pub has_dev : (t' i).dev ≡ dev
  pub has_inum : (t' i).inum ≡ inum
  pub lock : (t' i).lock ≡ (t i).lock
  pub others : (k : ℕ) → k ≢ i → t' k ≡ t k

add_ref-IsCounted : (i : ℕ) (t : Itable) → IsCounted i t (add_ref i t)
unfolding add_ref
add_ref-IsCounted i t =
    let self : (i == i) ≡ true = ground arith in
    record {
      ref = rw self refl;
      dev = rw self refl;
      inum = rw self refl;
      valid = rw self refl;
      lock = rw self refl;
      copy = rw self refl;
      others = λ k ne. (let other : (k == i) ≡ false = ground arith in rw other refl);
    }

recycle-IsGiven : (dev inum i : ℕ) (t : Itable) → IsGiven dev inum i t (recycle dev inum i t)
unfolding recycle
recycle-IsGiven dev inum i t =
    let self : (i == i) ≡ true = ground arith in
    record {
      ref = rw self refl;
      valid = rw self refl;
      has_dev = rw self refl;
      has_inum = rw self refl;
      lock = rw self refl;
      others = λ k ne. (let other : (k == i) ≡ false = ground arith in rw other refl);
    }

-- In a table in which no inode has two entries with references, `iget` does one of three things. If an entry
-- with references has the inode, it takes that one and adds 1 to its references, with the rest of
-- it as before. If none has it and an entry is without references, it takes the first of these: that
-- one then has the device and the number of the inode, is not valid, has one reference and its lock
-- as before. If all entries have references, to other inodes, it panics. In the first two cases the
-- other entries stay, and still no inode has two entries with references.
pub iget_lem :
    (dev inum : ℕ) (t : Itable)
    → IsTable t
    → ((i : ℕ) × (i < ninode)
        × (is_inode dev inum t i ≡ true)
        × (iget dev inum t ≡ ok (i, add_ref i t))
        × IsTable (add_ref i t)
        × IsCounted i t (add_ref i t))
      ⊎ (Missing dev inum t ninode
          × (((i : ℕ) × FirstEmpty t ninode (some i)
                × (iget dev inum t ≡ ok (i, recycle dev inum i t))
                × IsTable (recycle dev inum i t)
                × IsGiven dev inum i t (recycle dev inum i t))
              ⊎ (((k : ℕ) → k < ninode → (t k).ref ≢ 0)
                  × (iget dev inum t ≡ panic "iget: no inodes"))))
unfolding iget
iget_lem dev inum t v = from (iget_loop ninode 0 dev inum none t) refl (
    iget_loop-Scanned ninode 0 dev inum none t refl (λ k lt. absurd (omega arith))
      (λ k lt. absurd (omega arith)))
  where
    from :
        (r : Scan)
        → iget_loop ninode 0 dev inum none t ≡ r
        → Scanned dev inum t r
        → ((i : ℕ) × (i < ninode)
            × (is_inode dev inum t i ≡ true)
            × (iget dev inum t ≡ ok (i, add_ref i t))
            × IsTable (add_ref i t)
            × IsCounted i t (add_ref i t))
          ⊎ (Missing dev inum t ninode
              × (((i : ℕ) × FirstEmpty t ninode (some i)
                    × (iget dev inum t ≡ ok (i, recycle dev inum i t))
                    × IsTable (recycle dev inum i t)
                    × IsGiven dev inum i t (recycle dev inum i t))
                  ⊎ (((k : ℕ) → k < ninode → (t k).ref ≢ 0)
                      × (iget dev inum t ≡ panic "iget: no inodes"))))
    from (found i) e (lt, is) =
        inl (i, lt, is, rw (iget, e) refl, add_ref-IsTable dev inum i t is v, add_ref-IsCounted i t)
    from (missing none) e (miss, full) = inr (miss, inr (full, rw (iget, e) refl))
    from (missing (some i)) e (miss, first) = inr (
      miss,
      inl (
        i,
        first,
        rw (iget, e) refl,
        recycle-IsTable dev inum i t miss v,
        recycle-IsGiven dev inum i t,
      ),
    )
