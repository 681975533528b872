-- ===== src/File/Alloc.antt =====
-- What `filealloc`, `fdalloc`, `filedup` and `fileclose` do to the entries, and how descriptors are counted.
use xv.Panic.{ok}
use xv.Prelude.{
  ℕ, zero, suc, ◌+◌, ◌-◌, ◌≤◌, ◌<◌, ◌≡◌, refl, ap, ◌∙◌, ◌≢◌, inl, inr, Bool, true, false, Option,
  none, some, ltb, ◌==◌, if◌then◌else◌, update, arith, Bool-cases, Option-cases,
}
use xv.File.{
  FileType, nfile, nofile, File, Files, filealloc_loop, filealloc, filedup, fileclose, fdalloc_loop,
  fdalloc,
}

abbrev pub refers : Option ℕ → ℕ → ℕ
refers none i = 0
refers (some f) i = if f == i then 1 else 0

-- How many of the first `n` descriptors refer to entry `i`.
abbrev pub count : (ℕ → Option ℕ) → ℕ → ℕ → ℕ
count o i zero = 0
count o i (suc n) = refers (o n) i + count o i n

-- `others i` references to entry `i` are not this process's.
pub record IsCounted (others : ℕ → ℕ) (s : Files) : Type 0 where
  pub counted : (i : ℕ) → i < nfile → (s.file i).ref ≡ count (s.ofile) i nofile + others i
  pub in_table : (fd f : ℕ) → fd < nofile → s.ofile fd ≡ some f → f < nfile

count-update_other :
    (o : ℕ → Option ℕ) (i n fd : ℕ) (v : Option ℕ)
    → n ≤ fd
    → count (update o fd v) i n ≡ count o i n
count-update_other o i zero fd v le = refl
count-update_other o i (suc n) fd v le =
    let e : (n == fd) ≡ false = ground arith in
    rw e (ap (λ k. refers (o n) i + k) (count-update_other o i n fd v (omega arith)))

-- A descriptor that is set anew.
pub count-update :
    (o : ℕ → Option ℕ) (i n fd : ℕ) (v : Option ℕ)
    → fd < n
    → count (update o fd v) i n + refers (o fd) i ≡ count o i n + refers v i
count-update o i zero fd v lt = absurd (omega arith)
count-update o i (suc n) fd v lt = elim (Bool-cases (n == fd)) [
  | inl here ↦
      let e : n ≡ fd = ground arith in
      let same = count-update_other o i n fd v (omega arith) in
      let at : refers (o n) i ≡ refers (o fd) i = ap (λ k. refers (o k) i) e in
      rw here (omega (arith, same, at))
  | inr other ↦ rw other (omega (arith, count-update o i n fd v (ground arith)))
]

abbrev pub Allocated : ℕ → ℕ → (ℕ → File) → Option (ℕ × (ℕ → File)) → Type 0
Allocated left f t none = (i : ℕ) → f ≤ i → i < f + left → (t i).ref ≢ 0
Allocated left f t (some (g, t')) =
    (g < f + left) × ((t g).ref ≡ 0) × (t' ≡ update t g (record (t g) { ref = 1 }))

filealloc_loop-Allocated :
    (left f : ℕ) (t : ℕ → File) → Allocated left f t (filealloc_loop left f t)
unfolding filealloc_loop
filealloc_loop-Allocated zero f t = λ i low high. absurd (omega arith)
filealloc_loop-Allocated (suc left) f t = elim (Bool-cases ((t f).ref == 0)) [
  | inl free ↦ rw free (omega arith, ground arith, refl)
  | inr taken ↦
      rw taken
        (next (filealloc_loop left (f + 1) t) (filealloc_loop-Allocated left (f + 1) t) taken)
]
  where
    next :
        (r : Option (ℕ × (ℕ → File)))
        → Allocated left (f + 1) t r
        → ((t f).ref == 0) ≡ false
        → Allocated (suc left) f t r
    next none h taken = λ i low high. elim (Bool-cases (i == f)) [
      | inl here ↦
          let e : i ≡ f = ground arith in let p = ap (λ k. (t k).ref) e in λ z. ground arith
      | inr later ↦ h i (ground arith) (omega arith)
    ]
    next (some (g, t')) (lt, free, e) taken = (omega arith, free, e)

abbrev pub Described : ℕ → ℕ → ℕ → (ℕ → Option ℕ) → Option (ℕ × (ℕ → Option ℕ)) → Type 0
Described left fd f o none = (i : ℕ) → fd ≤ i → i < fd + left → o i ≢ none
Described left fd f o (some (g, o')) = (g < fd + left) × (o g ≡ none) × (o' ≡ update o g (some f))

fdalloc_loop-Described :
    (left fd f : ℕ) (o : ℕ → Option ℕ) → Described left fd f o (fdalloc_loop left fd f o)
unfolding fdalloc_loop
fdalloc_loop-Described zero fd f o = λ i low high. absurd (omega arith)
fdalloc_loop-Described (suc left) fd f o = elim (Option-cases (o fd)) [
  | inl free ↦ rw (fdalloc_loop, free) (omega arith, free, refl)
  | inr (g, taken) ↦
      rw (fdalloc_loop, taken)
        (next (fdalloc_loop left (fd + 1) f o) (fdalloc_loop-Described left (fd + 1) f o) (o fd)
          taken refl)
]
  where
    next :
        (r : Option (ℕ × (ℕ → Option ℕ)))
        → Described left (fd + 1) f o r
        → (p : Option ℕ) → {g : ℕ} → p ≡ some g
        → o fd ≡ p
        → Described (suc left) fd f o r
    next none h p e q = λ i low high. elim (Bool-cases (i == fd)) [
      | inl here ↦ let at : i ≡ fd = ground arith in let k = ap o at in λ z. absurd cc
      | inr later ↦ h i (ground arith) (omega arith)
    ]
    next (some (g, o')) (lt, free, e) p q r = (omega arith, free, e)

pub fdalloc-Described : (f : ℕ) (o : ℕ → Option ℕ) → Described nofile 0 f o (fdalloc f o)
unfolding fdalloc
fdalloc-Described f o = fdalloc_loop-Described nofile 0 f o

pub filealloc-Allocated : (t : ℕ → File) → Allocated nfile 0 t (filealloc t)
unfolding filealloc
filealloc-Allocated t = filealloc_loop-Allocated nfile 0 t

pub filedup-ref :
    (f : ℕ) (t : ℕ → File)
    → 1 ≤ (t f).ref
    → filedup f t ≡ ok (update t f (record (t f) { ref = (t f).ref + 1 }))
unfolding filedup
filedup-ref f t pos = let e : ((t f).ref == 0) ≡ false = ground arith in rw e refl

-- `fileclose` of an entry in use takes one reference.
pub fileclose-ref :
    (f : ℕ) (t : ℕ → File)
    → 1 ≤ (t f).ref
    → (t' : ℕ → File) × (closed : Option File) × (fileclose f t ≡ ok (t', closed))
      × ((i : ℕ) → (t' i).ref ≡ (if i == f then (t i).ref - 1 else (t i).ref))
unfolding fileclose
fileclose-ref f t pos =
    let e : ((t f).ref == 0) ≡ false = ground arith in
    elim (Bool-cases (ltb 0 ((t f).ref - 1))) [
      | inl more ↦ (
        update t f (record (t f) { ref = (t f).ref - 1 }),
        none,
        rw (e, more) refl,
        λ i. elim (Bool-cases (i == f)) [
          | inl here ↦ let at : i ≡ f = ground arith in rw (here, at) refl
          | inr other ↦ rw other refl
        ],
      )
      | inr last ↦ (
        update t f (record (t f) { type = FileType.fd_none; ref = 0 }),
        some (record (t f) { ref = 0 }),
        rw (e, last) refl,
        λ i. elim (Bool-cases (i == f)) [
          | inl here ↦ let at : i ≡ f = ground arith in rw (here, at) (ground arith)
          | inr other ↦ rw other refl
        ],
      )
    ]

pub count_pos : (o : ℕ → Option ℕ) (n fd f : ℕ) → fd < n → o fd ≡ some f → 1 ≤ count o f n
count_pos o n fd f lt e =
    let one : refers (o fd) f ≡ 1 = ap (λ p. refers p f) e ∙ ground arith in
    omega (arith, count-update o f n fd none lt, one)

pub taken_ref :
    (t : ℕ → File) (f i : ℕ)
    → (update t f (record (t f) { ref = 1 }) i).ref ≡ (if i == f then 1 else (t i).ref)
taken_ref t f i = elim (Bool-cases (i == f)) [ inl here ↦ rw here refl | inr other ↦ rw other refl ]

pub kept_ref :
    (t : ℕ → File) (f i : ℕ) (is_device readable writable : Bool)
    → (update t f
        (record (t f) {
          type = if is_device then FileType.fd_device else FileType.fd_inode;
          off = if is_device then (t f).off else 0;
          readable = readable;
          writable = writable;
        })
        i).ref
      ≡ (t i).ref
kept_ref t f i is_device readable writable = elim (Bool-cases (i == f)) [
  | inl here ↦ let at : i ≡ f = ground arith in rw (here, at) refl
  | inr other ↦ rw other refl
]

-- An entry that was free, taken and given back.
pub given_back :
    (t t1 t2 : ℕ → File) (f i : ℕ)
    → (t f).ref ≡ 0
    → (t1 i).ref ≡ (if i == f then 1 else (t i).ref)
    → (t2 i).ref ≡ (if i == f then (t1 i).ref - 1 else (t1 i).ref)
    → (t2 i).ref ≡ (t i).ref
given_back t t1 t2 f i z e1 e2 = elim (Bool-cases (i == f)) [
  | inl here ↦
      let at : i ≡ f = ground arith in
      let z' : (t i).ref ≡ 0 = ap (λ k. (t k).ref) at ∙ z in
      let e1' : (t1 i).ref ≡ 1 = rw here at e1 in
      let e2' : (t2 i).ref ≡ (t1 i).ref - 1 = rw here at e2 in omega (arith, z', e1', e2')
  | inr other ↦
      let e1' : (t1 i).ref ≡ (t i).ref = rw other at e1 in
      let e2' : (t2 i).ref ≡ (t1 i).ref = rw other at e2 in e2' ∙ e1'
]

-- An entry that was free and has its first reference.
pub one_new :
    (t t1 t2 : ℕ → File) (f i : ℕ)
    → (t f).ref ≡ 0
    → (t1 i).ref ≡ (if i == f then 1 else (t i).ref)
    → (t2 i).ref ≡ (t1 i).ref
    → (t2 i).ref + 0 ≡ (t i).ref + refers (some f) i
one_new t t1 t2 f i z e1 e2 = elim (Bool-cases (i == f)) [
  | inl here ↦
      let at : i ≡ f = ground arith in
      let back : (f == i) ≡ true = ground arith in
      let z' : (t i).ref ≡ 0 = ap (λ k. (t k).ref) at ∙ z in
      let e1' : (t1 i).ref ≡ 1 = rw here at e1 in rw back (omega (arith, z', e1', e2))
  | inr other ↦
      let back : (f == i) ≡ false = ground arith in
      let e1' : (t1 i).ref ≡ (t i).ref = rw other at e1 in rw back (omega (arith, e1', e2))
]

-- A reference more, and one less.
module _ (t : ℕ → File) where
  pub refs_more :
      (f i : ℕ)
      → (update t f (record (t f) { ref = (t f).ref + 1 }) i).ref + 0
        ≡ (t i).ref + refers (some f) i
  refs_more f i = elim (Bool-cases (i == f)) [
    | inl here ↦
        let at : i ≡ f = ground arith in
        let back : (f == i) ≡ true = ground arith in rw (here, back, at) (omega arith)
    | inr other ↦ let back : (f == i) ≡ false = ground arith in rw (other, back) refl
  ]

  pub refs_less :
      (t' : ℕ → File) (f i : ℕ)
      → 1 ≤ (t f).ref
      → (t' i).ref ≡ (if i == f then (t i).ref - 1 else (t i).ref)
      → (t' i).ref + refers (some f) i ≡ (t i).ref + 0
  refs_less t' f i pos e = elim (Bool-cases (i == f)) [
    | inl here ↦
        let at : i ≡ f = ground arith in
        let back : (f == i) ≡ true = ground arith in
        let e' : (t' i).ref ≡ (t i).ref - 1 = rw here at e in
        let pos' : 1 ≤ (t i).ref = rw at pos in rw back (omega (arith, e', pos'))
    | inr other ↦
        let back : (f == i) ≡ false = ground arith in
        let e' : (t' i).ref ≡ (t i).ref = rw other at e in rw back (omega (arith, e'))
  ]
