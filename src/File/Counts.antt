-- ===== src/File/Counts.antt =====
-- The reference count of an entry is the number of descriptors that refer to it.
use xv.Panic.{ok}
use xv.Prelude.{
  ℕ, ◌+◌, ◌≤◌, ◌<◌, ◌≡◌, refl, sym, ap, ◌∙◌, ◌⊎◌, inl, inr, Bool, Option, none, some, ltb, ◌==◌,
  if◌then◌else◌, update, List, [], ◌∷◌, arith, Bool-cases, Option-cases,
}
use xv.File.{
  FileCall, dup, close, open_new, file_call, file_calls, FileType, nfile, nofile, File, Files,
  filealloc, fdalloc, argfd, sys_dup, sys_close, open_file,
}
use mathlib.Core.Path.{subst}
use xv.File.Alloc.{
  IsCounted, refers, count_pos, fileclose-ref, Allocated, Described, refs_less, filealloc-Allocated,
  fdalloc-Described, count-update, taken_ref, filedup-ref, given_back, one_new, kept_ref, refs_more,
}

module _ (others : ℕ → ℕ) (s : Files) (v : IsCounted others s) where
  -- A descriptor is set anew, and the counts follow.
  IsCounted-update :
      (fd : ℕ) (p : Option ℕ) (t : ℕ → File)
      → fd < nofile
      → ((i : ℕ) → i < nfile → (t i).ref + refers (s.ofile fd) i ≡ (s.file i).ref + refers p i)
      → ((f : ℕ) → p ≡ some f → f < nfile)
      → IsCounted others (record { file = t; ofile = update (s.ofile) fd p })
  IsCounted-update fd p t lt same fits = record {
    counted = λ i below.
        omega (arith, same i below, v.counted i below, count-update (s.ofile) i nofile fd p lt);
    in_table = λ k f lt_k e. elim (Bool-cases (k == fd)) [
      | inl here ↦ let at : update (s.ofile) fd p k ≡ p = rw here in fits f (sym at ∙ e)
      | inr other ↦
          let at : update (s.ofile) fd p k ≡ s.ofile k = rw other in
          v.in_table k f lt_k (sym at ∙ e)
    ];
  }

  argfd_lem :
      (n : ℕ)
      → (argfd n (s.ofile) ≡ none)
        ⊎ ((f : ℕ) × (argfd n (s.ofile) ≡ some f)
            × (n < nofile)
            × (s.ofile n ≡ some f)
            × (f < nfile)
            × (1 ≤ (s.file f).ref))
  unfolding argfd
  argfd_lem n = elim (Bool-cases (ltb n nofile)) [
    | inr far ↦ inl (rw far)
    | inl near ↦ elim (Option-cases (s.ofile n)) [
      | inl free ↦ inl (rw near free)
      | inr (f, e) ↦
          let lt : n < nofile = ground arith in
          let below = v.in_table n f lt e in
          inr (
            f,
            rw near e,
            lt,
            e,
            below,
            omega (arith, v.counted f below, count_pos (s.ofile) nofile n f lt e),
          )
    ]
  ]

  sys_dup-IsCounted :
      (n : ℕ) → (fd : Option ℕ) × (s' : Files) × (sys_dup n s ≡ ok (fd, s')) × IsCounted others s'
  unfolding sys_dup
  sys_dup-IsCounted n = elim (argfd_lem n) [
    | inl none_there ↦ (none, s, rw (sys_dup, none_there) refl, v)
    | inr (f, e, lt, held, below, pos) ↦ elim (Option-cases (fdalloc f (s.ofile))) [
      | inl full ↦ (none, s, rw (sys_dup, e, full) refl, v)
      | inr ((fd, o), q) ↦
          let (lt_fd, free, new) =
            subst (Described nofile 0 f (s.ofile)) q (fdalloc-Described f (s.ofile)) in
          let t : ℕ → File = update (s.file) f (record (s.file f) { ref = (s.file f).ref + 1 }) in
          (
            some fd,
            record { file = t; ofile = update (s.ofile) fd (some f) },
            rw (sys_dup, e, q, filedup-ref f (s.file) pos, new) refl,
            IsCounted-update fd (some f) t lt_fd
                (λ i lt_i.
                  let none_before : refers (s.ofile fd) i ≡ 0 = ap (λ p. refers p i) free in
                  rw none_before (refs_more (s.file) f i))
                (λ g same. let e' : f ≡ g = cc in omega arith),
          )
    ]
  ]

  sys_close-IsCounted :
      (n : ℕ)
      → (r : Option ℕ) × (closed : Option File) × (s' : Files) × (sys_close n s
          ≡ ok (r, closed, s'))
        × IsCounted others s'
  unfolding sys_close
  sys_close-IsCounted n = elim (argfd_lem n) [
    | inl none_there ↦ (none, none, s, rw (sys_close, none_there) refl, v)
    | inr (f, e, lt, held, below, pos) ↦
        let (t, closed, e2, refs) = fileclose-ref f (s.file) pos in
        (
          some 0,
          closed,
          record { file = t; ofile = update (s.ofile) n none },
          rw (sys_close, e, e2) refl,
          IsCounted-update n none t lt
              (λ i lt_i.
                let one : refers (s.ofile n) i ≡ refers (some f) i = ap (λ p. refers p i) held in
                rw one (refs_less (s.file) t f i pos (refs i)))
              (λ g same. absurd cc),
        )
  ]

  -- An entry that has just been taken is no descriptor's yet.
  open_file-IsCounted :
      (is_device readable writable : Bool)
      → (fd : Option ℕ) × (s' : Files) × (open_file is_device readable writable s ≡ ok (fd, s'))
        × IsCounted others s'
  unfolding open_file
  open_file-IsCounted is_device readable writable = elim (Option-cases (filealloc (s.file))) [
    | inl full ↦ (none, s, rw (open_file, full) refl, v)
    | inr ((f, t), q) ↦
        let (lt, zero_ref, new) =
          subst (Allocated nfile 0 (s.file)) q (filealloc-Allocated (s.file)) in
        let refs1 : (i : ℕ) → (t i).ref ≡ (if i == f then 1 else (s.file i).ref) =
          λ i. ap (λ u. (u i).ref) new ∙ taken_ref (s.file) f i in
        let held : (t f).ref ≡ 1 = refs1 f ∙ ground arith in
        elim (Option-cases (fdalloc f (s.ofile))) [
          | inl none_free ↦
              let (t', closed, e2, refs2) = fileclose-ref f t (omega (arith, held)) in
              (
                none,
                record s { file = t' },
                rw (open_file, q, none_free, e2) refl,
                record {
                  counted = λ i below.
                      given_back (s.file) t t' f i zero_ref (refs1 i) (refs2 i) ∙ v.counted i below;
                  in_table = v.in_table;
                },
              )
          | inr ((fd, o), q2) ↦
              let (lt_fd, free, new_o) =
                subst (Described nofile 0 f (s.ofile)) q2 (fdalloc-Described f (s.ofile)) in
              let t2 : ℕ → File = update t f (record (t f) {
                type = if is_device then FileType.fd_device else FileType.fd_inode;
                off = if is_device then (t f).off else 0;
                readable = readable;
                writable = writable;
              }) in
              (
                some fd,
                record { file = t2; ofile = update (s.ofile) fd (some f) },
                rw (open_file, q, q2, new_o) refl,
                IsCounted-update fd (some f) t2 lt_fd
                    (λ i lt_i.
                      let none_before : refers (s.ofile fd) i ≡ 0 = ap (λ p. refers p i) free in
                      rw none_before (
                        one_new (s.file) t t2 f i zero_ref (refs1 i)
                          (kept_ref t f i is_device readable writable)))
                    (λ g same. let e' : f ≡ g = cc in omega arith),
              )
        ]
  ]

file_call-IsCounted :
    (others : ℕ → ℕ) (c : FileCall) (s : Files)
    → IsCounted others s
    → (s' : Files) × (file_call c s ≡ ok s') × IsCounted others s'
unfolding file_call
file_call-IsCounted others (dup n) s v =
    let (fd, s', e, v') = sys_dup-IsCounted others s v n in (s', rw e refl, v')
file_call-IsCounted others (close n) s v =
    let (r, closed, s', e, v') = sys_close-IsCounted others s v n in (s', rw e refl, v')
file_call-IsCounted others (open_new is_device readable writable) s v =
    let (fd, s', e, v') = open_file-IsCounted others s v is_device readable writable in
    (s', rw e refl, v')

-- Any sequence of `sys_dup`, `sys_close` and the opening of files, from a state where the counts
-- hold, runs without a panic, and the counts hold afterwards: the reference count of each entry is
-- the number of descriptors of the process and of the others that refer to it, and every
-- descriptor refers to an entry of the table.
pub file_calls-IsCounted :
    (others : ℕ → ℕ) (cs : List FileCall) (s : Files)
    → IsCounted others s
    → (s' : Files) × (file_calls cs s ≡ ok s') × IsCounted others s'
unfolding file_calls
file_calls-IsCounted others [] s v = (s, refl, v)
file_calls-IsCounted others (c ∷ cs) s v =
    let (s1, e, v1) = file_call-IsCounted others c s v in
    let (s2, e2, v2) = file_calls-IsCounted others cs s1 v1 in (s2, rw (e, e2) refl, v2)
