-- ===== src/File/Tests.antt =====
-- A process with descriptors 0 and 1 on entry 0, which another process holds once.
use xv.Panic.{ok}
use xv.Prelude.{
  Bool-cases, inl, inr, ℕ, ◌≡◌, refl, true, false, none, some, ltb, ◌==◌, if◌then◌else◌, arith,
  List, [], ◌∷◌,
}
use xv.File.{Files, FileType, FileCall, dup, close, open_new, file_calls}
use xv.File.Alloc.{IsCounted}
use xv.File.Counts.{file_calls-IsCounted}

abbrev others : ℕ → ℕ
others i = if i == 0 then 1 else 0

abbrev files : Files
files = record {
  file = λ i. record {
    type = if i == 0 then FileType.fd_device else FileType.fd_none;
    ref = if i == 0 then 3 else 0;
    readable = true;
    writable = true;
    off = 0;
  };
  ofile = λ fd. if ltb fd 2 then some 0 else none;
}

files-IsCounted : IsCounted others files
files-IsCounted = record {
  counted = λ i below. elim (Bool-cases (i == 0)) [
    | inl here ↦ let e : i ≡ 0 = ground arith in rw e refl
    | inr other ↦ let back : (0 == i) ≡ false = ground arith in rw (other, back) refl
  ];
  in_table = λ fd f below e. elim (Bool-cases (ltb fd 2)) [
    | inl held ↦
        let same : some 0 ≡ some f = rw held at e in let zero_file : 0 ≡ f = cc in omega arith
    | inr free ↦ let same : none ≡ some f = rw free at e in absurd cc
  ];
}

abbrev calls : List FileCall
calls = dup 1 ∷ close 0 ∷ open_new false true true ∷ close 9 ∷ close 0 ∷ []

file_calls-IsCounted_example : (s' : Files) × (file_calls calls files ≡ ok s') × IsCounted others s'
file_calls-IsCounted_example = file_calls-IsCounted others calls files files-IsCounted
