-- ===== src/Fs/Truncate.antt =====
-- `itrunc`: every block of the file is free afterwards.
use xv.Prelude.{
  ℕ, ◌+◌, ◌-◌, ◌≤◌, ◌<◌, ◌≡◌, refl, sym, ap, ◌∙◌, ◌≢◌, inl, inr, true, false, arith, ltb, ◌==◌,
  if◌then◌else◌, Bool-cases,
}
use xv.Panic.{ok}
use xv.Fs.{
  Inode, Superblock, Blocks, ndirect, nindirect, maxfile, bblock, bfree, free_each, itrunc,
  get_uint,
}
use xv.Fs.Bitmap.{IsFs, is_used}
use xv.Fs.Bmap.{block_of}
use xv.Fs.Indirect.{get_uint-same}
use xv.Fs.Contents.{IsFile}
use mathlib.Core.Path.{subst}
use xv.Fs.Free.{Freed-one, Freeable, Freed, free_each-Freed}

-- A file that has lost all its blocks.
pub record Truncated (sb : Superblock) (ip : Inode) (d : Blocks) (ip' : Inode) (d' : Blocks)
    : Type 0 where
  pub fs : IsFs sb d'
  pub no_size : ip'.size ≡ 0
  pub no_blocks : (k : ℕ) → k ≤ ndirect → ip'.addrs k ≡ 0
  pub freed : (k : ℕ) → k < maxfile → block_of ip d k ≢ 0 → is_used sb d' (block_of ip d k) ≡ false
  pub indirect_freed : ip.addrs ndirect ≢ 0 → is_used sb d' (ip.addrs ndirect) ≡ false
  pub others :
      (x : ℕ)
      → ((k : ℕ) → k < maxfile → block_of ip d k ≢ 0 → block_of ip d k ≢ x)
      → (ip.addrs ndirect ≢ 0 → ip.addrs ndirect ≢ x)
      → is_used sb d' x ≡ is_used sb d x
  pub data_same : (x k : ℕ) → bblock sb sb.size < x → d' x k ≡ d x k

module _ (sb : Superblock) (ip : Inode) (d : Blocks) (v : IsFs sb d) (f : IsFile sb ip d) where
  abbrev words : ℕ → ℕ
  words j = get_uint d (ip.addrs ndirect) j

  block_of-direct : (k : ℕ) → k < ndirect → block_of ip d k ≡ ip.addrs k
  block_of-direct k lt = let direct : ltb k ndirect ≡ true = ground arith in rw direct

  block_of-far :
      (k : ℕ) → ndirect ≤ k → ip.addrs ndirect ≢ 0 → block_of ip d k ≡ words (k - ndirect)
  block_of-far k le ne =
      let far : ltb k ndirect ≡ false = ground arith in
      let there : (ip.addrs ndirect == 0) ≡ false = ground arith in rw (far, there)

  block_of-none : (k : ℕ) → ndirect ≤ k → ip.addrs ndirect ≡ 0 → block_of ip d k ≡ 0
  block_of-none k le z =
      let far : ltb k ndirect ≡ false = ground arith in
      let none_there : (ip.addrs ndirect == 0) ≡ true = ground arith in rw (far, none_there)

  word_at : ip.addrs ndirect ≢ 0 → (j : ℕ) → block_of ip d (j + ndirect) ≡ words j
  word_at ne j =
      let e : j + ndirect - ndirect ≡ j = omega arith in
      block_of-far (j + ndirect) (omega arith) ne ∙ ap words e

  freeable : (k x : ℕ) → k < maxfile → block_of ip d k ≡ x → x ≢ 0 → Freeable sb d x
  freeable k x lt e ne =
      let p = f.placed k lt (λ z. ne (sym e ∙ z)) in
      subst (Freeable sb d) e (p.is_data, p.in_range, p.used)

  distinct :
      (j k x y : ℕ)
      → j < maxfile
      → k < maxfile
      → j ≢ k
      → block_of ip d j ≡ x
      → block_of ip d k ≡ y
      → x ≢ 0
      → x ≢ y
  distinct j k x y lt_j lt_k ne ex ey n e =
      f.apart j k lt_j lt_k ne (λ z. n (sym ex ∙ z)) (ex ∙ e ∙ sym ey)

  -- The loop over the direct blocks.
  direct-Freed :
      (d' : Blocks) × (free_each sb (λ d1 i. ip.addrs i) ndirect 0 d ≡ ok d')
      × Freed sb (ip.addrs) 0 ndirect d d'
  direct-Freed =
      free_each-Freed sb ndirect (λ d1 i. ip.addrs i) (ip.addrs) 0 d v (λ d1 same j. refl)
        (λ j lo hi. freeable j (ip.addrs j) (omega arith) (block_of-direct j (omega arith)))
        (λ j k lo mid hi ne e.
          distinct k j _ _ (omega arith) (omega arith) (omega arith)
            (block_of-direct k (omega arith)) (block_of-direct j (omega arith)) ne (sym e))

  -- The loop over the words of the indirect block.
  words-Freed :
      (d1 : Blocks)
      → ip.addrs ndirect ≢ 0
      → Freed sb (ip.addrs) 0 ndirect d d1
      → (d' : Blocks) × (free_each sb (λ d2 j. get_uint d2 (ip.addrs ndirect) j) nindirect 0 d1
          ≡ ok d')
        × Freed sb words 0 nindirect d1 d'
  words-Freed d1 ne p =
      free_each-Freed sb nindirect (λ d2 j. get_uint d2 (ip.addrs ndirect) j) words 0 d1 (p.fs)
        (λ d2 same j. get_uint-same d d2 (ip.addrs ndirect) j λ k.
          same (ip.addrs ndirect) k (f.inode.indirect_data ne)
          ∙ p.data_same (ip.addrs ndirect) k (f.inode.indirect_data ne))
        (λ j lo hi n.
          let (above, lt, used) = freeable (j + ndirect) (words j) (omega arith) (word_at ne j) n in
          (
            above,
            lt,
            p.others (words j) (λ k low high m.
                  distinct k (j + ndirect) _ _ (omega arith) (omega arith) (omega arith)
                    (block_of-direct k (omega arith)) (word_at ne j) m)
                ∙ used,
          ))
        (λ j k lo mid hi n e.
          distinct (k + ndirect) (j + ndirect) _ _ (omega arith) (omega arith) (omega arith)
            (word_at ne k) (word_at ne j) n (sym e))

  abbrev emptied : Inode
  emptied = record { addrs = λ i. if ltb i (ndirect + 1) then 0 else ip.addrs i; size = 0 }

  Truncated-direct :
      (d1 : Blocks)
      → ip.addrs ndirect ≡ 0
      → Freed sb (ip.addrs) 0 ndirect d d1
      → Truncated sb ip d emptied d1
  Truncated-direct d1 z p = record {
    fs = p.fs;
    no_size = refl;
    no_blocks = λ k le. ground arith;
    freed = λ k lt ne. elim (Bool-cases (ltb k ndirect)) [
      | inl direct ↦
          let e = block_of-direct k (ground arith) in
          subst (λ x. is_used sb d1 x ≡ false) (sym e)
            (p.freed k (omega arith) (ground arith) (λ zero_word. ne (e ∙ zero_word)))
      | inr far ↦ absurd (ne (block_of-none k (ground arith) z))
    ];
    indirect_freed = λ n. absurd (n z);
    others = λ x not_block not_indirect. p.others x λ j lo hi ne same.
        let e = block_of-direct j (omega arith) in
        not_block j (omega arith) (λ zero_word. ne (sym e ∙ zero_word)) (e ∙ same);
    data_same = p.data_same;
  }

  Truncated-all :
      (d1 d2 d3 : Blocks)
      → ip.addrs ndirect ≢ 0
      → Freed sb (ip.addrs) 0 ndirect d d1
      → Freed sb words 0 nindirect d1 d2
      → Freed sb (λ j. ip.addrs ndirect) 0 1 d2 d3
      → Truncated sb ip d emptied d3
  Truncated-all d1 d2 d3 n p q r = record {
    fs = r.fs;
    no_size = refl;
    no_blocks = λ k le. ground arith;
    freed = λ k lt ne.
        r.others (block_of ip d k) (λ j lo hi m same. (f.placed k lt ne).direct (sym same))
        ∙ elim (Bool-cases (ltb k ndirect)) [
          | inl direct ↦
              let e = block_of-direct k (ground arith) in
              let here = p.freed k (omega arith) (ground arith) (λ zero_word. ne (e ∙ zero_word)) in
              q.others (block_of ip d k) (λ j lo hi m same.
                distinct (j + ndirect) k _ _ (omega arith) lt (ground arith) (word_at n j) refl m
                  same)
              ∙ subst (λ x. is_used sb d1 x ≡ false) (sym e) here
          | inr far ↦
              let e = block_of-far k (ground arith) n in
              subst (λ x. is_used sb d2 x ≡ false) (sym e)
                (q.freed (k - ndirect) (omega arith) (ground arith)
                  (λ zero_word. ne (e ∙ zero_word)))
        ];
    indirect_freed = λ m. r.freed 0 (omega arith) (omega arith) m;
    others = λ x not_block not_indirect.
        r.others x (λ j lo hi m same. not_indirect m same)
        ∙ q.others x (λ j lo hi m same.
          not_block (j + ndirect) (omega arith) (λ z. m (sym (word_at n j) ∙ z))
            (word_at n j ∙ same))
        ∙ p.others x (λ j lo hi m same.
          let e = block_of-direct j (omega arith) in
          not_block j (omega arith) (λ z. m (sym e ∙ z)) (e ∙ same));
    data_same = λ x k above. r.data_same x k above ∙ q.data_same x k above ∙ p.data_same x k above;
  }

  -- The indirect block is still in use when its words have been freed.
  indirect-Freeable :
      (d1 d2 : Blocks)
      → ip.addrs ndirect ≢ 0
      → Freed sb (ip.addrs) 0 ndirect d d1
      → Freed sb words 0 nindirect d1 d2
      → Freeable sb d2 (ip.addrs ndirect)
  indirect-Freeable d1 d2 n p q = (
    f.inode.indirect_data n,
    f.inode.indirect_fits,
    q.others (ip.addrs ndirect) (λ j lo hi m same.
          let e = word_at n j in
          (f.placed (j + ndirect) (omega arith) (λ z. m (sym e ∙ z))).direct (e ∙ same))
        ∙ p.others (ip.addrs ndirect) (λ j lo hi m same.
          let e = block_of-direct j (omega arith) in
          (f.placed j (omega arith) (λ z. m (sym e ∙ z))).direct (e ∙ same))
        ∙ f.inode.indirect_used n,
  )

  -- `itrunc` of a file in order, on a file system in order, does not panic: it frees the blocks of
  -- the file and its indirect block, and no other, changes no data block, and leaves an inode of
  -- size 0 without blocks.
  pub itrunc-Truncated :
      (ip' : Inode) × (d' : Blocks) × (itrunc sb ip d ≡ ok (ip', d')) × Truncated sb ip d ip' d'
  unfolding itrunc
  itrunc-Truncated =
      let (d1, e1, p) = direct-Freed in
      elim (Bool-cases (ip.addrs ndirect == 0)) [
        | inl missing ↦ (emptied, d1, rw (e1, missing) refl, Truncated-direct d1 (ground arith) p)
        | inr there ↦
            let n : ip.addrs ndirect ≢ 0 = ground arith in
            let (d2, e2, q) = words-Freed d1 n p in
            let (d3, e3, r) =
              Freed-one sb (λ j. ip.addrs ndirect) 0 d2 (q.fs)
                (λ m. indirect-Freeable d1 d2 n p q) in
            let e4 : bfree sb (ip.addrs ndirect) d2 ≡ ok d3 = rw there at e3 in
            (emptied, d3, rw (e1, there, e2, e4) refl, Truncated-all d1 d2 d3 n p q r)
      ]
