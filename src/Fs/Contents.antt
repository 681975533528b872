-- ===== src/Fs/Contents.antt =====
-- The contents of a file, and what `bmap` does to them: nothing.
use xv.Prelude.{
  ℕ, ◌*◌, ◌/◌, ◌%◌, ◌<◌, ◌≡◌, sym, ap, ◌∙◌, ◌≢◌, inl, inr, true, false, arith, ◌==◌, if◌then◌else◌,
  Bool-cases,
}
use xv.Fs.{Inode, Superblock, Blocks, ndirect, maxfile, bblock, bsize}
use xv.Fs.Bitmap.{is_used}
use xv.Fs.Bmap.{block_of, IsInode, Mapped}
use mathlib.Core.Path.{subst}

-- Byte `o` of the file: 0 where it has no block.
abbrev pub file_byte : Inode → Blocks → ℕ → ℕ
file_byte ip d o =
    if block_of ip d (o / bsize) == 0 then 0 else d (block_of ip d (o / bsize)) (o % bsize)

-- A used data block, other than the indirect block.
pub record Placed (sb : Superblock) (ip : Inode) (d : Blocks) (x : ℕ) : Type 0 where
  pub is_data : bblock sb sb.size < x
  pub in_range : x < sb.size
  pub used : is_used sb d x ≡ true
  pub direct : x ≢ ip.addrs ndirect

-- The blocks of the file are used data blocks, no two of them the same.
pub record IsFile (sb : Superblock) (ip : Inode) (d : Blocks) : Type 0 where
  pub inode : IsInode sb ip d
  pub placed : (k : ℕ) → k < maxfile → block_of ip d k ≢ 0 → Placed sb ip d (block_of ip d k)
  pub apart :
      (j k : ℕ)
      → j < maxfile
      → k < maxfile
      → j ≢ k
      → block_of ip d j ≢ 0
      → block_of ip d j ≢ block_of ip d k

-- The size of the file is of no account for where its blocks are.
pub IsFile-size :
    (sb : Superblock) (ip : Inode) (d : Blocks) (s : ℕ)
    → IsFile sb ip d
    → IsFile sb (record ip { size = s }) d
IsFile-size sb ip d s f = record {
  inode = record {
    indirect_data = f.inode.indirect_data;
    indirect_fits = f.inode.indirect_fits;
    indirect_used = f.inode.indirect_used;
  };
  placed = λ k below ne.
      let p = f.placed k below ne in
      record { is_data = p.is_data; in_range = p.in_range; used = p.used; direct = p.direct };
  apart = f.apart;
}

module _ (sb : Superblock) (ip ip' : Inode) (d d' : Blocks) (bn addr : ℕ) (f : IsFile sb ip d)
    (w : Mapped sb ip bn d addr ip' d') (lt : bn < maxfile) where
  -- A block of the file before is one after.
  old_place : (x : ℕ) → Placed sb ip d x → Placed sb ip' d' x
  old_place x p = record {
    is_data = p.is_data;
    in_range = p.in_range;
    used = w.used x (omega (arith, p.in_range)) (p.used);
    direct = λ e. elim (w.indirect) [
      | inl same ↦ p.direct (e ∙ same)
      | inr free ↦ cc (free, p.used, ap (is_used sb d) e)
    ];
  }

  new_place : addr ≢ 0 → Placed sb ip' d' addr
  new_place ne = elim (Bool-cases (block_of ip d bn == 0)) [
    | inl missing ↦
        let z : block_of ip d bn ≡ 0 = ground arith in
        let (above, below, other) = w.place z ne in
        record { is_data = above; in_range = below; used = (w.fresh z ne).1; direct = other }
    | inr there ↦
        let n : block_of ip d bn ≢ 0 = ground arith in
        subst (Placed sb ip' d') (sym (w.kept n)) (old_place (block_of ip d bn) (f.placed bn lt n))
  ]

  new_apart : (k : ℕ) → k < maxfile → k ≢ bn → addr ≢ 0 → addr ≢ block_of ip d k
  new_apart k below other ne e = elim (Bool-cases (block_of ip d bn == 0)) [
    | inl missing ↦
        let free = (w.fresh (ground arith) ne).0 in
        let held = (f.placed k below (λ z. ne (e ∙ z))).used in cc (free, held, ap (is_used sb d) e)
    | inr there ↦
        let n : block_of ip d bn ≢ 0 = ground arith in
        f.apart bn k lt below (λ same. other (sym same)) n (sym (w.kept n) ∙ e)
  ]

  pub bmap-IsFile : IsFile sb ip' d'
  bmap-IsFile = record {
    inode = w.inode;
    placed = λ k below ne. elim (Bool-cases (k == bn)) [
      | inl here ↦
          let e : k ≡ bn = ground arith in
          let found : addr ≡ block_of ip' d' k = sym (w.result) ∙ ap (block_of ip' d') (sym e) in
          subst (Placed sb ip' d') found (new_place (λ z. ne (sym found ∙ z)))
      | inr other ↦
          let found = w.others k below (ground arith) in
          subst (Placed sb ip' d') (sym found)
            (old_place (block_of ip d k) (f.placed k below (λ z. ne (found ∙ z))))
    ];
    apart = λ j k below_j below_k distinct ne e. elim (Bool-cases (j == bn)) [
      | inl here ↦
          let at_bn : j ≡ bn = ground arith in
          let found : block_of ip' d' j ≡ addr = ap (block_of ip' d') at_bn ∙ w.result in
          let other : k ≢ bn = λ same. distinct (at_bn ∙ sym same) in
          new_apart k below_k other (λ z. ne (found ∙ z)) (sym found ∙ e ∙ w.others k below_k other)
      | inr not_j ↦
          let old_j = w.others j below_j (ground arith) in
          elim (Bool-cases (k == bn)) [
            | inl here ↦
                let at_bn : k ≡ bn = ground arith in
                let found : block_of ip' d' k ≡ addr = ap (block_of ip' d') at_bn ∙ w.result in
                new_apart j below_j (ground arith) (λ z. ne (e ∙ found ∙ z))
                  (sym found ∙ sym e ∙ old_j)
            | inr not_k ↦
                f.apart j k below_j below_k distinct (λ z. ne (old_j ∙ z))
                  (sym old_j ∙ e ∙ w.others k below_k (ground arith))
          ]
    ];
  }

  -- A block that is there stays where it is.
  pub bmap-stays : (k : ℕ) → k < maxfile → block_of ip d k ≢ 0 → block_of ip' d' k ≡ block_of ip d k
  bmap-stays k lt_k n = elim (Bool-cases (k == bn)) [
    | inl here ↦
        let e : k ≡ bn = ground arith in
        ap (block_of ip' d') e
        ∙ w.result
        ∙ w.kept (λ z. n (ap (block_of ip d) e ∙ z))
        ∙ ap (block_of ip d) (sym e)
    | inr other ↦ w.others k lt_k (ground arith)
  ]

  -- `bmap` returns 0 only for a block that is missing.
  pub bmap-missing : addr ≡ 0 → block_of ip d bn ≡ 0
  bmap-missing z = elim (Bool-cases (block_of ip d bn == 0)) [
    | inl missing ↦ ground arith
    | inr there ↦ let n : block_of ip d bn ≢ 0 = ground arith in sym (w.kept n) ∙ z
  ]

  -- A block that stays where it is keeps its bytes.
  same_block :
      (k i : ℕ)
      → k < maxfile
      → block_of ip' d' k ≡ block_of ip d k
      → block_of ip d k ≢ 0
      → d' (block_of ip' d' k) i ≡ d (block_of ip d k) i
  same_block k i below e ne =
      let p = f.placed k below ne in
      ap (λ x. d' x i) e
      ∙ w.data_same (block_of ip d k) i (p.is_data) (omega (arith, p.in_range)) (p.used) (p.direct)

  pub bmap-file_byte : (o : ℕ) → o < maxfile * bsize → file_byte ip' d' o ≡ file_byte ip d o
  bmap-file_byte o below = elim (Bool-cases (block_of ip d (o / bsize) == 0)) [
    | inr there ↦
        let n : block_of ip d (o / bsize) ≢ 0 = ground arith in
        let e : block_of ip' d' (o / bsize) ≡ block_of ip d (o / bsize) =
          bmap-stays (o / bsize) (omega arith) n in
        let bytes = same_block (o / bsize) (o % bsize) (omega arith) e n in
        let there' : (block_of ip' d' (o / bsize) == 0) ≡ false = ap (λ x. x == 0) e ∙ there in
        rw (there, there') bytes
    | inl missing ↦ elim (Bool-cases (block_of ip' d' (o / bsize) == 0)) [
      | inl still ↦ rw (missing, still)
      | inr now ↦
          rw (missing, now)
            (elim (Bool-cases (o / bsize == bn)) [
              | inl here ↦
                  let e : o / bsize ≡ bn = ground arith in
                  let found : block_of ip' d' (o / bsize) ≡ addr =
                    ap (block_of ip' d') e ∙ w.result in
                  let z : block_of ip d bn ≡ 0 = ap (block_of ip d) (sym e) ∙ ground arith in
                  let n : block_of ip' d' (o / bsize) ≢ 0 = ground arith in
                  ap (λ x. d' x (o % bsize)) found
                  ∙ w.zeroed z (λ y. n (found ∙ y)) (o % bsize) (omega arith)
              | inr other ↦
                  let e = w.others (o / bsize) (omega arith) (ground arith) in
                  let z : block_of ip d (o / bsize) ≡ 0 = ground arith in
                  let n : block_of ip' d' (o / bsize) ≢ 0 = ground arith in absurd (n (e ∙ z))
            ])
    ]
  ]
