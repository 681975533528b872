-- ===== src/Fs/Overwrite.antt =====
-- Bytes written into one block of a file.
use xv.Prelude.{
  ℕ, ◌-◌, ◌*◌, ◌/◌, ◌%◌, ◌≤◌, ◌<◌, ◌≡◌, sym, ap, ◌∙◌, ◌≢◌, inl, inr, true, false, arith, ltb, ◌==◌,
  if◌then◌else◌, Bool-cases, update,
}
use xv.Fs.{Inode, Superblock, Blocks, ndirect, maxfile, bsize}
use xv.Fs.Bitmap.{IsFs, is_used, map_same, IsFs-outside}
use xv.Fs.Indirect.{get_uint-same}
use xv.Fs.Bmap.{block_of}
use xv.Fs.Contents.{file_byte, Placed, IsFile}
use mathlib.Core.Path.{subst}

-- The blocks of the file depend on its indirect block alone.
block_of-same :
    (ip : Inode) (d d' : Blocks) (k : ℕ)
    → (ip.addrs ndirect ≢ 0 → (i : ℕ) → d' (ip.addrs ndirect) i ≡ d (ip.addrs ndirect) i)
    → block_of ip d' k ≡ block_of ip d k
block_of-same ip d d' k same = elim (Bool-cases (ltb k ndirect)) [
  | inl direct ↦ rw direct
  | inr far ↦ elim (Bool-cases (ip.addrs ndirect == 0)) [
    | inl missing ↦ rw (far, missing)
    | inr there ↦
        rw (far, there) (get_uint-same d d' (ip.addrs ndirect) (k - ndirect) (same (ground arith)))
  ]
]

module _ (sb : Superblock) (ip : Inode) (d : Blocks) (bn : ℕ) (g : ℕ → ℕ) (v : IsFs sb d)
    (f : IsFile sb ip d) (lt : bn < maxfile) (ne : block_of ip d bn ≢ 0)
    (small : (k : ℕ) → g k < 256) where
  abbrev overwritten : Blocks
  overwritten = update d (block_of ip d bn) g

  overwrite-is_used : (x : ℕ) → x ≤ sb.size → is_used sb overwritten x ≡ is_used sb d x
  overwrite-is_used x le =
      map_same sb d overwritten x (λ b k low. ground (arith, (f.placed bn lt ne).is_data)) le

  pub overwrite-IsFs : IsFs sb (update d (block_of ip d bn) g)
  overwrite-IsFs =
      IsFs-outside overwritten v (λ b k low. ground (arith, (f.placed bn lt ne).is_data))
        (λ b k. ground (arith, small k, v.bytes b k))

  -- The indirect block is another block.
  pub overwrite-block_of : (k : ℕ) → block_of ip (update d (block_of ip d bn) g) k ≡ block_of ip d k
  overwrite-block_of k = block_of-same ip d overwritten k λ n i.
      let other : block_of ip d bn ≢ ip.addrs ndirect = (f.placed bn lt ne).direct in
      ground (arith, other)

  pub overwrite-IsFile : IsFile sb ip (update d (block_of ip d bn) g)
  overwrite-IsFile = record {
    inode = record {
      indirect_data = f.inode.indirect_data;
      indirect_fits = f.inode.indirect_fits;
      indirect_used = λ n.
          overwrite-is_used (ip.addrs ndirect) (omega (arith, f.inode.indirect_fits))
          ∙ f.inode.indirect_used n;
    };
    placed = λ k below n.
        let e = overwrite-block_of k in
        let p = f.placed k below (λ z. n (e ∙ z)) in
        subst (Placed sb ip overwritten) (sym e) (record {
          is_data = p.is_data;
          in_range = p.in_range;
          used = overwrite-is_used (block_of ip d k) (omega (arith, p.in_range)) ∙ p.used;
          direct = p.direct;
        });
    apart = λ j k below_j below_k distinct n e.
        f.apart j k below_j below_k distinct (λ z. n (overwrite-block_of j ∙ z))
          (sym (overwrite-block_of j) ∙ e ∙ overwrite-block_of k);
  }

  pub overwrite-file_byte :
      (o : ℕ)
      → o < maxfile * bsize
      → file_byte ip (update d (block_of ip d bn) g) o
        ≡ (if o / bsize == bn then g (o % bsize) else file_byte ip d o)
  overwrite-file_byte o below = elim (Bool-cases (block_of ip d (o / bsize) == 0)) [
    | inl missing ↦
        let zero_here : (block_of ip overwritten (o / bsize) == 0) ≡ true =
          ap (λ x. x == 0) (overwrite-block_of (o / bsize)) ∙ missing in
        let other : (o / bsize == bn) ≡ false = elsewhere (o / bsize) (ground arith) in
        rw (zero_here, missing, other)
    | inr there ↦
        let there' : (block_of ip overwritten (o / bsize) == 0) ≡ false =
          ap (λ x. x == 0) (overwrite-block_of (o / bsize)) ∙ there in
        rw (there, there')
          (ap (λ x. overwritten x (o % bsize)) (overwrite-block_of (o / bsize))
            ∙ byte (o / bsize) (omega arith) (ground arith))
  ]
    where
      elsewhere : (k : ℕ) → block_of ip d k ≡ 0 → (k == bn) ≡ false
      elsewhere k z = elim (Bool-cases (k == bn)) [
        | inl here ↦ let e : k ≡ bn = ground arith in absurd (ne (ap (block_of ip d) (sym e) ∙ z))
        | inr other ↦ other
      ]

      byte :
          (k : ℕ)
          → k < maxfile
          → block_of ip d k ≢ 0
          → overwritten (block_of ip d k) (o % bsize)
            ≡ (if k == bn then g (o % bsize) else d (block_of ip d k) (o % bsize))
      byte k below_k n = elim (Bool-cases (k == bn)) [
        | inl here ↦
            let e : block_of ip d k ≡ block_of ip d bn = ap (block_of ip d) (ground arith) in
            let same : (block_of ip d k == block_of ip d bn) ≡ true = ground arith in
            rw (here, same)
        | inr other ↦
            let distinct = f.apart k bn below_k lt (ground arith) n in
            let differ : (block_of ip d k == block_of ip d bn) ≡ false = ground arith in
            rw (other, differ)
      ]
