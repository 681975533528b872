-- ===== src/Fs/WriteBlock.antt =====
-- One round of `writei`, and what a write has done after some rounds.
use xv.Prelude.{
  ℕ, ◌+◌, ◌-◌, ◌*◌, ◌/◌, ◌%◌, ◌≤◌, ◌<◌, ◌≡◌, refl, sym, ap, ◌∙◌, ◌≢◌, ◌⊎◌, inl, inr, true, false,
  arith, ltb, leb, ◌&&◌, ◌==◌, if◌then◌else◌, Bool-cases, update,
}
use xv.Fs.{Inode, Superblock, Blocks, maxfile, bsize}
use xv.Fs.Bitmap.{IsFs, is_used}
use xv.Fs.Bmap.{block_of, Mapped}
use xv.Fs.Contents.{file_byte, IsFile, bmap-IsFile, bmap-stays, bmap-file_byte}
use xv.Fs.Overwrite.{overwrite-IsFs, overwrite-IsFile, overwrite-file_byte, overwrite-block_of}
use xv.Fs.Transfer.{paste}
use mathlib.Core.Path.{subst}

-- Bytes put into the block of `off`, seen from the file.
paste-in_block :
    (mem from : ℕ → ℕ) (off c o old : ℕ)
    → off % bsize + c ≤ bsize
    → (if o / bsize == off / bsize then paste mem (off % bsize) c from (o % bsize) else old) ≡ (
        if leb off o && ltb o (off + c)
        then from (o - off)
        else if o / bsize == off / bsize
        then mem (o % bsize)
        else old)
paste-in_block mem from off c o old fits = elim (Bool-cases (leb off o && ltb o (off + c))) [
  | inl inside ↦
      let low : off ≤ o = ground arith in
      let high : o < off + c = ground arith in
      let e : o / bsize ≡ off / bsize = omega arith in
      let at_least : leb (off % bsize) (o % bsize) ≡ true = ground arith in
      let less : ltb (o % bsize) (off % bsize + c) ≡ true = ground arith in
      let place : o % bsize - off % bsize ≡ o - off = omega arith in
      let same : (o / bsize == off / bsize) ≡ true = ground arith in
      rw (inside, same, at_least, less) (ap from place)
  | inr beyond ↦ elim (Bool-cases (o / bsize == off / bsize)) [
    | inr other ↦ rw (beyond, other)
    | inl same ↦
        let out : (leb (off % bsize) (o % bsize) && ltb (o % bsize) (off % bsize + c)) ≡ false =
          ground arith in
        rw (beyond, same, out)
  ]
]

-- What a write of `n` bytes at `off` has done when it ends after `t` bytes.
pub record Wrote (user : ℕ → ℕ) (copied : ℕ → ℕ → ℕ) (sb : Superblock) (ip : Inode) (d : Blocks)
    (src off n t : ℕ) (ip' : Inode) (d' : Blocks) : Type 0 where
  pub fs : IsFs sb d'
  pub file : IsFile sb ip' d'
  pub same_size : ip'.size ≡ ip.size
  pub at_most : t ≤ n
  -- A write is short if the disk is full or a copy fails.
  pub short :
      (t ≡ n)
      ⊎ ((x : ℕ) → x < sb.size → is_used sb d' x ≡ true)
      ⊎ ((a : ℕ) × (m : ℕ) × (copied a m < m))
  pub written : (o : ℕ) → off ≤ o → o < off + t → file_byte ip' d' o ≡ user (src + (o - off))
  pub outside :
      (o : ℕ)
      → o < maxfile * bsize
      → (o < off) ⊎ (off + n ≤ o)
      → file_byte ip' d' o ≡ file_byte ip d o
  pub blocks : (o : ℕ) → off ≤ o → o < off + t → block_of ip' d' (o / bsize) ≢ 0
  pub keeps : (k : ℕ) → k < maxfile → block_of ip d k ≢ 0 → block_of ip' d' k ≢ 0

module _ (user : ℕ → ℕ) (copied : ℕ → ℕ → ℕ) (sb : Superblock) (small : sb.size < 4294967296)
    (byte : (a : ℕ) → user a < 256) where
  -- Nothing is written.
  pub Wrote-nothing :
      (ip : Inode) (d : Blocks) (src off n : ℕ)
      → IsFs sb d
      → IsFile sb ip d
      → (0 ≡ n) ⊎ ((x : ℕ) → x < sb.size → is_used sb d x ≡ true)
      → Wrote user copied sb ip d src off n 0 ip d
  Wrote-nothing ip d src off n v f why = record {
    fs = v;
    file = f;
    same_size = refl;
    at_most = omega arith;
    short = elim why [ inl e ↦ inl e | inr full ↦ inr (inl full) ];
    written = λ o low high. absurd (omega arith);
    outside = λ o below apart. refl;
    blocks = λ o low high. absurd (omega arith);
    keeps = λ k below ne. ne;
  }

  -- A round that copies `c` of the `m` bytes it is to copy, of which `t` are counted.
  module _ (ip ip' : Inode) (d d' : Blocks) (src off n m c addr : ℕ) (f : IsFile sb ip d)
      (w : Mapped sb ip (off / bsize) d addr ip' d') (below : off < maxfile * bsize) (ne : addr ≢ 0)
      (fits : off % bsize + m ≤ bsize) (le : c ≤ m) (le_n : m ≤ n) where
    abbrev block_no : ℕ
    block_no = off / bsize

    abbrev target : ℕ
    target = block_of ip' d' block_no

    abbrev pub put : ℕ → ℕ
    put = paste (d' target) (off % bsize) c (λ i. user (src + i))

    block_lt : block_no < maxfile
    block_lt = omega arith

    target_ne : target ≢ 0
    target_ne z = ne (sym (w.result) ∙ z)

    file_now : IsFile sb ip' d'
    file_now = bmap-IsFile sb ip ip' d d' block_no addr f w block_lt

    pub byte_lt : (k : ℕ) → put k < 256
    byte_lt k = ground (arith, byte (src + (k - off % bsize)), w.fs.bytes target k)

    blocks_same : (k : ℕ) → block_of ip' (update d' target put) k ≡ block_of ip' d' k
    blocks_same k =
        overwrite-block_of sb ip' d' block_no put (w.fs) file_now block_lt target_ne byte_lt k

    pub kept : (k : ℕ) → k < maxfile → block_of ip d k ≢ 0 → block_of ip' d' k ≢ 0
    kept k lt_k n z = n (sym (bmap-stays sb ip ip' d d' block_no addr f w block_lt k lt_k n) ∙ z)

    byte_at :
        (o : ℕ)
        → o < maxfile * bsize
        → file_byte ip' (update d' target put) o ≡ (
            if leb off o && ltb o (off + c)
            then user (src + (o - off))
            else if o / bsize == block_no
            then d' target (o % bsize)
            else file_byte ip' d' o)
    byte_at o lt_o =
        overwrite-file_byte sb ip' d' block_no put (w.fs) file_now block_lt target_ne byte_lt o lt_o
        ∙ paste-in_block (d' target) (λ i. user (src + i)) off c o (file_byte ip' d' o)
            (omega arith)

    outside_byte :
        (o : ℕ)
        → o < maxfile * bsize
        → (o < off) ⊎ (off + n ≤ o)
        → (if leb off o && ltb o (off + c)
            then user (src + (o - off))
            else if o / bsize == block_no
            then d' target (o % bsize)
            else file_byte ip' d' o)
          ≡ file_byte ip' d' o
    outside_byte o lt_o apart =
        let out : (leb off o && ltb o (off + c)) ≡ false = ground arith in
        elim (Bool-cases (o / bsize == block_no)) [
          | inr other ↦ rw (out, other)
          | inl here ↦
              let e : block_of ip' d' (o / bsize) ≡ target = ap (block_of ip' d') (ground arith) in
              let there : (block_of ip' d' (o / bsize) == 0) ≡ false =
                ap (λ x. x == 0) e ∙ ground arith in
              rw (out, here, there) (ap (λ x. d' x (o % bsize)) (sym e))
        ]

    pub Wrote-block :
        (t : ℕ)
        → t ≤ c
        → (t ≡ n) ⊎ ((x : ℕ) × (k : ℕ) × (copied x k < k))
        → Wrote user copied sb ip d src off n t ip'
            (update d' addr (paste (d' addr) (off % bsize) c (λ i. user (src + i))))
    Wrote-block t le_t why =
        subst
          (λ a.
            Wrote user copied sb ip d src off n t ip'
              (update d' a (paste (d' a) (off % bsize) c (λ i. user (src + i)))))
          (w.result)
          (record {
            fs = overwrite-IsFs sb ip' d' block_no put (w.fs) file_now block_lt target_ne byte_lt;
            file =
                overwrite-IsFile sb ip' d' block_no put (w.fs) file_now block_lt target_ne byte_lt;
            same_size = w.same_size;
            at_most = omega arith;
            short = elim why [ inl e ↦ inl e | inr failed ↦ inr (inr failed) ];
            written = λ o low high. byte_at o (ground arith) ∙ ground arith;
            outside = λ o lt_o apart.
                byte_at o lt_o
                ∙ outside_byte o lt_o apart
                ∙ bmap-file_byte sb ip ip' d d' block_no addr f w block_lt o lt_o;
            blocks = λ o low high.
                let e : o / bsize ≡ block_no = omega arith in
                λ z. target_ne (ap (block_of ip' d') (sym e) ∙ sym (blocks_same (o / bsize)) ∙ z);
            keeps = λ k lt_k n z. kept k lt_k n (sym (blocks_same k) ∙ z);
          })

  -- A round that gets no block.
  pub Wrote-full :
      (ip ip' : Inode) (d d' : Blocks) (src off n : ℕ)
      → IsFile sb ip d
      → Mapped sb ip (off / bsize) d 0 ip' d'
      → off < maxfile * bsize
      → Wrote user copied sb ip d src off n 0 ip' d'
  Wrote-full ip ip' d d' src off n f w below = record {
    fs = w.fs;
    file = bmap-IsFile sb ip ip' d d' (off / bsize) 0 f w (omega arith);
    same_size = w.same_size;
    at_most = omega arith;
    short = inr (inl (w.full refl));
    written = λ o low high. absurd (omega arith);
    outside =
        λ o lt_o apart. bmap-file_byte sb ip ip' d d' (off / bsize) 0 f w (omega arith) o lt_o;
    blocks = λ o low high. absurd (omega arith);
    keeps = λ k lt_k n z.
        n (sym (bmap-stays sb ip ip' d d' (off / bsize) 0 f w (omega arith) k lt_k n) ∙ z);
  }

  -- Two writes, one after the other.
  pub Wrote-both :
      (ip ip1 ip2 : Inode) (d d1 d2 : Blocks) (src off n m t : ℕ)
      → off + n ≤ maxfile * bsize
      → m ≤ n
      → Wrote user copied sb ip d src off m m ip1 d1
      → Wrote user copied sb ip1 d1 (src + m) (off + m) (n - m) t ip2 d2
      → Wrote user copied sb ip d src off n (m + t) ip2 d2
  Wrote-both ip ip1 ip2 d d1 d2 src off n m t below le a b = record {
    fs = b.fs;
    file = b.file;
    same_size = b.same_size ∙ a.same_size;
    at_most = omega (arith, b.at_most);
    short = elim (b.short) [ inl e ↦ inl (omega arith) | inr why ↦ inr why ];
    written = λ o low high. elim (Bool-cases (ltb o (off + m))) [
      | inl first ↦ b.outside o (ground arith) (inl (ground arith)) ∙ a.written o low (ground arith)
      | inr second ↦
          let e : src + m + (o - (off + m)) ≡ src + (o - off) = ground arith in
          b.written o (ground arith) (ground arith) ∙ ap user e
    ];
    outside = λ o lt apart.
        b.outside o lt (elim apart [ inl lo ↦ inl (omega arith) | inr hi ↦ inr (omega arith) ])
        ∙ a.outside o lt (elim apart [ inl lo ↦ inl lo | inr hi ↦ inr (omega arith) ]);
    blocks = λ o low high. elim (Bool-cases (ltb o (off + m))) [
      | inl first ↦ b.keeps (o / bsize) (ground arith) (a.blocks o low (ground arith))
      | inr second ↦ b.blocks o (ground arith) (ground arith)
    ];
    keeps = λ k lt ne. b.keeps k lt (a.keeps k lt ne);
  }
