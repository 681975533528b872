-- ===== src/Fs/Bmap.antt =====
-- `bmap`: the blocks of a file, direct and indirect.
use xv.Prelude.{
  ℕ, ◌+◌, ◌-◌, ◌*◌, ◌≤◌, ◌<◌, ◌≡◌, refl, ap, ◌∙◌, ◌≢◌, inl, inr, true, false, arith, ltb, ◌==◌,
  if◌then◌else◌, Bool-cases, sym, ◌⊎◌, Bool, ◌||◌, update,
}
use xv.Fs.{Inode, Superblock, Blocks, get_uint, ndirect, maxfile, bblock, nindirect, bmap, bsize}
use xv.Fs.Bitmap.{IsFs, is_used}
use xv.Fs.Balloc.{balloc-Taken}
use xv.Fs.Indirect.{InBlock, get_uint-same, bmap_indirect-InBlock}
use xv.Fs.Balloc.{Taken, balloc-Taken}
use xv.Panic.{panic, ok}

-- The block that holds block `bn` of the file, 0 for none.
abbrev pub block_of : Inode → Blocks → ℕ → ℕ
block_of ip d bn =
    if ltb bn ndirect
    then ip.addrs bn
    else if ip.addrs ndirect == 0
    then 0
    else get_uint d (ip.addrs ndirect) (bn - ndirect)

-- The indirect block is a used data block.
pub record IsInode (sb : Superblock) (ip : Inode) (d : Blocks) : Type 0 where
  pub indirect_data : ip.addrs ndirect ≢ 0 → bblock sb sb.size < ip.addrs ndirect
  pub indirect_fits : ip.addrs ndirect < sb.size
  pub indirect_used : ip.addrs ndirect ≢ 0 → is_used sb d (ip.addrs ndirect) ≡ true

-- The outcome of `bmap` for block `bn`: what it returns is the block of `bn` from then on, and every
-- other block of the file stays where it is.
pub record Mapped (sb : Superblock) (ip : Inode) (bn : ℕ) (d : Blocks) (addr : ℕ) (ip' : Inode)
    (d' : Blocks) : Type 0 where
  pub fs : IsFs sb d'
  pub inode : IsInode sb ip' d'
  pub same_size : ip'.size ≡ ip.size
  pub result : block_of ip' d' bn ≡ addr
  pub others : (k : ℕ) → k < maxfile → k ≢ bn → block_of ip' d' k ≡ block_of ip d k
  pub kept : block_of ip d bn ≢ 0 → addr ≡ block_of ip d bn
  pub used : (x : ℕ) → x ≤ sb.size → is_used sb d x ≡ true → is_used sb d' x ≡ true
  pub fresh :
      block_of ip d bn ≡ 0 → addr ≢ 0 → (is_used sb d addr ≡ false) × (is_used sb d' addr ≡ true)
  pub data_same :
      (x k : ℕ)
      → bblock sb sb.size < x
      → x ≤ sb.size
      → is_used sb d x ≡ true
      → x ≢ ip.addrs ndirect
      → d' x k ≡ d x k
  pub zeroed : block_of ip d bn ≡ 0 → addr ≢ 0 → (k : ℕ) → k < bsize → d' addr k ≡ 0
  pub place :
      block_of ip d bn ≡ 0
      → addr ≢ 0
      → (bblock sb sb.size < addr) × (addr < sb.size) × (addr ≢ ip'.addrs ndirect)
  pub indirect : (ip'.addrs ndirect ≡ ip.addrs ndirect) ⊎ (is_used sb d (ip'.addrs ndirect) ≡ false)
  pub full : addr ≡ 0 → (x : ℕ) → x < sb.size → is_used sb d' x ≡ true

or_false : (a b : Bool) → (a || b) ≡ false → b ≡ false
or_false true b h = cc
or_false false b h = h

module _ (sb : Superblock) (small : sb.size < 4294967296) where
  -- Nothing is changed.
  unchanged :
      (ip : Inode) (bn addr : ℕ) (d : Blocks)
      → IsFs sb d
      → IsInode sb ip d
      → block_of ip d bn ≡ addr
      → (addr ≡ 0 → (x : ℕ) → x < sb.size → is_used sb d x ≡ true)
      → Mapped sb ip bn d addr ip d
  unchanged ip bn addr d v i e none_free = record {
    fs = v;
    inode = i;
    same_size = refl;
    result = e;
    others = λ k below ne. refl;
    kept = λ n. sym e;
    used = λ x le u. u;
    fresh = λ z n. absurd (n (sym e ∙ z));
    data_same = λ x k data_block le u ne. refl;
    zeroed = λ z n. absurd (n (sym e ∙ z));
    place = λ z n. absurd (n (sym e ∙ z));
    indirect = inl refl;
    full = none_free;
  }

  -- A direct block that is missing.
  direct_missing :
      (ip : Inode) (bn b : ℕ) (d d' : Blocks)
      → bn < ndirect
      → ip.addrs bn ≡ 0
      → IsInode sb ip d
      → Taken sb b d d'
      → Mapped sb ip bn d b (record ip { addrs = update ip.addrs bn b }) d'
  direct_missing ip bn b d d' lt missing i t =
      let not_indirect : update ip.addrs bn b ndirect ≡ ip.addrs ndirect = ground arith in
      let apart : b ≢ ip.addrs ndirect = λ same. elim (Bool-cases (ip.addrs ndirect == 0)) [
        | inl none_yet ↦ absurd (ground (arith, t.is_data))
        | inr there ↦ cc (t.was_free, i.indirect_used (ground arith), ap (is_used sb d) same)
      ] in
      record {
        fs = t.valid;
        inode = record {
          indirect_data = λ ne. rw not_indirect (i.indirect_data (rw not_indirect at ne));
          indirect_fits = rw not_indirect (i.indirect_fits);
          indirect_used = λ ne. rw not_indirect (
              t.bits (ip.addrs ndirect) (omega (arith, i.indirect_fits))
              ∙ ground (arith, i.indirect_used (rw not_indirect at ne)));
        };
        same_size = refl;
        result = ground arith;
        others = λ k below ne. elim (Bool-cases (ltb k ndirect)) [
          | inl direct ↦ ground arith
          | inr far ↦ elim (Bool-cases (ip.addrs ndirect == 0)) [
            | inl none_yet ↦ rw (far, not_indirect, none_yet)
            | inr there ↦
                let held = i.indirect_used (ground arith) in
                let other : ip.addrs ndirect ≢ b =
                  λ same. cc (t.was_free, held, ap (is_used sb d) same) in
                rw (far, not_indirect, there)
                  (get_uint-same d d' (ip.addrs ndirect) (k - ndirect)
                    (λ j. t.others (ip.addrs ndirect) j (i.indirect_data (ground arith)) other))
          ]
        ];
        kept = λ ne. absurd (ground arith);
        used = λ x le u. t.bits x le ∙ ground arith;
        fresh = λ z ne. (t.was_free, t.bits b (omega (arith, t.in_range)) ∙ ground arith);
        data_same = λ x k data_block le u ne.
            t.others x k data_block (λ same. cc (t.was_free, u, ap (is_used sb d) same));
        zeroed = λ z n. t.zeroed;
        place = λ z n. (t.is_data, t.in_range, λ same. apart (same ∙ not_indirect));
        indirect = inl not_indirect;
        full = λ z. absurd (omega (arith, t.is_data));
      }

  -- An indirect block that is there.
  indirect_there :
      (ip : Inode) (bn found : ℕ) (d d' : Blocks)
      → ip.addrs ndirect ≢ 0
      → ndirect ≤ bn
      → IsInode sb ip d
      → InBlock sb (ip.addrs ndirect) (bn - ndirect) d found d'
      → Mapped sb ip bn d found ip d'
  indirect_there ip bn found d d' ne le i w =
      let far : ltb bn ndirect ≡ false = ground arith in
      let there : (ip.addrs ndirect == 0) ≡ false = ground arith in
      let before : block_of ip d bn ≡ get_uint d (ip.addrs ndirect) (bn - ndirect) =
        rw (far, there) in
      record {
        fs = w.fs;
        inode = record {
          indirect_data = i.indirect_data;
          indirect_fits = i.indirect_fits;
          indirect_used =
              λ n. w.used (ip.addrs ndirect) (omega (arith, i.indirect_fits)) (i.indirect_used n);
        };
        same_size = refl;
        result = rw (far, there) (w.result);
        others = λ k below other. elim (Bool-cases (ltb k ndirect)) [
          | inl direct ↦ rw direct
          | inr far_k ↦ rw (far_k, there) (w.others (k - ndirect) (ground arith))
        ];
        kept = λ n. w.kept (λ z. n (before ∙ z)) ∙ sym before;
        used = w.used;
        fresh = λ z n. w.fresh (sym before ∙ z) n;
        data_same = w.data_same;
        zeroed = λ z n. w.zeroed (sym before ∙ z) n;
        place = λ z n. (
          w.is_data (sym before ∙ z) n,
          w.range (sym before ∙ z),
          λ same. cc ((w.fresh (sym before ∙ z) n).0, i.indirect_used ne, ap (is_used sb d) same),
        );
        indirect = inl refl;
        full = w.full;
      }

  -- An indirect block that has just been taken: all its words are 0.
  indirect_new :
      (ip : Inode) (bn b found : ℕ) (d d1 d' : Blocks)
      → ip.addrs ndirect ≡ 0
      → ndirect ≤ bn
      → bn < maxfile
      → Taken sb b d d1
      → InBlock sb b (bn - ndirect) d1 found d'
      → Mapped sb ip bn d found (record ip { addrs = update ip.addrs ndirect b }) d'
  indirect_new ip bn b found d d1 d' missing le below_max t w =
      let far : ltb bn ndirect ≡ false = ground arith in
      let there : (b == 0) ≡ false = ground (arith, t.is_data) in
      let zero_word : (k : ℕ) → k < nindirect → get_uint d1 b k ≡ 0 = λ k lt. omega (
        arith,
        t.zeroed (4 * k) (omega arith),
        t.zeroed (4 * k + 1) (omega arith),
        t.zeroed (4 * k + 2) (omega arith),
        t.zeroed (4 * k + 3) (omega arith),
      ) in
      record {
        fs = w.fs;
        inode = record {
          indirect_data = λ ne. t.is_data;
          indirect_fits = t.in_range;
          indirect_used = λ n.
              w.used b (omega (arith, t.in_range))
                (t.bits b (omega (arith, t.in_range)) ∙ ground arith);
        };
        same_size = refl;
        result = rw (far, there) (w.result);
        others = λ k below other. elim (Bool-cases (ltb k ndirect)) [
          | inl direct ↦ ground arith
          | inr far_k ↦
              rw (far_k, there, missing)
                (w.others (k - ndirect) (ground arith) ∙ zero_word (k - ndirect) (ground arith))
        ];
        kept = λ n. absurd (n (rw (far, missing)));
        used = λ x lt u. w.used x lt (t.bits x lt ∙ ground arith);
        fresh = λ z n.
            let zero = zero_word (bn - ndirect) (omega arith) in
            let found_new = w.fresh zero n in
            let before = t.bits found (omega (arith, w.range zero)) in
            (or_false _ _ (sym before ∙ found_new.0), found_new.1);
        data_same = λ x k data_block le u ne.
            let new : x ≢ b = λ same. cc (t.was_free, u, ap (is_used sb d) same) in
            w.data_same x k data_block le (t.bits x le ∙ ground arith) new
            ∙ t.others x k data_block new;
        zeroed = λ z n. w.zeroed (zero_word (bn - ndirect) (omega arith)) n;
        place = λ z n.
            let zero = zero_word (bn - ndirect) (omega arith) in
            (
              w.is_data zero n,
              w.range zero,
              λ same.
                  let self : update ip.addrs ndirect b ndirect ≡ b = ground arith in
                  let taken : is_used sb d1 b ≡ true =
                    t.bits b (omega (arith, t.in_range)) ∙ ground arith in
                  cc ((w.fresh zero n).0, taken, ap (is_used sb d1) (same ∙ self)),
            );
        indirect = inr (t.was_free);
        full = w.full;
      }

  -- On a file system in order with fewer than 2^32 blocks, for an inode whose indirect block, if
  -- there is one, is a used data block: past the last block `bmap` panics. Else it returns the
  -- block of `bn`, which it looks up or takes from the free blocks, zeroed, and from then on that
  -- is the block of `bn`; all other blocks of the file stay where they are, the data of used
  -- blocks other than the indirect one does not change, and no used block becomes free. It returns
  -- 0 only if no block is free.
  pub bmap_lem :
      (ip : Inode) (bn : ℕ) (d : Blocks)
      → IsFs sb d
      → IsInode sb ip d
      → ((maxfile ≤ bn) × (bmap sb ip bn d ≡ panic "bmap: out of range"))
        ⊎ ((addr : ℕ) × (ip' : Inode) × (d' : Blocks) × (bmap sb ip bn d ≡ ok (addr, ip', d'))
            × Mapped sb ip bn d addr ip' d')
  unfolding bmap
  bmap_lem ip bn d v i = elim (Bool-cases (ltb bn ndirect)) [
    | inl direct ↦ inr (elim (Bool-cases (ip.addrs bn == 0)) [
      | inr there ↦ (
        ip.addrs bn,
        ip,
        d,
        rw (direct, there),
        unchanged ip bn (ip.addrs bn) d v i (rw direct) (λ z. absurd (ground arith)),
      )
      | inl missing ↦ elim (balloc-Taken sb d v) [
        | inl (e, none_free) ↦ (
          0,
          ip,
          d,
          rw (direct, missing, e) refl,
          unchanged ip bn 0 d v i (ground arith) (λ z. none_free),
        )
        | inr (b, d', e, t) ↦
            let not_zero : (b == 0) ≡ false = ground (arith, t.is_data) in
            (
              b,
              record ip { addrs = update ip.addrs bn b },
              d',
              rw (direct, missing, e, not_zero) refl,
              direct_missing ip bn b d d' (ground arith) (ground arith) i t,
            )
      ]
    ])
    | inr far ↦ elim (Bool-cases (ltb (bn - ndirect) nindirect)) [
      | inr out ↦ inl (ground arith, rw (far, out))
      | inl within ↦ inr (elim (Bool-cases (ip.addrs ndirect == 0)) [
        | inr there ↦
            let (found, d', e, w) =
              bmap_indirect-InBlock sb small (ip.addrs ndirect) (bn - ndirect) d v
                (i.indirect_data (ground arith)) (i.indirect_fits)
                (i.indirect_used (ground arith)) in
            (
              found,
              ip,
              d',
              rw (far, within, there, e) refl,
              indirect_there ip bn found d d' (ground arith) (ground arith) i w,
            )
        | inl missing ↦ elim (balloc-Taken sb d v) [
          | inl (e, none_free) ↦ (
            0,
            ip,
            d,
            rw (far, within, missing, e) refl,
            unchanged ip bn 0 d v i (rw (far, missing)) (λ z. none_free),
          )
          | inr (b, d1, e, t) ↦
              let not_zero : (b == 0) ≡ false = ground (arith, t.is_data) in
              let (found, d', e2, w) =
                bmap_indirect-InBlock sb small b (bn - ndirect) d1 (t.valid) (t.is_data)
                  (t.in_range) (t.bits b (omega (arith, t.in_range)) ∙ ground arith) in
              (
                found,
                record ip { addrs = update ip.addrs ndirect b },
                d',
                rw (far, within, missing, e, not_zero, e2) refl,
                indirect_new ip bn b found d d1 d' (ground arith) (ground arith) (ground arith) t w,
              )
        ]
      ])
    ]
  ]
