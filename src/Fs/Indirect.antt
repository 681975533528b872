-- ===== src/Fs/Indirect.antt =====
-- The words of an indirect block, and the part of `bmap` that looks for one of them.
use xv.Prelude.{
  ℕ, ◌+◌, ◌*◌, ◌/◌, ◌%◌, ◌≤◌, ◌<◌, ◌≡◌, refl, ap, ◌∙◌, ◌≢◌, inl, inr, true, false, arith, ◌==◌,
  Bool-cases,
}
use xv.Fs.{Superblock, Blocks, get_uint, put_uint, bblock, bmap_indirect, bsize}
use xv.Fs.Bitmap.{IsFs, is_used, map_same, IsFs-outside}
use xv.Fs.Balloc.{balloc-Taken}

get-put_same : (d : Blocks) (b j v : ℕ) → v < 4294967296 → get_uint (put_uint d b j v) b j ≡ v
get-put_same d b j v small =
    let e0 : put_uint d b j v b (4 * j) ≡ v % 256 = ground arith in
    let e1 : put_uint d b j v b (4 * j + 1) ≡ v / 256 % 256 = ground arith in
    let e2 : put_uint d b j v b (4 * j + 2) ≡ v / 65536 % 256 = ground arith in
    let e3 : put_uint d b j v b (4 * j + 3) ≡ v / 16777216 % 256 = ground arith in
    omega (arith, e0, e1, e2, e3)

get-put_other :
    (d : Blocks) (b j k v : ℕ) → k ≢ j → get_uint (put_uint d b j v) b k ≡ get_uint d b k
get-put_other d b j k v ne =
    let e0 : put_uint d b j v b (4 * k) ≡ d b (4 * k) = ground arith in
    let e1 : put_uint d b j v b (4 * k + 1) ≡ d b (4 * k + 1) = ground arith in
    let e2 : put_uint d b j v b (4 * k + 2) ≡ d b (4 * k + 2) = ground arith in
    let e3 : put_uint d b j v b (4 * k + 3) ≡ d b (4 * k + 3) = ground arith in
    omega (arith, e0, e1, e2, e3)

put_uint-byte : (d : Blocks) (b j v x k : ℕ) → d x k < 256 → put_uint d b j v x k < 256
put_uint-byte d b j v x k small = ground arith

-- The word of a block that is the same on both disks.
pub get_uint-same :
    (d d' : Blocks) (b k : ℕ) → ((i : ℕ) → d' b i ≡ d b i) → get_uint d' b k ≡ get_uint d b k
get_uint-same d d' b k same =
    omega (arith, same (4 * k), same (4 * k + 1), same (4 * k + 2), same (4 * k + 3))

-- The outcome for word `bn` of the indirect block `a`.
pub record InBlock (sb : Superblock) (a bn : ℕ) (d : Blocks) (found : ℕ) (d' : Blocks)
    : Type 0 where
  pub fs : IsFs sb d'
  pub result : get_uint d' a bn ≡ found
  pub others : (k : ℕ) → k ≢ bn → get_uint d' a k ≡ get_uint d a k
  pub kept : get_uint d a bn ≢ 0 → found ≡ get_uint d a bn
  pub used : (x : ℕ) → x ≤ sb.size → is_used sb d x ≡ true → is_used sb d' x ≡ true
  pub fresh :
      get_uint d a bn ≡ 0 → found ≢ 0 → (is_used sb d found ≡ false) × (is_used sb d' found ≡ true)
  pub data_same :
      (x k : ℕ)
      → bblock sb sb.size < x
      → x ≤ sb.size
      → is_used sb d x ≡ true
      → x ≢ a
      → d' x k ≡ d x k
  pub zeroed : get_uint d a bn ≡ 0 → found ≢ 0 → (k : ℕ) → k < bsize → d' found k ≡ 0
  pub is_data : get_uint d a bn ≡ 0 → found ≢ 0 → bblock sb sb.size < found
  pub range : get_uint d a bn ≡ 0 → found < sb.size
  pub full : found ≡ 0 → (x : ℕ) → x < sb.size → is_used sb d' x ≡ true

module _ (sb : Superblock) (small : sb.size < 4294967296) where
  -- A word is written into a data block.
  put_uint-map :
      (d : Blocks) (a j v x : ℕ)
      → bblock sb sb.size < a
      → x ≤ sb.size
      → is_used sb (put_uint d a j v) x ≡ is_used sb d x
  put_uint-map d a j v x above le = map_same sb d (put_uint d a j v) x (λ b k low. ground arith) le

  pub bmap_indirect-InBlock :
      (a bn : ℕ) (d : Blocks)
      → IsFs sb d
      → bblock sb sb.size < a
      → a < sb.size
      → is_used sb d a ≡ true
      → (found : ℕ) × (d' : Blocks) × (bmap_indirect sb a bn d ≡ (found, d'))
        × InBlock sb a bn d found d'
  unfolding bmap_indirect
  bmap_indirect-InBlock a bn d v above lt held = elim (Bool-cases (get_uint d a bn == 0)) [
    | inr there ↦ (
      get_uint d a bn,
      d,
      rw there,
      record {
        fs = v;
        result = refl;
        others = λ k ne. refl;
        kept = λ ne. refl;
        used = λ x le u. u;
        fresh = λ z ne. absurd (ne z);
        data_same = λ x k data_block le u ne. refl;
        zeroed = λ z. absurd (ground arith);
        is_data = λ z. absurd (ground arith);
        range = λ z. absurd (ground arith);
        full = λ z. absurd (ground arith);
      },
    )
    | inl missing ↦ elim (balloc-Taken sb d v) [
      | inl (e, none_free) ↦ (
        0,
        d,
        rw (missing, e) refl,
        record {
          fs = v;
          result = ground arith;
          others = λ k ne. refl;
          kept = λ ne. absurd (ground arith);
          used = λ x le u. u;
          fresh = λ z ne. absurd (ne refl);
          data_same = λ x k data_block le u ne. refl;
          zeroed = λ z n. absurd (n refl);
          is_data = λ z n. absurd (n refl);
          range = λ z. omega (arith, v.fits);
          full = λ z. none_free;
        },
      )
      | inr (b, d1, e, t) ↦
          let not_zero : (b == 0) ≡ false = ground (arith, t.is_data) in
          let other : a ≢ b = λ same. cc (t.was_free, held, ap (is_used sb d) same) in
          let d2 : Blocks = put_uint d1 a bn b in
          let word : (k : ℕ) → get_uint d1 a k ≡ get_uint d a k =
            λ k. get_uint-same d d1 a k (λ i. t.others a i above other) in
          (
            b,
            d2,
            rw (missing, e, not_zero) refl,
            record {
              fs =
                  IsFs-outside d2 t.valid (λ x k le. ground arith)
                    (λ x k. put_uint-byte d1 a bn b x k (t.valid.bytes x k));
              result = get-put_same d1 a bn b (omega (arith, t.in_range));
              others = λ k ne. get-put_other d1 a bn k b ne ∙ word k;
              kept = λ ne. absurd (ground arith);
              used = λ x le u. put_uint-map d1 a bn b x above le ∙ t.bits x le ∙ ground arith;
              fresh = λ z ne. (
                t.was_free,
                put_uint-map d1 a bn b b above (omega (arith, t.in_range))
                    ∙ t.bits b (omega (arith, t.in_range))
                    ∙ ground arith,
              );
              data_same = λ x k data_block le u ne.
                  let new : x ≢ b = λ e. cc (t.was_free, u, ap (is_used sb d) e) in
                  let step : d2 x k ≡ d1 x k = ground (arith, ne) in
                  step ∙ t.others x k data_block new;
              zeroed = λ z n k lt.
                  let step : d2 b k ≡ d1 b k = ground (arith, other) in step ∙ t.zeroed k lt;
              is_data = λ z n. t.is_data;
              range = λ z. t.in_range;
              full = λ z. absurd (omega (arith, t.is_data));
            },
          )
    ]
  ]
