-- ===== src/Log/Header.antt =====
-- The header block: what `write_head` stores is what `read_head` reads back.
use xv.Prelude.{ℕ, ◌+◌, ◌<◌, ◌≡◌, refl, List, [], ◌∷◌, arith, length, update, ◌∙◌, ap}
use xv.Log.{put_blocks, take_blocks}
use xv.Log.Machine.{Block}
use mathlib.Core.Path.{ap₂}

-- The block numbers that a header block holds.
abbrev pub head_blocks : Block → List ℕ
head_blocks h = take_blocks 0 (h 0) h

-- The header block of `lh`, stored over `h`.
abbrev pub header : List ℕ → Block → Block
header lh h = put_blocks 0 lh (update h 0 (length lh))

put_blocks_below : (i : ℕ) (bs : List ℕ) (h : Block) (k : ℕ) → k < i + 1 → put_blocks i bs h k ≡ h k
unfolding put_blocks
put_blocks_below i [] h k lt = refl
put_blocks_below i (b ∷ bs) h k lt =
    put_blocks_below (i + 1) bs (update h (i + 1) b) k (omega arith) ∙ ground arith

take-put : (i : ℕ) (bs : List ℕ) (h : Block) → take_blocks i (length bs) (put_blocks i bs h) ≡ bs
unfolding put_blocks take_blocks
take-put i [] h = refl
take-put i (b ∷ bs) h =
    ap₂ ◌∷◌ (put_blocks_below (i + 1) bs (update h (i + 1) b) (i + 1) (omega arith) ∙ ground arith)
      (take-put (i + 1) bs (update h (i + 1) b))

pub head_blocks-header : (bs : List ℕ) (h : Block) → head_blocks (header bs h) ≡ bs
head_blocks-header bs h =
    let e : header bs h 0 ≡ length bs = put_blocks_below 0 bs _ 0 (omega arith) in
    ap (λ n. take_blocks 0 n (header bs h)) e ∙ take-put 0 bs (update h 0 (length bs))
