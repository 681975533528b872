-- ===== src/Log.antt =====
-- kernel/log.c: the redo log. `log.lh` is the list of its `n` block numbers.
pub mod Machine
pub mod Header
pub mod Install
pub mod Recovery
pub mod Commit
pub mod Transaction
mod Tests
use xv.Prelude.{
  ℕ, zero, suc, ◌+◌, Bool, true, false, List, [], ◌∷◌, if◌then◌else◌, ltb, length, update,
}
use Machine.{Block, Cmd, ◌>>=◌, ◌>>◌, pure, bread, bwrite, bunpin}

-- `LOGSIZE` and `MAXOPBLOCKS` of kernel/param.h
abbrev pub logsize : ℕ
logsize = 30

abbrev pub maxopblocks : ℕ
maxopblocks = 10

-- `hb->block[i] = log.lh.block[i]`, from `i` on. Word 0 of the header holds `n`.
pub put_blocks : ℕ → List ℕ → Block → Block
put_blocks i [] h = h
put_blocks i (b ∷ bs) h = put_blocks (i + 1) bs (update h (i + 1) b)

-- `log.lh.block[i] = lh->block[i]`, for `left` rounds from `i` on
pub take_blocks : ℕ → ℕ → Block → List ℕ
take_blocks i zero h = []
take_blocks i (suc left) h = h (i + 1) ∷ take_blocks (i + 1) left h

-- `log.start` is a parameter of what follows.
module _ (start : ℕ) where
  pub read_head : Cmd (List ℕ)
  read_head = do h ← bread start; pure (take_blocks 0 (h 0) h)

  pub write_head : List ℕ → Cmd (Unit {0})
  write_head lh = do h ← bread start; bwrite start (put_blocks 0 lh (update h 0 (length lh)))

  -- The rounds of `install_trans` from `tail` on, for the blocks that are left.
  pub install_trans : Bool → ℕ → List ℕ → Cmd (Unit {0})
  install_trans recovering tail [] = pure tt
  install_trans recovering tail (b ∷ bs) = do
    lbuf ← bread (start + tail + 1)
    bwrite b lbuf
    if recovering then pure tt else bunpin b
    install_trans recovering (tail + 1) bs

  -- The rounds of `write_log` from `tail` on.
  pub write_log : ℕ → List ℕ → Cmd (Unit {0})
  write_log tail [] = pure tt
  write_log tail (b ∷ bs) = do
    from ← bread b
    bwrite (start + tail + 1) from
    write_log (tail + 1) bs

  -- It leaves `log.lh.n` at 0.
  pub recover_from_log : Cmd (Unit {0})
  recover_from_log = do lh ← read_head; install_trans true 0 lh; write_head []

  -- The result is the new `log.lh`.
  pub commit : List ℕ → Cmd (List ℕ)
  commit lh =
      if ltb 0 (length lh)
      then (do write_log 0 lh; write_head lh; install_trans false 0 lh; write_head []; pure [])
      else pure lh
