-- ===== src/Log/Install.antt =====
-- What a disk with a log means, and the loop that copies the log to the home blocks.
use xv.Prelude.{
  ℕ, ◌+◌, ◌≤◌, ◌<◌, ◌≡◌, ◌∙◌, ◌≢◌, ◌⊎◌, inl, inr, Bool, List, [], ◌∷◌, arith, length, All, NotIn,
  ◌==◌, if◌then◌else◌, Bool-cases, ap, All-map, true, false,
}
use xv.Log.{install_trans}
use xv.Log.Machine.{Block, Disk, Machine, Ends, ends, written, write_rule, mono}
use xv.Log.Header.{head_blocks}

-- The log takes the blocks from `start` to `start + size`: the header and `size - 1` blocks.
abbrev pub InLog : ℕ → ℕ → ℕ → Type 0
InLog start size b = (start ≤ b) × (b < start + size)

abbrev pub OutLog : ℕ → ℕ → ℕ → Type 0
OutLog start size b = (b < start) ⊎ (start + size ≤ b)

-- Block `b` once the log blocks from `tail` on are copied to their homes `bs`.
abbrev pub replay : ℕ → Disk → ℕ → List ℕ → ℕ → Block
replay start d tail [] b = d b
replay start d tail (c ∷ cs) b =
    if c == b then d (start + tail + 1) else replay start d (tail + 1) cs b

-- Block `b` of the file system that the disk stands for: its log, if its header counts any block,
-- overrides the home blocks.
abbrev pub logical : ℕ → Disk → ℕ → Block
logical start d b = replay start d 0 (head_blocks (d start)) b

-- The log blocks from `tail` on hold the contents `new` of the blocks `bs`.
abbrev pub Logged : ℕ → Disk → (ℕ → Block) → ℕ → List ℕ → Type 0
Logged start d new tail [] = Unit
Logged start d new tail (c ∷ cs) = (d (start + tail + 1) ≡ new c) × Logged start d new (tail + 1) cs

module _ (start : ℕ) (new : ℕ → Block) where
  pub replay-Logged :
      (d : Disk) (tail : ℕ) (bs : List ℕ) (b : ℕ)
      → Logged start d new tail bs
      → (NotIn b bs → d b ≡ new b)
      → replay start d tail bs b ≡ new b
  replay-Logged d tail [] b l h = h tt
  replay-Logged d tail (c ∷ cs) b l h = elim (Bool-cases (c == b)) [
    | inl same ↦ rw same (l.0 ∙ ap new (ground arith))
    | inr other ↦ rw other (replay-Logged d (tail + 1) cs b l.1 λ n. h ((ground arith), n))
  ]

  pub Logged-same :
      (d e : Disk) (size tail : ℕ) (bs : List ℕ)
      → tail + length bs < size
      → ((b : ℕ) → start < b → b < start + size → e b ≡ d b)
      → Logged start d new tail bs
      → Logged start e new tail bs
  Logged-same d e size tail [] room same l = tt
  Logged-same d e size tail (c ∷ cs) room same l = (
    same (start + tail + 1) (omega arith) (omega arith) ∙ l.0,
    Logged-same d e size (tail + 1) cs (omega arith) same l.1,
  )

pub not-InLog :
    (start size b : ℕ) (bs : List ℕ) → InLog start size b → All (OutLog start size) bs → NotIn b bs
not-InLog start size b bs i o =
    All-map (OutLog start size) (λ x. x ≢ b) bs (λ x out e. ground arith) o

-- Before the round for the first of `bs`: `log` is the disk's log area, which stays as it is, and
-- the blocks still to be written are those of `bs`.
pub record Installing (start size : ℕ) (log : Disk) (new : ℕ → Block) (bs : List ℕ) (m : Machine)
    : Type 0 where
  pub log_same : (b : ℕ) → InLog start size b → m.disk b ≡ log b
  pub coherent : (b : ℕ) → NotIn b bs → m.cached b ≡ m.disk b
  pub settled : (b : ℕ) → OutLog start size b → NotIn b bs → m.disk b ≡ new b

-- What holds of the disk whenever the power fails: the blocks `all` may have old contents.
pub record Partial (start size : ℕ) (log : Disk) (new : ℕ → Block) (all : List ℕ) (d : Disk)
    : Type 0 where
  pub log_same : (b : ℕ) → InLog start size b → d b ≡ log b
  pub settled : (b : ℕ) → OutLog start size b → NotIn b all → d b ≡ new b

module _ {start size : ℕ} {log : Disk} {new : ℕ → Block} where
  Installing-write :
      {m : Machine} (tail : ℕ) {c : ℕ} {cs : List ℕ}
      → Installing start size log new (c ∷ cs) m
      → OutLog start size c
      → All (OutLog start size) cs
      → tail + 1 < size
      → log (start + tail + 1) ≡ new c
      → Installing start size log new cs (written m c (m.cached (start + tail + 1)))
  Installing-write {m} tail {c} {cs} v out outs room e = record {
    log_same = λ b i. ground (arith, v.log_same b i);
    coherent = λ b n. ground (arith, v.coherent b);
    settled = λ b o n. ground (arith, v.settled b o, value);
  }
    where
      at : ℕ
      at = start + tail + 1

      value : m.cached at ≡ new c
      value =
          v.coherent at (not-InLog start size at (c ∷ cs) (omega arith) (out, outs))
          ∙ v.log_same at (omega arith)
          ∙ e

  Partial-of :
      {all bs : List ℕ} {m : Machine}
      → ((b : ℕ) → NotIn b all → NotIn b bs)
      → Installing start size log new bs m
      → Partial start size log new all m.disk
  Partial-of sub v = record { log_same = v.log_same; settled = λ b o n. v.settled b o (sub b n) }

  module _ (all : List ℕ) where
    -- The loop of `install_trans` ends with all blocks at home if there is power for one write each.
    pub install-Ends :
        (recovering : Bool) (tail : ℕ) (bs : List ℕ) (m : Machine)
        → Installing start size log new bs m
        → All (OutLog start size) bs
        → tail + length bs < size
        → Logged start log new tail bs
        → ((b : ℕ) → NotIn b all → NotIn b bs)
        → Ends
            (λ d. Partial start size log new all d × (m.power < length bs))
            (λ _ m'. Installing start size log new [] m' × (m'.power + length bs ≡ m.power))
            (install_trans start recovering tail bs m)
    unfolding install_trans
    install-Ends recovering tail [] m v outs room logged sub = ends (v, omega arith)
    install-Ends true tail (c ∷ cs) m v outs room logged sub =
        write_rule _ c _ m (λ z. (Partial-of sub v, omega arith))
          λ z.
            mono
              (install-Ends true (tail + 1) cs _
                (Installing-write tail v outs.0 outs.1 (omega arith) logged.0) outs.1 (omega arith)
                logged.1 (λ b n. (sub b n).1))
              (λ d h. (h.0, omega arith)) (λ _ m' h. (h.0, omega arith))
    install-Ends false tail (c ∷ cs) m v outs room logged sub =
        write_rule _ c _ m (λ z. (Partial-of sub v, omega arith))
          λ z.
            mono
              (install-Ends false (tail + 1) cs _
                (unpinned (Installing-write tail v outs.0 outs.1 (omega arith) logged.0)) outs.1
                (omega arith) logged.1 (λ b n. (sub b n).1))
              (λ d h. (h.0, omega arith)) (λ _ m' h. (h.0, omega arith))
      where
        unpinned :
            {m : Machine} {p : ℕ → ℕ}
            → Installing start size log new cs m
            → Installing start size log new cs (record m { pins = p })
        unpinned v = record { log_same = v.log_same; coherent = v.coherent; settled = v.settled }
