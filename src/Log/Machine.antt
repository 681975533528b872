-- ===== src/Log/Machine.antt =====
-- What kernel/log.c sees of the disk and of the buffer cache, with power that may fail.
use xv.Prelude.{ℕ, zero, suc, ◌-◌, update, ◌≡◌, ◌<◌, ap, arith, refl}
use mathlib.Core.Path.{subst}

-- A block of the disk: its 32-bit words by index.
abbrev pub Block : Type 0
Block = ℕ → ℕ

abbrev pub Disk : Type 0
Disk = ℕ → Block

-- `cached b` is what `bread(dev, b)` finds in its buffer: what was last stored there, or what it
-- reads from the disk. `pins b` counts `bpin` less `bunpin` of that buffer. The power fails at the
-- write of a block that finds `power ≡ 0`.
pub record Machine : Type 0 where
  pub disk : Disk
  pub cached : Disk
  pub pins : ℕ → ℕ
  pub power : ℕ

pub data Run (A : Type 0) : Type 0 where
  done : A → Machine → Run A
  crash : Disk → Run A

abbrev pub Cmd : Type 0 → Type 0
Cmd A = Machine → Run A

abbrev pub and_then : {A B : Type 0} → Run A → (A → Cmd B) → Run B
and_then (done a m) k = k a m
and_then (crash d) k = crash d

infixl 5 ◌>>=◌ ◌>>◌
abbrev pub ◌>>=◌ : {A B : Type 0} → Cmd A → (A → Cmd B) → Cmd B
◌>>=◌ c k m = and_then (c m) k

abbrev pub ◌>>◌ : {B : Type 0} → Cmd (Unit {0}) → Cmd B → Cmd B
c >> k = c >>= λ _. k

abbrev pub pure : {A : Type 0} → A → Cmd A
pure a m = done a m

abbrev pub bread : ℕ → Cmd Block
bread b m = done (m.cached b) m

-- `bwrite` of the buffer of block `b` with the contents `x`
abbrev pub bwrite : ℕ → Block → Cmd (Unit {0})
bwrite b x m = elim m.power [
  | zero ↦ crash m.disk
  | suc left ↦
      done tt (record m { disk = update m.disk b x; cached = update m.cached b x; power = left })
]

abbrev pub bunpin : ℕ → Cmd (Unit {0})
bunpin b m = done tt (record m { pins = update m.pins b (m.pins b - 1) })

-- How a run ends: with `Q` of its result, or with `C` of the disk at the power failure.
pub data Ends {A : Type 0} (C : Disk → Type 0) (Q : A → Machine → Type 0) : Run A → Type 0 where
  ends : {a : A} {m : Machine} → Q a m → Ends C Q (done a m)
  crashes : {d : Disk} → C d → Ends C Q (crash d)

module _ {A : Type 0} {C : Disk → Type 0} {P : A → Machine → Type 0} where
  pub bind :
      {B : Type 0} {Q : B → Machine → Type 0} {r : Run A} {k : A → Cmd B}
      → Ends C P r
      → ((a : A) (m : Machine) → P a m → Ends C Q (k a m))
      → Ends C Q (and_then r k)
  bind (ends p) next = next _ _ p
  bind (crashes c) next = crashes c

  pub mono :
      {D : Disk → Type 0} {Q : A → Machine → Type 0} {r : Run A}
      → Ends C P r
      → ((d : Disk) → C d → D d)
      → ((a : A) (m : Machine) → P a m → Q a m)
      → Ends D Q r
  mono (ends p) f g = ends (g _ _ p)
  mono (crashes c) f g = crashes (f _ c)

-- The machine after a write that finds power.
abbrev pub written : Machine → ℕ → Block → Machine
written m b x = record m {
  disk = update m.disk b x;
  cached = update m.cached b x;
  power = m.power - 1;
}

written-suc :
    (d c : Disk) (p : ℕ → ℕ) (k b : ℕ) (x : Block)
    → written (record { disk = d; cached = c; pins = p; power = suc k }) b x
      ≡ record { disk = update d b x; cached = update c b x; pins = p; power = k }
written-suc d c p k b x =
    ap (λ n. record { disk = update d b x; cached = update c b x; pins = p; power = n })
      (omega arith)

write_at :
    {B : Type 0} {C : Disk → Type 0} {Q : B → Machine → Type 0} (k : Unit {0} → Cmd B) (b : ℕ)
    (x : Block) (d c : Disk) (p : ℕ → ℕ) (n : ℕ)
    → let m : Machine = record { disk = d; cached = c; pins = p; power = n } in
      (n ≡ 0 → C d)
      → (0 < n → Ends C Q (k tt (written m b x)))
      → Ends C Q (and_then (bwrite b x m) k)
write_at k b x d c p zero bad good = crashes (bad refl)
write_at {C} {Q} k b x d c p (suc n) bad good =
    subst (λ m. Ends C Q (k tt m)) (written-suc d c p n b x) (good (omega arith))

-- A write, and what follows it if there is power.
pub write_rule :
    {B : Type 0} {C : Disk → Type 0} {Q : B → Machine → Type 0} (k : Unit {0} → Cmd B) (b : ℕ)
    (x : Block) (m : Machine)
    → (m.power ≡ 0 → C m.disk)
    → (0 < m.power → Ends C Q (k tt (written m b x)))
    → Ends C Q (and_then (bwrite b x m) k)
write_rule k b x m bad good = write_at k b x m.disk m.cached m.pins m.power bad good

write_last_at :
    {C : Disk → Type 0} {Q : Unit {0} → Machine → Type 0} (b : ℕ) (x : Block) (d c : Disk)
    (p : ℕ → ℕ) (n : ℕ)
    → let m : Machine = record { disk = d; cached = c; pins = p; power = n } in
      (n ≡ 0 → C d) → (0 < n → Q tt (written m b x)) → Ends C Q (bwrite b x m)
write_last_at b x d c p zero bad good = crashes (bad refl)
write_last_at {Q} b x d c p (suc n) bad good =
    ends (subst (λ m. Q tt m) (written-suc d c p n b x) (good (omega arith)))

-- A write that nothing follows.
pub write_last :
    {C : Disk → Type 0} {Q : Unit {0} → Machine → Type 0} (b : ℕ) (x : Block) (m : Machine)
    → (m.power ≡ 0 → C m.disk)
    → (0 < m.power → Q tt (written m b x))
    → Ends C Q (bwrite b x m)
write_last b x m bad good = write_last_at b x m.disk m.cached m.pins m.power bad good

pub regroup :
    {A B D : Type 0} {C : Disk → Type 0} {Q : D → Machine → Type 0} (r : Run A) (k : A → Cmd B)
    (l : B → Cmd D)
    → Ends C Q (and_then (and_then r k) l)
    → Ends C Q (and_then r λ a m. and_then (k a m) l)
regroup (done a m) k l e = e
regroup (crash d) k l e = e
