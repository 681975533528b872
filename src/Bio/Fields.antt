-- ===== src/Bio/Fields.antt =====
-- kernel/bio.c: what `bpin`, `recycle` and `give_up` change in a buffer, field by field.
use xv.Prelude.{
  ℕ, ◌+◌, ◌-◌, ◌%◌, ◌≡◌, refl, ap, ◌∙◌, ◌≢◌, inl, inr, true, false, arith, ◌==◌, if◌then◌else◌,
  Bool-cases,
}
use mathlib.Core.Path.{subst}
use xv.Sleeplock.{Sleeplock, releasesleep}
use xv.Bio.{Bcache, uint, bpin, recycle, give_up}

-- Buffer `b` of `d` is that of `c` with `n` references and the lock `lk`; the others stay.
pub record HasCount (b n : ℕ) (lk : Sleeplock) (c d : Bcache) : Type 0 where
  pub refcnt : (d.buf b).refcnt ≡ n
  pub lock : (d.buf b).lock ≡ lk
  pub valid : (d.buf b).valid ≡ (c.buf b).valid
  pub dev : (d.buf b).dev ≡ (c.buf b).dev
  pub blockno : (d.buf b).blockno ≡ (c.buf b).blockno
  pub bytes : (d.buf b).bytes ≡ (c.buf b).bytes
  pub others : (k : ℕ) → k ≢ b → d.buf k ≡ c.buf k

-- Buffer `b` of `d` is given to the block, without its bytes; the others stay.
pub record IsGiven (dev blockno b : ℕ) (c d : Bcache) : Type 0 where
  pub valid : (d.buf b).valid ≡ false
  pub refcnt : (d.buf b).refcnt ≡ 1
  pub has_dev : (d.buf b).dev ≡ dev
  pub has_block : (d.buf b).blockno ≡ blockno
  pub lock : (d.buf b).lock ≡ (c.buf b).lock
  pub others : (k : ℕ) → k ≢ b → d.buf k ≡ c.buf k

pub bpin-HasCount :
    (b : ℕ) (c : Bcache) → HasCount b (((c.buf b).refcnt + 1) % uint) (c.buf b).lock c (bpin b c)
unfolding bpin
bpin-HasCount b c =
    let self : (b == b) ≡ true = ground arith in
    record {
      refcnt = rw self refl;
      lock = rw self refl;
      valid = rw self refl;
      dev = rw self refl;
      blockno = rw self refl;
      bytes = rw self refl;
      others = λ k ne. (let other : (k == b) ≡ false = ground arith in rw other refl);
    }

pub give_up-HasCount :
    (b : ℕ) (c : Bcache)
    → HasCount b
        (((c.buf b).refcnt + (uint - 1)) % uint)
        (record { locked = false; pid = 0 })
        c
        (give_up b c)
unfolding give_up releasesleep
give_up-HasCount b c =
    let self : (b == b) ≡ true = ground arith in
    record {
      refcnt = rw self refl;
      lock = rw self refl;
      valid = rw self refl;
      dev = rw self refl;
      blockno = rw self refl;
      bytes = rw self refl;
      others = λ k ne. (let other : (k == b) ≡ false = ground arith in rw other refl);
    }

pub recycle-IsGiven :
    (dev blockno b : ℕ) (c : Bcache) → IsGiven dev blockno b c (recycle dev blockno b c)
unfolding recycle
recycle-IsGiven dev blockno b c =
    let self : (b == b) ≡ true = ground arith in
    record {
      valid = rw self refl;
      refcnt = rw self refl;
      has_dev = rw self refl;
      has_block = rw self refl;
      lock = rw self refl;
      others = λ k ne. (let other : (k == b) ≡ false = ground arith in rw other refl);
    }

pub HasCount-same :
    (b n : ℕ) (lk : Sleeplock) (c d e : Bcache)
    → e.buf ≡ d.buf
    → HasCount b n lk c d
    → HasCount b n lk c e
HasCount-same b n lk c d e eq h =
    let at : (x : ℕ) → e.buf x ≡ d.buf x = λ x. ap (λ f. f x) eq in
    record {
      refcnt = ap (λ y. y.refcnt) (at b) ∙ h.refcnt;
      lock = ap (λ y. y.lock) (at b) ∙ h.lock;
      valid = ap (λ y. y.valid) (at b) ∙ h.valid;
      dev = ap (λ y. y.dev) (at b) ∙ h.dev;
      blockno = ap (λ y. y.blockno) (at b) ∙ h.blockno;
      bytes = ap (λ y. y.bytes) (at b) ∙ h.bytes;
      others = λ k ne. at k ∙ h.others k ne;
    }

-- Every buffer, whether it is `b` or not.
pub HasCount-at :
    (b n : ℕ) (lk : Sleeplock) (c d : Bcache)
    → HasCount b n lk c d
    → (x : ℕ)
    → ((d.buf x).refcnt ≡ (if x == b then n else (c.buf x).refcnt))
      × ((d.buf x).dev ≡ (c.buf x).dev)
      × ((d.buf x).blockno ≡ (c.buf x).blockno)
HasCount-at b n lk c d h x = elim (Bool-cases (x == b)) [
  | inl here ↦
      let eq : b ≡ x = ground arith in
      (
        rw here (subst (λ y. (d.buf y).refcnt ≡ n) eq h.refcnt),
        subst (λ y. (d.buf y).dev ≡ (c.buf y).dev) eq h.dev,
        subst (λ y. (d.buf y).blockno ≡ (c.buf y).blockno) eq h.blockno,
      )
  | inr other ↦
      let same : d.buf x ≡ c.buf x = h.others x (ground arith) in
      (rw other (ap (λ y. y.refcnt) same), ap (λ y. y.dev) same, ap (λ y. y.blockno) same)
]
