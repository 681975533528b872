-- ===== src/Bio/Lru.antt =====
-- `bget` and `brelse` on the list of buffers: which buffer is taken, and where it stands afterwards.
use xv.Prelude.{
  ℕ, ◌+◌, ◌-◌, ◌%◌, ◌≤◌, ◌<◌, ◌≡◌, refl, sym, ap, ◌∙◌, ◌≢◌, ◌⊎◌, inl, inr, Bool, true, false, some,
  Option-cases, List, [], ◌∷◌, ◌++◌, arith, ◌==◌, if◌then◌else◌, All, NotIn, length, Bool-cases,
  length-append,
}
use mathlib.Core.Path.{subst}
use xv.Panic.{ok, panic}
use xv.Sleeplock.{holdingsleep}
use xv.Bio.{
  give_up, Bcache, nbuf, uint, is_block, is_unused, bget, bpin, bunpin, recycle, brelse, push_front,
  unlink,
}
use xv.Bio.Fields.{
  HasCount, IsGiven, bpin-HasCount, give_up-HasCount, recycle-IsGiven, HasCount-same,
}
use xv.Bio.Ring.{Ring, to_front-Ring}
use xv.Bio.Search.{
  find, reverse, search-next, search-prev, find-some, find-none, All-reverse, failed_absent,
  NotIn-reverse,
}

-- `order` lists the buffers from the most recently used on, and no block has two of them. The
-- buffers that were never used have device 0.
pub record IsCache (c : Bcache) (order : List ℕ) : Type 0 where
  pub ring : Ring c order
  pub size : length order ≤ nbuf
  pub are_bufs : All (λ b. b < nbuf) order
  pub complete : (b : ℕ) → b < nbuf → NotIn b order → ⊥
  pub unique :
      (i j : ℕ)
      → i < nbuf
      → j < nbuf
      → (c.buf i).dev ≢ 0
      → (c.buf i).dev ≡ (c.buf j).dev
      → (c.buf i).blockno ≡ (c.buf j).blockno
      → i ≡ j

-- The same links and buffers, up to what the buffers hold beside their blocks.
pub IsCache-same :
    (c d : Bcache) (order : List ℕ)
    → d.next ≡ c.next
    → d.prev ≡ c.prev
    → ((b : ℕ) → (d.buf b).dev ≡ (c.buf b).dev)
    → ((b : ℕ) → (d.buf b).blockno ≡ (c.buf b).blockno)
    → IsCache c order
    → IsCache d order
IsCache-same c d order en ep dev blockno v = record {
  ring = record {
    linked = rw (en, ep) v.ring.linked;
    distinct = v.ring.distinct;
    no_head = v.ring.no_head;
  };
  size = v.size;
  are_bufs = v.are_bufs;
  complete = v.complete;
  unique = λ i j li lj nz e e'.
      v.unique i j li lj (λ z. nz (dev i ∙ z)) (sym (dev i) ∙ e ∙ dev j)
        (sym (blockno i) ∙ e' ∙ blockno j);
}

pub bpin-IsCache :
    (b : ℕ) (c : Bcache) (order : List ℕ) → IsCache c order → IsCache (bpin b c) order
unfolding bpin
bpin-IsCache b c order v =
    IsCache-same c _ order refl refl (λ x. ground arith) (λ x. ground arith) v

pub bunpin-IsCache :
    (b : ℕ) (c : Bcache) (order : List ℕ) → IsCache c order → IsCache (bunpin b c) order
unfolding bunpin
bunpin-IsCache b c order v =
    IsCache-same c _ order refl refl (λ x. ground arith) (λ x. ground arith) v

recycle-IsCache :
    (dev blockno b : ℕ) (c : Bcache) (order : List ℕ)
    → ((j : ℕ) → j < nbuf → is_block dev blockno c j ≡ false)
    → IsCache c order
    → IsCache (recycle dev blockno b c) order
unfolding recycle is_block
recycle-IsCache dev blockno b c order absent v = record {
  ring = record { linked = v.ring.linked; distinct = v.ring.distinct; no_head = v.ring.no_head };
  size = v.size;
  are_bufs = v.are_bufs;
  complete = v.complete;
  unique = λ i j li lj nz e e'. ground (arith, absent i li, absent j lj, v.unique i j li lj);
}

-- No buffer has the block.
abbrev pub Absent : (dev blockno : ℕ) → Bcache → Type 0
Absent dev blockno c = (b : ℕ) → b < nbuf → is_block dev blockno c b ≡ false

-- A test that no buffer of the list passes.
none_pass :
    (test : ℕ → Bool) (c : Bcache) (order : List ℕ)
    → IsCache c order
    → All (λ x. test x ≡ false) order
    → (b : ℕ) → b < nbuf
    → test b ≡ false
none_pass test c order v h b lt = elim (Bool-cases (test b)) [
  | inl pass ↦ absurd (v.complete b lt (failed_absent test b order h pass))
  | inr fail ↦ fail
]

in_order : (b : ℕ) (order : List ℕ) → All (λ x. x < nbuf) order → (NotIn b order → ⊥) → b < nbuf
in_order b [] h there = absurd (there tt)
in_order b (x ∷ xs) h there = elim (Bool-cases (b == x)) [
  | inl here ↦ (let eq : b ≡ x = ground arith in ground (arith, h.0))
  | inr other ↦ in_order b xs h.1 (λ out. there (ground arith, out))
]

-- On a well-formed cache, `bget` of a block of a device other than 0 does one of three things. If a buffer
-- has the block, it takes that one and adds 1 to its references, modulo 2^32, with the rest of it as
-- before. If none has it, it gives the block the buffer that is unused and of these the least
-- recently used: that one then has the block's device and number, is not valid, has one reference
-- and its lock as before. If none has it and every buffer is in use, it panics. In the first two
-- cases the other buffers stay, and the cache is well formed with the same order of use, so no block
-- has two buffers.
pub bget_lem :
    (dev blockno : ℕ) (c : Bcache) (order : List ℕ)
    → IsCache c order
    → dev ≢ 0
    → ((b : ℕ) × (b < nbuf)
        × (is_block dev blockno c b ≡ true)
        × (bget dev blockno c ≡ ok (b, bpin b c))
        × IsCache (bpin b c) order
        × HasCount b (((c.buf b).refcnt + 1) % uint) (c.buf b).lock c (bpin b c))
      ⊎ (Absent dev blockno c
          × (((b : ℕ) × (b < nbuf)
                × (find (is_unused c) (reverse order) ≡ some b)
                × (bget dev blockno c ≡ ok (b, recycle dev blockno b c))
                × IsCache (recycle dev blockno b c) order
                × IsGiven dev blockno b c (recycle dev blockno b c))
              ⊎ (((b : ℕ) → b < nbuf → is_unused c b ≡ false)
                  × (bget dev blockno c ≡ panic "bget: no buffers"))))
unfolding bget
bget_lem dev blockno c order v nz =
    let e1 = search-next (is_block dev blockno c) c order v.ring v.size in
    let e2 = search-prev (is_unused c) c order v.ring v.size in
    elim (Option-cases (find (is_block dev blockno c) order)) [
      | inr (b, hit) ↦
          let (pass, there) = find-some (is_block dev blockno c) b order hit in
          inl (
            b,
            in_order b order v.are_bufs there,
            pass,
            rw (bget, e1, hit) refl,
            bpin-IsCache b c order v,
            bpin-HasCount b c,
          )
      | inl miss ↦
          let absent : Absent dev blockno c =
            none_pass (is_block dev blockno c) c order v (find-none _ order miss) in
          inr (
            absent,
            elim (Option-cases (find (is_unused c) (reverse order))) [
              | inr (b, found) ↦
                  let (pass, there) = find-some (is_unused c) b (reverse order) found in
                  inl (
                    b,
                    in_order b order v.are_bufs (λ out. there (NotIn-reverse b order out)),
                    found,
                    rw (bget, e1, miss, e2, found) refl,
                    recycle-IsCache dev blockno b c order absent v,
                    recycle-IsGiven dev blockno b c,
                  )
              | inl full ↦ inr (
                none_pass (is_unused c) c order v (
                    All-reverse (λ x. is_unused c x ≡ false) order
                      (find-none _ (reverse order) full)),
                rw (bget, e1, miss, e2, full) refl,
              )
            ],
          )
    ]

All-front {ℓ} :
    (P : ℕ → Type ℓ) (b : ℕ) (xs ys : List ℕ) → All P (xs ++ b ∷ ys) → All P (b ∷ xs ++ ys)
All-front P b [] ys h = h
All-front P b (x ∷ xs) ys h = let (at, rest) = All-front P b xs ys h.1 in (at, (h.0, rest))

NotIn-back : (k b : ℕ) (xs ys : List ℕ) → NotIn k (b ∷ xs ++ ys) → NotIn k (xs ++ b ∷ ys)
NotIn-back k b [] ys h = h
NotIn-back k b (x ∷ xs) ys h = (h.1.0, NotIn-back k b xs ys (h.0, h.1.1))

IsCache-front :
    (b : ℕ) (c d : Bcache) (xs ys : List ℕ)
    → IsCache c (xs ++ b ∷ ys)
    → d.buf ≡ c.buf
    → Ring d (b ∷ xs ++ ys)
    → IsCache d (b ∷ xs ++ ys)
IsCache-front b c d xs ys v eb ring = record {
  ring = ring;
  size = omega (arith, v.size, length-append xs ys, length-append xs (b ∷ ys));
  are_bufs = All-front (λ x. x < nbuf) b xs ys v.are_bufs;
  complete = λ x lt out. v.complete x lt (NotIn-back x b xs ys out);
  unique = rw eb v.unique;
}

to_front-buf : (b : ℕ) (c : Bcache) → (push_front b (unlink b c)).buf ≡ c.buf
unfolding push_front unlink
to_front-buf b c = refl

give_up-IsCache :
    (b : ℕ) (c : Bcache) (order : List ℕ) → IsCache c order → IsCache (give_up b c) order
unfolding give_up
give_up-IsCache b c order v =
    IsCache-same c _ order refl refl (λ x. ground arith) (λ x. ground arith) v

brelse-split :
    (pid b : ℕ) (c : Bcache) (xs ys : List ℕ)
    → IsCache c (xs ++ b ∷ ys)
    → ((holdingsleep pid (c.buf b).lock ≡ false) × (brelse pid b c ≡ panic "brelse"))
      ⊎ ((holdingsleep pid (c.buf b).lock ≡ true)
          × ((d : Bcache) × (brelse pid b c ≡ ok d)
              × HasCount b
                  (((c.buf b).refcnt + (uint - 1)) % uint)
                  (record { locked = false; pid = 0 })
                  c
                  d
              × IsCache d (if (d.buf b).refcnt == 0 then b ∷ xs ++ ys else xs ++ b ∷ ys)))
unfolding brelse is_unused
brelse-split pid b c xs ys v = elim (Bool-cases (holdingsleep pid (c.buf b).lock)) [
  | inl held ↦
      let w = give_up-IsCache b c (xs ++ b ∷ ys) v in
      inr (
        held,
        elim (Bool-cases (((give_up b c).buf b).refcnt == 0)) [
          | inl zero_now ↦
              let same : (push_front b (unlink b (give_up b c))).buf ≡ (give_up b c).buf =
                to_front-buf b (give_up b c) in
              (
                push_front b (unlink b (give_up b c)),
                rw (brelse, held, zero_now) refl,
                HasCount-same b _ _ c (give_up b c) _ same (give_up-HasCount b c),
                rw (same, zero_now)
                    (IsCache-front b (give_up b c) _ xs ys w same
                      (to_front-Ring b (give_up b c) xs ys w.ring)),
              )
          | inr used ↦ (give_up b c, rw (brelse, held, used) refl, give_up-HasCount b c, rw used w)
        ],
      )
  | inr other ↦ inl (other, rw (brelse, other) refl)
]

split_at :
    (b : ℕ) (l : List ℕ) → (NotIn b l → ⊥) → (xs : List ℕ) × (ys : List ℕ) × (l ≡ xs ++ b ∷ ys)
split_at b [] there = absurd (there tt)
split_at b (x ∷ l) there = elim (Bool-cases (b == x)) [
  | inl here ↦ ([], l, let eq : x ≡ b = ground arith in ap (λ y. y ∷ l) eq)
  | inr other ↦
      let (xs, ys, e) = split_at b l (λ out. there (ground arith, out)) in
      (x ∷ xs, ys, ap (λ y. x ∷ y) e)
]

-- `brelse` of a buffer by a process that does not hold its lock panics. If the process holds the lock, the
-- buffer's lock is then free and held by no process, its references are one fewer modulo 2^32, and
-- the rest of it and all other buffers stay. If that was the last reference, the buffer becomes the
-- most recently used, and the order of the others stays; otherwise the order stays. The cache stays
-- well formed.
pub brelse_lem :
    (pid b : ℕ) (c : Bcache) (order : List ℕ)
    → IsCache c order
    → b < nbuf
    → (xs : List ℕ) × (ys : List ℕ) × (order ≡ xs ++ b ∷ ys)
      × (((holdingsleep pid (c.buf b).lock ≡ false) × (brelse pid b c ≡ panic "brelse"))
          ⊎ ((holdingsleep pid (c.buf b).lock ≡ true)
              × ((d : Bcache) × (brelse pid b c ≡ ok d)
                  × HasCount b
                      (((c.buf b).refcnt + (uint - 1)) % uint)
                      (record { locked = false; pid = 0 })
                      c
                      d
                  × IsCache d (if (d.buf b).refcnt == 0 then b ∷ xs ++ ys else xs ++ b ∷ ys))))
brelse_lem pid b c order v lt =
    let (xs, ys, e) = split_at b order (v.complete b lt) in
    (xs, ys, e, brelse-split pid b c xs ys (subst (IsCache c) e v))
