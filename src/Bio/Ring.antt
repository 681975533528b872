-- ===== src/Bio/Ring.antt =====
-- The doubly linked list of the buffer cache, as the list of its buffers from the most recently used on.
use xv.Prelude.{ℕ, ◌≡◌, sym, ◌∙◌, ◌≢◌, List, [], ◌∷◌, ◌++◌, arith, update, All, NotIn, Distinct}
use xv.Bio.{Bcache, head, push_front, unlink}

-- Along `next` from `a` through just these buffers to `z`, and along `prev` back.
abbrev pub Seg : (ℕ → ℕ) → (ℕ → ℕ) → ℕ → List ℕ → ℕ → Type 0
Seg next prev a [] z = (next a ≡ z) × (prev z ≡ a)
Seg next prev a (x ∷ xs) z = (next a ≡ x) × (prev x ≡ a) × Seg next prev x xs z

pub record Ring (c : Bcache) (order : List ℕ) : Type 0 where
  pub linked : Seg c.next c.prev head order head
  pub distinct : Distinct order
  pub no_head : NotIn head order

-- What the links of other buffers are does not matter.
Seg-frame :
    (next prev next1 prev1 : ℕ → ℕ) (a z : ℕ) (l : List ℕ)
    → next1 a ≡ next a
    → All (λ x. next1 x ≡ next x) l
    → prev1 z ≡ prev z
    → All (λ x. prev1 x ≡ prev x) l
    → Seg next prev a l z
    → Seg next1 prev1 a l z
Seg-frame next prev next1 prev1 a z [] na nl pz pl s = (na ∙ s.0, pz ∙ s.1)
Seg-frame next prev next1 prev1 a z (x ∷ xs) na nl pz pl s =
    (na ∙ s.0, pl.0 ∙ s.1, Seg-frame next prev next1 prev1 x z xs nl.0 nl.1 pz pl.1 s.2)

update-NotIn :
    (f : ℕ → ℕ) (k v j w : ℕ) (l : List ℕ)
    → NotIn k l
    → NotIn j l
    → All (λ x. update (update f k v) j w x ≡ f x) l
update-NotIn f k v j w [] hk hj = tt
update-NotIn f k v j w (x ∷ xs) hk hj =
    (ground (arith, hk.0, hj.0), update-NotIn f k v j w xs hk.1 hj.1)

update_one : (f : ℕ → ℕ) (k v : ℕ) (l : List ℕ) → NotIn k l → All (λ x. update f k v x ≡ f x) l
update_one f k v [] h = tt
update_one f k v (x ∷ xs) h = (ground (arith, h.0), update_one f k v xs h.1)

-- `push_front` of a buffer that is not in the list puts it in front.
pub push_front-Ring :
    (b : ℕ) (c : Bcache) (order : List ℕ)
    → b ≢ head
    → NotIn b order
    → Ring c order
    → Ring (push_front b c) (b ∷ order)
unfolding push_front
push_front-Ring b c [] ne out r = record {
  linked = (
    ground arith,
    ground (arith, r.linked.0),
    (ground (arith, r.linked.0), ground (arith, r.linked.0, r.linked.1)),
  );
  distinct = (out, r.distinct);
  no_head = (ne, r.no_head);
}
push_front-Ring b c (x ∷ xs) ne out r =
    let first : c.next head ≡ x = r.linked.0 in
    let at : update c.next b (c.next head) head ≡ x = ground arith in
    record {
      linked = (
        ground arith,
        ground (arith, out.0),
        (
          ground arith,
          ground arith,
          Seg-frame c.next c.prev _ _ x head xs (ground (arith, out.0, r.no_head.0))
              (update-NotIn c.next b (c.next head) head b xs out.1 r.no_head.1)
              (ground (arith, r.no_head.0))
              (rw at (update-NotIn c.prev b head x b xs out.1 r.distinct.0)) r.linked.2,
        ),
      );
      distinct = (out, r.distinct);
      no_head = (ne, r.no_head);
    }

-- The last buffer of the list, or what is before it.
last : ℕ → List ℕ → ℕ
last a [] = a
last a (x ∷ xs) = last x xs

first_of : List ℕ → ℕ → ℕ
first_of [] z = z
first_of (x ∷ xs) z = x

-- What is before `b`, and what after it.
Seg-split :
    (next prev : ℕ → ℕ) (a b z : ℕ) (xs ys : List ℕ)
    → Seg next prev a (xs ++ b ∷ ys) z
    → (prev b ≡ last a xs) × (next b ≡ first_of ys z)
unfolding last first_of
Seg-split next prev a b z [] [] s = (s.1, s.2.0)
Seg-split next prev a b z [] (y ∷ ys) s = (s.1, s.2.0)
Seg-split next prev a b z (x ∷ xs) ys s = Seg-split next prev x b z xs ys s.2

last-NotIn : (k a : ℕ) (xs ys : List ℕ) → k ≢ a → NotIn k (xs ++ ys) → k ≢ last a xs
unfolding last
last-NotIn k a [] ys ne h = ne
last-NotIn k a (x ∷ xs) ys ne h = last-NotIn k x xs ys (λ e. h.0 (sym e)) h.1

first_of-NotIn : (k z : ℕ) (ys : List ℕ) → k ≢ z → NotIn k ys → k ≢ first_of ys z
unfolding first_of
first_of-NotIn k z [] ne h = ne
first_of-NotIn k z (y ∷ ys) ne h = λ e. h.0 (sym e)

NotIn-after : (k b : ℕ) (xs ys : List ℕ) → NotIn k (xs ++ b ∷ ys) → NotIn k ys
NotIn-after k b [] ys h = h.1
NotIn-after k b (x ∷ xs) ys h = NotIn-after k b xs ys h.1

NotIn-without : (k b : ℕ) (xs ys : List ℕ) → NotIn k (xs ++ b ∷ ys) → NotIn k (xs ++ ys)
NotIn-without k b [] ys h = h.1
NotIn-without k b (x ∷ xs) ys h = (h.0, NotIn-without k b xs ys h.1)

Distinct-without : (b : ℕ) (xs ys : List ℕ) → Distinct (xs ++ b ∷ ys) → Distinct (xs ++ ys)
Distinct-without b [] ys h = h.1
Distinct-without b (x ∷ xs) ys h = (NotIn-without x b xs ys h.0, Distinct-without b xs ys h.1)

NotIn-at : (k b : ℕ) (xs ys : List ℕ) → NotIn k (xs ++ b ∷ ys) → b ≢ k
NotIn-at k b [] ys h = h.0
NotIn-at k b (x ∷ xs) ys h = NotIn-at k b xs ys h.1

Distinct-at : (b : ℕ) (xs ys : List ℕ) → Distinct (xs ++ b ∷ ys) → NotIn b (xs ++ ys)
Distinct-at b [] ys h = h.0
Distinct-at b (x ∷ xs) ys h = (λ e. NotIn-at x b xs ys h.0 (sym e), Distinct-at b xs ys h.1)

NotIn-right : (k : ℕ) (xs ys : List ℕ) → NotIn k (xs ++ ys) → NotIn k ys
NotIn-right k [] ys h = h
NotIn-right k (x ∷ xs) ys h = NotIn-right k xs ys h.1

Seg-unlink :
    (next prev : ℕ → ℕ) (a b z : ℕ) (xs ys : List ℕ)
    → NotIn a (xs ++ b ∷ ys)
    → NotIn z (xs ++ b ∷ ys)
    → Distinct (xs ++ b ∷ ys)
    → Seg next prev a (xs ++ b ∷ ys) z
    → Seg
        (update next (last a xs) (first_of ys z))
        (update prev (first_of ys z) (last a xs))
        a
        (xs ++ ys)
        z
unfolding last first_of
Seg-unlink next prev a b z [] [] out_a out_z d s = (ground arith, ground arith)
Seg-unlink next prev a b z [] (y ∷ ys) out_a out_z d s = (
  ground arith,
  ground arith,
  Seg-frame next prev _ _ y z ys (ground (arith, out_a.1.0)) (update_one next a y ys out_a.1.1)
      (ground (arith, out_z.1.0)) (update_one prev y a ys d.1.0) s.2.2,
)
Seg-unlink next prev a b z (x ∷ xs) ys out_a out_z d s =
    let la : a ≢ last x xs =
      last-NotIn a x xs ys (λ e. out_a.0 (sym e)) (NotIn-without a b xs ys out_a.1) in
    let hd : x ≢ first_of ys z = first_of-NotIn x z ys out_z.0 (NotIn-after x b xs ys d.0) in
    let link : next a ≡ x = s.0 in
    let back : prev x ≡ a = s.1 in
    (ground arith, ground arith, Seg-unlink next prev x b z xs ys d.0 out_z.1 d.1 s.2)

-- `unlink` takes a buffer out of the list.
unlink-Ring :
    (b : ℕ) (c : Bcache) (xs ys : List ℕ) → Ring c (xs ++ b ∷ ys) → Ring (unlink b c) (xs ++ ys)
unfolding unlink
unlink-Ring b c xs ys r =
    let (before, after) = Seg-split c.next c.prev head b head xs ys r.linked in
    let ne : b ≢ c.next b = rw after (
      first_of-NotIn b head ys (NotIn-at head b xs ys r.no_head)
        (NotIn-right b xs ys (Distinct-at b xs ys r.distinct))) in
    let same : update c.prev (c.next b) (c.prev b) b ≡ last head xs = ground (arith, before) in
    record {
      linked =
          rw (same, before, after)
            (Seg-unlink c.next c.prev head b head xs ys r.no_head r.no_head r.distinct r.linked);
      distinct = Distinct-without b xs ys r.distinct;
      no_head = NotIn-without head b xs ys r.no_head;
    }

-- Taken out and put in front: `b` is then the most recently used.
pub to_front-Ring :
    (b : ℕ) (c : Bcache) (xs ys : List ℕ)
    → Ring c (xs ++ b ∷ ys)
    → Ring (push_front b (unlink b c)) (b ∷ xs ++ ys)
to_front-Ring b c xs ys r =
    push_front-Ring b (unlink b c) (xs ++ ys) (NotIn-at head b xs ys r.no_head)
      (Distinct-at b xs ys r.distinct) (unlink-Ring b c xs ys r)
