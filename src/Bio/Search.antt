-- ===== src/Bio/Search.antt =====
-- The two loops of `bget` over the list of buffers.
use xv.Prelude.{
  ℕ, zero, suc, ◌+◌, ◌≤◌, ◌<◌, ◌≡◌, refl, sym, ap, ◌∙◌, ◌≢◌, inl, inr, Bool, true, false, Option,
  none, some, List, [], ◌∷◌, ◌++◌, arith, ◌==◌, if◌then◌else◌, All, NotIn, length, Bool-cases,
  length-append,
}
use xv.Bio.{Bcache, head, search, nbuf}
use xv.Bio.Ring.{Ring, Seg}

-- The first item of the list that passes the test.
pub find : (ℕ → Bool) → List ℕ → Option ℕ
find test [] = none
find test (x ∷ xs) = let rest = find test xs in if test x then some x else rest

abbrev pub reverse : List ℕ → List ℕ
reverse [] = []
reverse (x ∷ xs) = reverse xs ++ x ∷ []

Seg-snoc :
    (next prev : ℕ → ℕ) (a x z : ℕ) (l : List ℕ)
    → Seg next prev a l x
    → next x ≡ z
    → prev z ≡ x
    → Seg next prev a (l ++ x ∷ []) z
Seg-snoc next prev a x z [] s n p = (s.0, s.1, (n, p))
Seg-snoc next prev a x z (y ∷ l) s n p = (s.0, s.1, Seg-snoc next prev y x z l s.2 n p)

-- Along `prev` the list is reversed.
Seg-reverse :
    (next prev : ℕ → ℕ) (a z : ℕ) (l : List ℕ) → Seg next prev a l z → Seg prev next z (reverse l) a
Seg-reverse next prev a z [] s = (s.1, s.0)
Seg-reverse next prev a z (x ∷ xs) s =
    Seg-snoc prev next z x a (reverse xs) (Seg-reverse next prev x z xs s.2) s.1 s.0

search-find :
    (fuel : ℕ) (test : ℕ → Bool) (next prev : ℕ → ℕ) (a : ℕ) (l : List ℕ)
    → length l < fuel
    → NotIn head l
    → Seg next prev a l head
    → search fuel test next (next a) ≡ find test l
unfolding search find
search-find zero test next prev a l lt out s = absurd (omega arith)
search-find (suc fuel) test next prev a [] lt out s = rw s.0 refl
search-find (suc fuel) test next prev a (x ∷ xs) lt out s =
    let stop : (x == head) ≡ false = ground (arith, out.0) in
    let rest = search-find fuel test next prev x xs (omega arith) out.1 s.2 in
    rw (s.0, stop, rest) refl

length-reverse : (l : List ℕ) → length (reverse l) ≡ length l
length-reverse [] = refl
length-reverse (x ∷ xs) = omega (arith, length-reverse xs, length-append (reverse xs) (x ∷ []))

NotIn-snoc : (k x : ℕ) (l : List ℕ) → NotIn k l → x ≢ k → NotIn k (l ++ x ∷ [])
NotIn-snoc k x [] h ne = (ne, tt)
NotIn-snoc k x (y ∷ l) h ne = (h.0, NotIn-snoc k x l h.1 ne)

pub NotIn-reverse : (k : ℕ) (l : List ℕ) → NotIn k l → NotIn k (reverse l)
NotIn-reverse k [] h = tt
NotIn-reverse k (x ∷ xs) h = NotIn-snoc k x (reverse xs) (NotIn-reverse k xs h.1) h.0

module _ (test : ℕ → Bool) (c : Bcache) (order : List ℕ) (r : Ring c order)
    (fits : length order ≤ nbuf) where
  -- The loop from `head.next` on finds the most recently used buffer that passes the test.
  pub search-next : search (nbuf + 1) test c.next (c.next head) ≡ find test order
  search-next =
      search-find (nbuf + 1) test c.next c.prev head order (omega arith) r.no_head r.linked

  -- The loop from `head.prev` on finds the least recently used.
  pub search-prev : search (nbuf + 1) test c.prev (c.prev head) ≡ find test (reverse order)
  search-prev =
      search-find (nbuf + 1) test c.prev c.next head (reverse order)
        (omega (arith, length-reverse order)) (NotIn-reverse head order r.no_head)
        (Seg-reverse c.next c.prev head head order r.linked)

pub find-some :
    (test : ℕ → Bool) (b : ℕ) (l : List ℕ)
    → find test l ≡ some b
    → (test b ≡ true) × (NotIn b l → ⊥)
unfolding find
find-some test b [] e = cc
find-some test b (x ∷ xs) e = elim (Bool-cases (test x)) [
  | inl pass ↦
      let eq : some x ≡ some b = rw pass at e in
      let at : x ≡ b = cc in (ap test (sym at) ∙ pass, λ out. out.0 at)
  | inr fail ↦ let rest = find-some test b xs (rw fail at e) in (rest.0, λ out. rest.1 out.1)
]

pub find-none : (test : ℕ → Bool) (l : List ℕ) → find test l ≡ none → All (λ x. test x ≡ false) l
unfolding find
find-none test [] e = tt
find-none test (x ∷ xs) e = elim (Bool-cases (test x)) [
  | inl pass ↦ (let bad : some x ≡ none = rw pass at e in cc)
  | inr fail ↦ (fail, find-none test xs (rw fail at e))
]

All-left {ℓ} : (P : ℕ → Type ℓ) (xs ys : List ℕ) → All P (xs ++ ys) → All P xs × All P ys
All-left P [] ys h = (tt, h)
All-left P (x ∷ xs) ys h = let (a, b) = All-left P xs ys h.1 in ((h.0, a), b)

pub All-reverse {ℓ} : (P : ℕ → Type ℓ) (l : List ℕ) → All P (reverse l) → All P l
All-reverse P [] h = tt
All-reverse P (x ∷ xs) h =
    let (front, back) = All-left P (reverse xs) (x ∷ []) h in (back.0, All-reverse P xs front)

-- What fails for all items of the list fails for every buffer.
pub failed_absent :
    (test : ℕ → Bool) (b : ℕ) (l : List ℕ) → All (λ x. test x ≡ false) l → test b ≡ true → NotIn b l
failed_absent test b [] h pass = tt
failed_absent test b (x ∷ xs) h pass = (
  λ e. absurd (let bad : true ≡ false = sym pass ∙ ap test (sym e) ∙ h.0 in cc),
  failed_absent test b xs h.1 pass,
)
