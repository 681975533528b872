-- ===== src/Bio/Init.antt =====
-- `binit`: the list that it leaves.
use xv.Prelude.{
  ℕ, zero, suc, ◌+◌, ◌<◌, ◌≡◌, refl, ap, ◌≢◌, List, ◌∷◌, arith, All, NotIn, length, All-map,
}
use mathlib.Core.Path.{subst}
use xv.Bio.{Bcache, nbuf, push_front, binit_loop}
use xv.Bio.Ring.{Ring, push_front-Ring}

-- The buffers before `b` are in the list, and no buffer was used.
pub record Built (b : ℕ) (c : Bcache) (order : List ℕ) : Type 0 where
  pub ring : Ring c order
  pub size : length order ≡ b
  pub below : All (λ x. x < b) order
  pub complete : (x : ℕ) → x < b → NotIn x order → ⊥
  pub unused : (x : ℕ) → ((c.buf x).dev ≡ 0) × ((c.buf x).refcnt ≡ 0)

push_front-buf : (b : ℕ) (c : Bcache) → (push_front b c).buf ≡ c.buf
unfolding push_front
push_front-buf b c = refl

pub binit_loop-Built :
    (left b : ℕ) (c : Bcache) (order : List ℕ)
    → left + b ≡ nbuf
    → Built b c order
    → (all : List ℕ) × Built nbuf (binit_loop left b c) all
unfolding binit_loop
binit_loop-Built zero b c order e v =
    (order, let at : b ≡ nbuf = omega (arith, e) in subst (λ n. Built n c order) at v)
binit_loop-Built (suc left) b c order e v =
    let ring =
      push_front-Ring b c order (omega arith)
        (All-map (λ x. x < b) (λ x. x ≢ b) order (λ x lt. omega arith) v.below) v.ring in
    let same : (push_front b c).buf ≡ c.buf = push_front-buf b c in
    binit_loop-Built left (b + 1) _ (b ∷ order) (omega (arith, e)) (record {
      ring = record { linked = ring.linked; distinct = ring.distinct; no_head = ring.no_head };
      size = omega (arith, v.size);
      below =
          (omega arith, All-map (λ x. x < b) (λ x. x < b + 1) order (λ x lt. omega arith) v.below);
      complete = λ x lt out. v.complete x (omega (arith, out.0)) out.1;
      unused = λ x.
          let old = v.unused x in
          let now : (push_front b c).buf x ≡ c.buf x = ap (λ f. f x) same in
          (
            ground (arith, old.0, ap (λ y. y.dev) now),
            ground (arith, old.1, ap (λ y. y.refcnt) now),
          );
    })
