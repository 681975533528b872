-- ===== src/Bio/Steps.antt =====
-- The steps of the buffer cache with its users: `refs b` counts the references to the buffer `b` that are held.
use xv.Prelude.{
  ℕ, ◌+◌, ◌-◌, ◌<◌, ◌≡◌, refl, sym, ap, ◌∙◌, ◌≢◌, inl, inr, true, none, some, Option-cases, List,
  arith, update,
}
use mathlib.Core.Path.{subst}
use xv.Panic.{ok, panic, ok_inj}
use xv.Sleeplock.{acquiresleep}
use xv.Bio.{
  Bcache, nbuf, uint, is_unused, bget, bpin, bunpin, recycle, brelse, lock_buf, fill, binit,
}
use xv.Bio.Search.{reverse, find-some}
use xv.Bio.Fields.{HasCount-at}
use xv.Bio.Lru.{IsCache, bget_lem, brelse_lem, bpin-IsCache, bunpin-IsCache, IsCache-same}

pub record System : Type 0 where
  pub cache : Bcache
  pub refs : ℕ → ℕ

module _ {Disk : Type 0} (disk_read : Disk → ℕ → ℕ → ℕ)
    (disk_write : Disk → ℕ → (ℕ → ℕ) → Disk) where
  -- A process drops only a reference that is held, and fewer than 2^32 are held.
  pub data Step (s : System) : System → Type 0 where
    gets :
        (dev blockno : ℕ) {b : ℕ} {c : Bcache}
        → dev ≢ 0
        → bget dev blockno s.cache ≡ ok (b, c)
        → s.refs b + 1 < uint
        → Step s (record { cache = c; refs = update s.refs b (s.refs b + 1) })
    locks :
        (pid b : ℕ) {c : Bcache} → lock_buf pid b s.cache ≡ some c → Step s (record s { cache = c })
    fills :
        (b : ℕ) (disk : Disk)
        → Step s (record s { cache = fill disk_read disk_write b disk s.cache })
    releases :
        (pid b : ℕ) {c : Bcache}
        → s.refs b ≢ 0
        → brelse pid b s.cache ≡ ok c
        → Step s (record { cache = c; refs = update s.refs b (s.refs b - 1) })
    pins :
        (b : ℕ)
        → s.refs b ≢ 0
        → s.refs b + 1 < uint
        → Step s (record { cache = bpin b s.cache; refs = update s.refs b (s.refs b + 1) })
    unpins :
        (b : ℕ)
        → s.refs b ≢ 0
        → Step s (record { cache = bunpin b s.cache; refs = update s.refs b (s.refs b - 1) })

  -- The static data is all zero before `binit`.
  pub data Reach : System → Type 0 where
    start :
        (c : Bcache)
        → ((b : ℕ) → ((c.buf b).dev ≡ 0) × ((c.buf b).refcnt ≡ 0))
        → Reach (record { cache = binit c; refs = λ b. 0 })
    next : {s t : System} → Reach s → Step s t → Reach t

pub record Inv (s : System) : Type 0 where
  pub order : List ℕ
  pub is_cache : IsCache s.cache order
  pub counts : (b : ℕ) → (s.cache.buf b).refcnt ≡ s.refs b
  pub bound : (b : ℕ) → s.refs b < uint
  pub are_bufs : (b : ℕ) → s.refs b ≢ 0 → b < nbuf

-- A buffer with a reference keeps its block.
abbrev pub Kept : System → System → Type 0
Kept s t =
    (b : ℕ)
    → s.refs b ≢ 0
    → ((t.cache.buf b).dev ≡ (s.cache.buf b).dev)
      × ((t.cache.buf b).blockno ≡ (s.cache.buf b).blockno)

abbrev pub After : System → ℕ → ℕ → Bcache → Type 0
After s b n c =
    Inv (record { cache = c; refs = update s.refs b n })
    × Kept s (record { cache = c; refs = update s.refs b n })

pub bpin-After :
    (s : System) (b : ℕ)
    → b < nbuf
    → s.refs b + 1 < uint
    → Inv s
    → After s b (s.refs b + 1) (bpin b s.cache)
unfolding bpin
bpin-After s b lt few v = (
  record {
    order = v.order;
    is_cache = bpin-IsCache b s.cache v.order v.is_cache;
    counts = λ x. ground (arith, v.counts x, v.counts b);
    bound = λ x. ground (arith, v.bound x);
    are_bufs = λ x ne. ground (arith, v.are_bufs x);
  },
  λ x ne. (ground arith, ground arith),
)

pub bunpin-After :
    (s : System) (b : ℕ) → s.refs b ≢ 0 → Inv s → After s b (s.refs b - 1) (bunpin b s.cache)
unfolding bunpin
bunpin-After s b held v = (
  record {
    order = v.order;
    is_cache = bunpin-IsCache b s.cache v.order v.is_cache;
    counts = λ x. ground (arith, v.counts x, v.counts b, v.bound b);
    bound = λ x. ground (arith, v.bound x, v.bound b);
    are_bufs = λ x ne. ground (arith, v.are_bufs x, v.are_bufs b);
  },
  λ x ne. (ground arith, ground arith),
)

recycle-After :
    (s : System) (dev blockno b : ℕ) (v : Inv s)
    → b < nbuf
    → is_unused s.cache b ≡ true
    → IsCache (recycle dev blockno b s.cache) v.order
    → After s b (s.refs b + 1) (recycle dev blockno b s.cache)
unfolding recycle is_unused
recycle-After s dev blockno b v lt unused w =
    let zero_refs : s.refs b ≡ 0 = ground (arith, v.counts b) in
    (
      record {
        order = v.order;
        is_cache = w;
        counts = λ x. ground (arith, v.counts x);
        bound = λ x. ground (arith, v.bound x);
        are_bufs = λ x ne. ground (arith, v.are_bufs x);
      },
      λ x ne. (ground arith, ground arith),
    )

pub gets-After :
    (s : System) (dev blockno : ℕ) {b : ℕ} {c : Bcache}
    → dev ≢ 0
    → bget dev blockno s.cache ≡ ok (b, c)
    → s.refs b + 1 < uint
    → Inv s
    → After s b (s.refs b + 1) c
gets-After s dev blockno {b} {c} nz e few v =
    elim (bget_lem dev blockno s.cache v.order v.is_cache nz) [
      | inl (b', lt, is, e', w, pinned) ↦
          let eq = ok_inj (sym e' ∙ e) in
          let same : b' ≡ b = ap (λ x. x.0) eq in
          subst (λ x. After s x.0 (s.refs x.0 + 1) x.1) eq
            (bpin-After s b' lt (omega (arith, few, ap s.refs same)) v)
      | inr (absent, inl (b', lt, found, e', w, given)) ↦
          subst (λ x. After s x.0 (s.refs x.0 + 1) x.1) (ok_inj (sym e' ∙ e))
            (recycle-After s dev blockno b' v lt (find-some _ b' (reverse v.order) found).0 w)
      | inr (absent, inr (full, e')) ↦ (let bad : panic _ ≡ ok (b, c) = sym e' ∙ e in cc)
    ]

pub releases-After :
    (s : System) (pid b : ℕ) {c : Bcache}
    → s.refs b ≢ 0
    → brelse pid b s.cache ≡ ok c
    → Inv s
    → After s b (s.refs b - 1) c
releases-After s pid b {c} held e v =
    let (xs, ys, split, end) = brelse_lem pid b s.cache v.order v.is_cache (v.are_bufs b held) in
    elim end [
      | inl (no_lock, e') ↦ (let bad : panic _ ≡ ok c = sym e' ∙ e in cc)
      | inr (locked, (d, e', has, w)) ↦
          let eq : d ≡ c = (let both : ok d ≡ ok c = sym e' ∙ e in cc) in
          let at = HasCount-at b _ _ s.cache d has in
          subst (After s b (s.refs b - 1)) eq (
            record {
              order = _;
              is_cache = w;
              counts = λ x. ground (arith, (at x).0, v.counts x, v.counts b, v.bound b);
              bound = λ x. ground (arith, v.bound x, v.bound b);
              are_bufs = λ x ne. ground (arith, v.are_bufs x, v.are_bufs b);
            },
            λ x ne. ((at x).1, (at x).2),
          )
    ]

-- A step that changes neither links, blocks nor counts.
pub quiet :
    (s : System) (c : Bcache)
    → c.next ≡ s.cache.next
    → c.prev ≡ s.cache.prev
    → ((b : ℕ)
        → ((c.buf b).dev ≡ (s.cache.buf b).dev)
          × ((c.buf b).blockno ≡ (s.cache.buf b).blockno)
          × ((c.buf b).refcnt ≡ (s.cache.buf b).refcnt))
    → Inv s
    → Inv (record s { cache = c }) × Kept s (record s { cache = c })
quiet s c en ep same v = (
  record {
    order = v.order;
    is_cache = IsCache-same s.cache c v.order en ep (λ b. (same b).0) (λ b. (same b).1) v.is_cache;
    counts = λ b. (same b).2 ∙ v.counts b;
    bound = v.bound;
    are_bufs = v.are_bufs;
  },
  λ b ne. ((same b).0, (same b).1),
)

pub lock_buf-After :
    (s : System) (pid b : ℕ) {c : Bcache}
    → lock_buf pid b s.cache ≡ some c
    → Inv s
    → Inv (record s { cache = c }) × Kept s (record s { cache = c })
unfolding lock_buf
lock_buf-After s pid b {c} e v = elim (Option-cases (acquiresleep pid (s.cache.buf b).lock)) [
  | inl wait ↦ (let bad : none ≡ some c = rw (lock_buf, wait) at e in cc)
  | inr (lk, got) ↦
      let taken : Bcache = record (s.cache) {
        buf = update s.cache.buf b (record (s.cache.buf b) { lock = lk });
      } in
      let both : some taken ≡ some c = rw (lock_buf, got) at e in
      let eq : taken ≡ c = cc in
      subst (λ x. Inv (record s { cache = x }) × Kept s (record s { cache = x })) eq
        (quiet s taken refl refl (λ x. (ground arith, ground arith, ground arith)) v)
]
