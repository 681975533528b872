-- ===== src/Console/Bounds.antt =====
-- The indices of the ring, and the input that is ready to be read.
use xv.Prelude.{
  ℕ, zero, suc, ◌+◌, ◌-◌, ◌%◌, ◌≤◌, ◌<◌, ◌≡◌, refl, ◌≢◌, inl, inr, Bool, not, ◌&&◌, ◌||◌, arith,
  ltb, ◌==◌, if◌then◌else◌, Bool-cases, update,
}
use xv.Console.{
  Cons, uint, input_buf_size, inc, dec, diff, kill_line, store_char, consoleintr, read_loop,
}

-- Read index, write index and edit index stand in this order, at most a buffer apart.
pub record Bounded (s : Cons) : Type 0 where
  pub uint_r : s.r < uint
  pub uint_w : s.w < uint
  pub uint_e : s.e < uint
  pub ready : diff s.w s.r ≤ diff s.e s.r
  pub room : diff s.e s.r ≤ input_buf_size

-- What the handler leaves of the input that is ready: all of it, and it may add to it.
pub record Kept (s t : Cons) : Type 0 where
  pub bounded : Bounded t
  pub same_r : t.r ≡ s.r
  pub grows : diff s.w s.r ≤ diff t.w s.r
  pub bytes :
      (k : ℕ)
      → k < diff s.w s.r
      → t.buf ((s.r + k) % input_buf_size) ≡ s.buf ((s.r + k) % input_buf_size)

Kept-refl : {s : Cons} → Bounded s → Kept s s
Kept-refl b = record { bounded = b; same_r = refl; grows = omega arith; bytes = λ k lt. refl }

-- One step back of the edit index, where it is not at the write index.
back-Bounded : (s : Cons) → Bounded s → s.e ≢ s.w → Bounded (record s { e = dec s.e })
back-Bounded s b ne = record {
  uint_r = b.uint_r;
  uint_w = b.uint_w;
  uint_e = omega arith;
  ready = omega (arith, b.uint_r, b.uint_w, b.uint_e, b.ready, b.room);
  room = omega (arith, b.uint_r, b.uint_w, b.uint_e, b.ready, b.room);
}

kill_line-Kept : (rounds : ℕ) (s : Cons) → Bounded s → Kept s (kill_line rounds s)
unfolding kill_line
kill_line-Kept zero s b = Kept-refl b
kill_line-Kept (suc rounds) s b =
    elim (Bool-cases (not (s.e == s.w) && not (s.buf (dec s.e % input_buf_size) == 10))) [
      | inl more ↦
          let ne : s.e ≢ s.w = ground arith in
          let rest = kill_line-Kept rounds (record s { e = dec s.e }) (back-Bounded s b ne) in
          rw more (record {
            bounded = rest.bounded;
            same_r = rest.same_r;
            grows = rest.grows;
            bytes = rest.bytes;
          })
      | inr stop ↦ rw stop (Kept-refl b)
    ]

store_char-Kept :
    (c : ℕ) (s : Cons) → Bounded s → diff s.e s.r < input_buf_size → Kept s (store_char c s)
unfolding store_char
store_char-Kept c s b fits =
    let bytes : (k : ℕ)
        → k < diff s.w s.r
        → update s.buf (s.e % input_buf_size) c ((s.r + k) % input_buf_size)
          ≡ s.buf ((s.r + k) % input_buf_size) =
      λ k lt.
        let ne : (s.r + k) % input_buf_size ≢ s.e % input_buf_size =
          λ eq. omega (arith, b.uint_r, b.uint_w, b.uint_e, b.ready, fits, eq, lt) in
        ground arith in
    elim (Bool-cases (c == 10 || (c == 4 || diff (inc s.e) s.r == input_buf_size))) [
      | inl line ↦ rw line (record {
        bounded = record {
          uint_r = b.uint_r;
          uint_w = omega arith;
          uint_e = omega arith;
          ready = omega arith;
          room = omega (arith, b.uint_r, b.uint_e, fits);
        };
        same_r = refl;
        grows = omega (arith, b.uint_r, b.uint_w, b.uint_e, b.ready, fits);
        bytes = bytes;
      })
      | inr more ↦ rw more (record {
        bounded = record {
          uint_r = b.uint_r;
          uint_w = b.uint_w;
          uint_e = omega arith;
          ready = omega (arith, b.uint_r, b.uint_w, b.uint_e, b.ready, fits);
          room = omega (arith, b.uint_r, b.uint_e, fits);
        };
        same_r = refl;
        grows = omega arith;
        bytes = bytes;
      })
    ]

-- Whatever character arrives, `consoleintr` keeps the indices in order: read, write and edit index, at most
-- `INPUT_BUF_SIZE` apart, across the wrap-around of the `uint` indices. It leaves the read index and
-- every byte that is ready to be read, and takes none of them back.
pub consoleintr_lem : (c : ℕ) (s : Cons) → Bounded s → Kept s (consoleintr c s)
unfolding consoleintr
consoleintr_lem c s b = elim (Bool-cases (c == 16)) [
  | inl list ↦ rw list (Kept-refl b)
  | inr go1 ↦ elim (Bool-cases (c == 21)) [
    | inl kill ↦ rw (go1, kill) (kill_line-Kept input_buf_size s b)
    | inr go2 ↦ elim (Bool-cases (c == 8 || c == 127)) [
      | inl erase ↦ elim (Bool-cases (s.e == s.w)) [
        | inl none_left ↦ rw (go1, go2, erase, none_left) (Kept-refl b)
        | inr some_left ↦
            let v = back-Bounded s b (ground arith) in
            rw (go1, go2, erase, some_left)
              (record { bounded = v; same_r = refl; grows = omega arith; bytes = λ k lt. refl })
      ]
      | inr go3 ↦ elim (Bool-cases (not (c == 0) && ltb (diff s.e s.r) input_buf_size)) [
        | inl fits ↦
            rw (go1, go2, go3, fits)
              (store_char-Kept (if c == 13 then 10 else c) s b (ground arith))
        | inr full ↦ rw (go1, go2, go3, full) (Kept-refl b)
      ]
    ]
  ]
]

-- One character taken, where one is ready.
take-Bounded : (s : Cons) → Bounded s → s.r ≢ s.w → Bounded (record s { r = inc s.r })
take-Bounded s b ne = record {
  uint_r = omega arith;
  uint_w = b.uint_w;
  uint_e = b.uint_e;
  ready = omega (arith, b.uint_r, b.uint_w, b.uint_e, b.ready, b.room);
  room = omega (arith, b.uint_r, b.uint_w, b.uint_e, b.ready, b.room);
}

untake : (s : Cons) → Bounded s → dec (inc s.r) ≡ s.r
untake s b = omega (arith, b.uint_r)

pub read_loop-Bounded :
    (n target : ℕ) (killed : Bool) (copyout : ℕ → Bool) (s : Cons)
    → Bounded s
    → Bounded (read_loop n target killed copyout s).2
unfolding read_loop
read_loop-Bounded zero target killed copyout s b = b
read_loop-Bounded (suc n) target killed copyout s b =
    let c = s.buf (s.r % input_buf_size) in
    elim (Bool-cases (s.r == s.w)) [
      | inl wait ↦ elim (Bool-cases killed) [ inl k ↦ rw (wait, k) b | inr k ↦ rw (wait, k) b ]
      | inr ready ↦
          let taken = take-Bounded s b (ground arith) in
          elim (Bool-cases (c == 4)) [
            | inl eof ↦ elim (Bool-cases (ltb (suc n) target)) [
              | inl later ↦
                  rw (ready, eof, later)
                    (record {
                      uint_r = omega arith;
                      uint_w = b.uint_w;
                      uint_e = b.uint_e;
                      ready = rw (untake s b) b.ready;
                      room = rw (untake s b) b.room;
                    })
              | inr first ↦ rw (ready, eof, first) taken
            ]
            | inr byte ↦ elim (Bool-cases (not (copyout (target - suc n)))) [
              | inl bad ↦ rw (ready, byte, bad) taken
              | inr good ↦ elim (Bool-cases (c == 10)) [
                | inl line ↦ rw (ready, byte, good, line) taken
                | inr more ↦
                    rw (ready, byte, good, more)
                      (read_loop-Bounded n target killed copyout (record s { r = inc s.r }) taken)
              ]
            ]
          ]
    ]
