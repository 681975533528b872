-- ===== src/Shell/Termination.antt =====
-- The parser ends on any text: its rounds are enough, and each function leaves no more text than it
-- was given.
use Prim.Native.String.{String}
use xv.Prelude.{
  ℕ, zero, suc, ◌+◌, ◌≤◌, ◌<◌, ◌≡◌, refl, ◌⊎◌, inl, inr, true, List, [], ◌∷◌, ◌==◌, arith,
  Bool-cases, length, leb,
}
use xv.Panic.{Result, ok, panic, ◌>>=◌}
use xv.Shell.{
  Text, Cmd, exec, pipe, list, back, maxargs, redirect, gettoken, peek, parseredirs, add_arg,
  parseargs, parseblock, parseexec, parsepipe, parsebacks, parseline, parsecmd, leftovers,
}
use xv.Shell.Lengths.{
  Ends, done, failed, IsSyntaxError, peek-length, skip_white-twice, bad_token, gettoken-le,
  peek-gettoken, gettoken-shorter, Ends-bind, bad_block, bad_count, bad_file,
}

peek-again :
    (s : Text) (toks : List ℕ) → (peek s toks).0 ≡ true → (peek ((peek s toks).1) toks).0 ≡ true
unfolding peek
peek-again s toks e = rw (skip_white-twice s) e

parseredirs-Ends :
    (rounds : ℕ) (cmd : Cmd) (s : Text) (k : ℕ)
    → length s < rounds
    → length s ≤ k
    → Ends k (parseredirs rounds cmd s)
unfolding parseredirs
parseredirs-Ends zero cmd s k lt le = absurd (omega arith)
parseredirs-Ends (suc rounds) cmd s k lt le =
    let s1 : Text = (peek s (60 ∷ 62 ∷ [])).1 in
    let (tok, op, s2) = gettoken s1 in
    let (a, q, s3) = gettoken s2 in
    let le1 = peek-length s (60 ∷ 62 ∷ []) in
    elim (Bool-cases ((peek s (60 ∷ 62 ∷ [])).0)) [
      | inr over ↦ rw over (done cmd s1 (omega (arith, le1)))
      | inl more ↦ elim (Bool-cases (a == 97)) [
        | inr missing ↦ rw (more, missing) (failed _ bad_file)
        | inl found ↦
            let shorter = peek-gettoken s (60 ∷ 62 ∷ []) more in
            rw (more, found)
              (parseredirs-Ends rounds (redirect tok cmd q) s3 k (omega (arith, gettoken-le s2))
                (omega (arith, gettoken-le s2)))
      ]
    ]

parseargs-Ends :
    (rounds : ℕ) (ret : Cmd) (argc : ℕ) (s : Text) (k : ℕ)
    → length s < rounds
    → length s ≤ k
    → Ends k (parseargs rounds ret argc s)
unfolding parseargs
parseargs-Ends zero ret argc s k lt le = absurd (omega arith)
parseargs-Ends (suc rounds) ret argc s k lt le =
    let toks : List ℕ = 124 ∷ 41 ∷ 38 ∷ 59 ∷ [] in
    let s1 : Text = (peek s toks).1 in
    let (tok, q, s2) = gettoken s1 in
    let le1 = peek-length s toks in
    let le2 : length s2 ≤ k = omega (arith, le1, gettoken-le s1) in
    elim (Bool-cases ((peek s toks).0)) [
      | inl stop ↦ rw stop (done ret s1 (omega (arith, le1)))
      | inr more ↦ elim (Bool-cases (tok == 0)) [
        | inl end ↦ rw (more, end) (done ret s2 le2)
        | inr some_token ↦ elim (Bool-cases (tok == 97)) [
          | inr symbol ↦ rw (more, some_token, symbol) (failed _ bad_token)
          | inl word ↦ elim (Bool-cases (leb maxargs (argc + 1))) [
            | inl many ↦ rw (more, some_token, word, many) (failed _ bad_count)
            | inr few ↦
                let shorter = gettoken-shorter s1 some_token in
                rw (more, some_token, word, few)
                  (Ends-bind (length s2) k _ _
                    (parseredirs-Ends rounds (add_arg ret q) s2 (length s2) (omega (arith, le1))
                      (omega arith))
                    (λ ret' s3 le3.
                      parseargs-Ends rounds ret' (argc + 1) s3 k (omega (arith, le1))
                        (omega arith)))
          ]
        ]
      ]
    ]

parsebacks-Ends :
    (rounds : ℕ) (cmd : Cmd) (s : Text) (k : ℕ)
    → length s < rounds
    → length s ≤ k
    → Ends k (parsebacks rounds cmd s)
unfolding parsebacks
parsebacks-Ends zero cmd s k lt le = absurd (omega arith)
parsebacks-Ends (suc rounds) cmd s k lt le =
    let s1 : Text = (peek s (38 ∷ [])).1 in
    elim (Bool-cases ((peek s (38 ∷ [])).0)) [
      | inr over ↦ rw over (done cmd s1 (omega (arith, peek-length s (38 ∷ []))))
      | inl more ↦
          let shorter = peek-gettoken s (38 ∷ []) more in
          rw more
            (parsebacks-Ends rounds (back cmd) ((gettoken s1).2) k (omega arith) (omega arith))
    ]

-- A line parser that ends on texts of fewer than `n` characters.
module _ (line : Text → Result (Cmd × Text)) (n : ℕ)
    (h : (s : Text) (k : ℕ) → length s < n → length s ≤ k → Ends k (line s)) where
  parseblock-Ends :
      (rounds : ℕ) (s : Text) (k : ℕ)
      → (peek s (40 ∷ [])).0 ≡ true
      → length s < rounds
      → length s ≤ n
      → length s ≤ k
      → Ends k (parseblock line rounds s)
  unfolding parseblock
  parseblock-Ends rounds s k opens lt le le_k =
      let s1 : Text = (gettoken ((peek s (40 ∷ [])).1)).2 in
      let shorter = peek-gettoken s (40 ∷ []) opens in
      rw opens (
        Ends-bind (length s1) k _ _ (h s1 (length s1) (omega arith) (omega arith)) λ cmd s2 le2.
          let s3 : Text = (peek s2 (41 ∷ [])).1 in
          elim (Bool-cases ((peek s2 (41 ∷ [])).0)) [
            | inr missing ↦ rw missing (failed _ bad_block)
            | inl closes ↦ rw closes (
                parseredirs-Ends rounds cmd ((gettoken s3).2) k
                  (omega (arith, gettoken-le s3, peek-length s2 (41 ∷ [])))
                  (omega (arith, gettoken-le s3, peek-length s2 (41 ∷ []))))
          ])

  parseexec-Ends :
      (rounds : ℕ) (s : Text) (k : ℕ)
      → length s < rounds
      → length s ≤ n
      → length s ≤ k
      → Ends k (parseexec line rounds s)
  unfolding parseexec
  parseexec-Ends rounds s k lt le le_k =
      let s1 : Text = (peek s (40 ∷ [])).1 in
      let le1 = peek-length s (40 ∷ []) in
      elim (Bool-cases ((peek s (40 ∷ [])).0)) [
        | inl opens ↦ rw opens (
            parseblock-Ends rounds s1 k (peek-again s (40 ∷ []) opens) (omega arith) (omega arith)
              (omega arith))
        | inr simple ↦ rw simple (
            Ends-bind (length s1) k _ _
              (parseredirs-Ends rounds (exec []) s1 (length s1) (omega arith) (omega arith))
              (λ ret s2 le2. parseargs-Ends rounds ret 0 s2 k (omega arith) (omega arith)))
      ]

  parsepipe-Ends :
      (left rounds : ℕ) (s : Text) (k : ℕ)
      → length s < left
      → length s < rounds
      → length s ≤ n
      → length s ≤ k
      → Ends k (parsepipe line left rounds s)
  unfolding parsepipe
  parsepipe-Ends zero rounds s k lt lt_r le le_k = absurd (omega arith)
  parsepipe-Ends (suc left) rounds s k lt lt_r le le_k =
      Ends-bind (length s) k _ _ (parseexec-Ends rounds s (length s) lt_r le (omega arith))
        λ cmd s1 le1.
          let s2 : Text = (peek s1 (124 ∷ [])).1 in
          elim (Bool-cases ((peek s1 (124 ∷ [])).0)) [
            | inr over ↦ rw over (done cmd s2 (omega (arith, peek-length s1 (124 ∷ []))))
            | inl more ↦
                let shorter = peek-gettoken s1 (124 ∷ []) more in
                rw more (
                  Ends-bind k k _ _
                    (parsepipe-Ends left rounds ((gettoken s2).2) k (omega arith) (omega arith)
                      (omega arith) (omega arith))
                    (λ right s3 le3. done (pipe cmd right) s3 le3))
          ]

parseline-Ends : (n : ℕ) (s : Text) (k : ℕ) → length s < n → length s ≤ k → Ends k (parseline n s)
unfolding parseline
parseline-Ends zero s k lt le = absurd (omega arith)
parseline-Ends (suc n) s k lt le =
    Ends-bind (length s) k _ _
      (parsepipe-Ends (parseline n) n (parseline-Ends n) (n + 1) (n + 1) s (length s) (omega arith)
        (omega arith) (omega arith) (omega arith))
      λ cmd s1 le1.
        Ends-bind (length s) k _ _
          (parsebacks-Ends (n + 1) cmd s1 (length s) (omega arith) (omega arith))
          λ cmd' s2 le2.
            let s3 : Text = (peek s2 (59 ∷ [])).1 in
            elim (Bool-cases ((peek s2 (59 ∷ [])).0)) [
              | inr over ↦ rw over (done cmd' s3 (omega (arith, peek-length s2 (59 ∷ []))))
              | inl more ↦
                  let shorter = peek-gettoken s2 (59 ∷ []) more in
                  rw more (
                    Ends-bind k k _ _
                      (parseline-Ends n ((gettoken s3).2) k (omega arith) (omega arith))
                      (λ right s4 le4. done (list cmd' right) s4 le4))
            ]

abbrev Outcome : Result Cmd → Type 0
Outcome r = ((cmd : Cmd) × (r ≡ ok cmd)) ⊎ ((e : String) × (r ≡ panic e) × IsSyntaxError e)

leftovers-Outcome : (s : Text) (cmd : Cmd) → Outcome (leftovers s cmd)
leftovers-Outcome [] cmd = inl (cmd, refl)
leftovers-Outcome (c ∷ s) cmd = inr ("syntax", refl, bad_token)

Ends-Outcome :
    (k : ℕ) (r : Result (Cmd × Text)) (f : Cmd × Text → Result Cmd)
    → Ends k r
    → ((o : Cmd × Text) → Outcome (f o))
    → Outcome (r >>= f)
Ends-Outcome k (ok o) f (done cmd s le) h = h o
Ends-Outcome k (panic e) f (failed e' v) h = inr (e, refl, v)

-- On any text `parsecmd` ends with a command or with one of four messages: a redirection without a
-- file, a syntax error, too many arguments, or a block that is not closed. No loop runs out
-- of its rounds, and "parseblock" is never the message.
pub parsecmd-ends :
    (s : Text)
    → ((cmd : Cmd) × (parsecmd s ≡ ok cmd))
      ⊎ ((e : String) × (parsecmd s ≡ panic e) × IsSyntaxError e)
unfolding parsecmd
parsecmd-ends s =
    Ends-Outcome (length s) (parseline (length s + 1) s) _
      (parseline-Ends (length s + 1) s (length s) (omega arith) (omega arith))
      (λ o. leftovers-Outcome ((peek (o.1) []).1) (o.0))
