-- ===== src/Shell/Lines.antt =====
-- Lines, blocks in parentheses, and simple commands with arguments and redirections.
use xv.Prelude.{
  ℕ, zero, suc, ◌+◌, ◌≤◌, ◌<◌, ◌≡◌, refl, ap, ◌∙◌, true, false, not, List, [], ◌∷◌, ◌++◌,
  if◌then◌else◌, arith, All, All-append, length, length-append, append_assoc,
}
use xv.Panic.{Result, ok, panic, ◌>>=◌}
use xv.Shell.{
  Text, Cmd, exec, redir, list, maxargs, gettoken, peek, parseblock, parseexec, parsepipe,
  parsebacks, parseline,
}
use xv.Shell.Lexer.{Token, IsToken, render, begins, gettoken-render}
use xv.Shell.Redirs.{
  IsWord, IsRedir, Redir, IsRedirs, word_tokens, word_token, redir_token, redir_tokens, follows,
  parseredirs-render, parseargs-render, word_tokens-IsToken, redir_tokens-IsToken, follows-begins,
  begins-word, input, output, append,
}
use xv.Shell.Print.{paren}
use xv.Shell.Parses.{
  after_exec, after_back, after_line, lparen, rparen, semi, ParsesExec, ParsesBack, ParsesLine,
  peeks, follows-not, follows-more, line_back_set,
}
use mathlib.Core.Path.{subst}

>>=-assoc :
    {A B C : Type 0} (x : Result A) (g : A → Result B) (h : B → Result C)
    → (x >>= λ o. g o >>= h) ≡ ((x >>= g) >>= h)
>>=-assoc (ok a) g h = refl
>>=-assoc (panic e) g h = refl

abbrev line_end : ℕ → Cmd × Text → Result (Cmd × Text)
line_end n o =
    let (more, s3) = peek (o.1) (59 ∷ []) in
    if not more
    then ok (o.0, s3)
    else do (right, s4) ← parseline n ((gettoken s3).2); ok (list (o.0) right, s4)

parseline-suc :
    (n : ℕ) (s : Text)
    → parseline (suc n) s ≡ (
        (parsepipe (parseline n) (n + 1) (n + 1) s >>= λ o. parsebacks (n + 1) (o.0) (o.1))
        >>= line_end n)
unfolding parseline
parseline-suc n s =
    >>=-assoc (parsepipe (parseline n) (n + 1) (n + 1) s) (λ o. parsebacks (n + 1) (o.0) (o.1))
      (line_end n)

pub back-ParsesLine : (ts : List Token) (c : Cmd) → ParsesBack ts c → ParsesLine ts c
back-ParsesLine ts c (v, h) = (v, go)
  where
    go :
        (n : ℕ) (rest : List Token)
        → All IsToken rest
        → follows after_line rest ≡ true
        → length (ts ++ rest) < n
        → parseline n (render (ts ++ rest)) ≡ ok (c, render rest)
    go zero rest vr f lt = absurd (omega arith)
    go (suc n) rest vr f lt =
        let e =
          h n 0 rest vr (follows-more after_line after_back rest line_back_set f) (omega arith) in
        parseline-suc n (render (ts ++ rest))
        ∙ rw (e, peeks 59 rest vr refl, follows-not after_line 59 rest refl refl f) refl

pub list-ParsesLine :
    (ts us : List Token) (l r : Cmd)
    → ParsesBack ts l
    → ParsesLine us r
    → ParsesLine (ts ++ (semi ∷ us)) (list l r)
list-ParsesLine ts us l r (v, h) (w, k) = (All-append IsToken ts (semi ∷ us) v (refl, w), go)
  where
    go :
        (n : ℕ) (rest : List Token)
        → All IsToken rest
        → follows after_line rest ≡ true
        → length ((ts ++ (semi ∷ us)) ++ rest) < n
        → parseline n (render ((ts ++ (semi ∷ us)) ++ rest)) ≡ ok (list l r, render rest)
    go zero rest vr f lt = absurd (omega arith)
    go (suc n) rest vr f lt =
        let flat = append_assoc ts (semi ∷ us) rest in
        let size = length-append ts (semi ∷ (us ++ rest)) in
        let total : length ((ts ++ (semi ∷ us)) ++ rest) ≡ length ts + suc (length (us ++ rest)) =
          ap length flat ∙ size in
        let vt : All IsToken (us ++ rest) = All-append IsToken us rest w vr in
        let e = h n 0 (semi ∷ (us ++ rest)) (refl, vt) refl (omega (arith, total, size)) in
        let e2 = k n rest vr f (omega (arith, total)) in
        parseline-suc n (render ((ts ++ (semi ∷ us)) ++ rest))
        ∙ rw
            (
              flat,
              e,
              peeks 59 (semi ∷ (us ++ rest)) (refl, vt) refl,
              gettoken-render semi (us ++ rest) refl vt,
              e2,
            )
            refl

-- What begins with the arguments or redirections of a simple command is no block.
simple-begins :
    (ws : List Text) (rs : List Redir) (rest : List Token)
    → All IsWord ws
    → IsRedirs rs
    → follows after_exec rest ≡ true
    → begins (40 ∷ []) (word_tokens ws ++ (redir_tokens rs ++ rest)) ≡ false
simple-begins (w ∷ ws) rs rest (p, ps) vr f = begins-word (40 ∷ []) w _ p
simple-begins [] [] rest vw vr f = follows-not after_exec 40 rest refl refl f
simple-begins [] (r ∷ rs) rest vw ((w, k), vs) f = op (r.mode) (r.fd) k _
  where
    op :
        (mode fd : ℕ)
        → IsRedir mode fd
        → (ts : List Token) → begins (40 ∷ []) (redir_token mode fd ∷ ts) ≡ false
    op mode fd input ts = refl
    op mode fd output ts = refl
    op mode fd append ts = refl

length-word_tokens : (ws : List Text) → length (word_tokens ws) ≡ length ws
length-word_tokens [] = refl
length-word_tokens (w ∷ ws) = ap suc (length-word_tokens ws)

length-redir_tokens : (rs : List Redir) → length (redir_tokens rs) ≡ length rs + length rs
length-redir_tokens [] = refl
length-redir_tokens (r ∷ rs) = omega (arith, length-redir_tokens rs)

pub words-ParsesExec :
    (ws : List Text) → All IsWord ws → length ws < maxargs → ParsesExec (word_tokens ws) (exec ws)
unfolding parseexec
words-ParsesExec ws v few = (
  word_tokens-IsToken ws v,
  λ n rs rest vrs vr f le.
      let vt =
        All-append IsToken (word_tokens ws) _ (word_tokens-IsToken ws v)
          (All-append IsToken (redir_tokens rs) rest (redir_tokens-IsToken rs vrs) vr) in
      let size1 = length-append (word_tokens ws) (redir_tokens rs ++ rest) in
      let size2 = length-append (redir_tokens rs) rest in
      let size3 = length-word_tokens ws in
      let size4 = length-redir_tokens rs in
      rw
        (
          peeks 40 (word_tokens ws ++ (redir_tokens rs ++ rest)) vt refl,
          simple-begins ws rs rest v vrs f,
        )
        (parseargs-render ws rs rest (n + 1) (n + 1) 0 [] v vrs vr f
          (omega (arith, le, size1, size2, size3, size4))
          (omega (arith, le, size1, size2, size3, size4)) (omega arith)),
)

pub redir-ParsesExec :
    (ts : List Token) (c : Cmd) (file : Text) (mode fd : ℕ)
    → IsWord file
    → IsRedir mode fd
    → ParsesExec ts c
    → ParsesExec (ts ++ (redir_token mode fd ∷ word_token file ∷ [])) (redir c file mode fd)
redir-ParsesExec ts c file mode fd w k (v, h) = (
  All-append IsToken ts _ v
      (redir_tokens-IsToken (record { file = file; mode = mode; fd = fd } ∷ []) ((w, k), tt)),
  λ n rs rest vrs vr f le.
      let r : Redir = record { file = file; mode = mode; fd = fd } in
      let flat =
        append_assoc ts (redir_token mode fd ∷ word_token file ∷ []) (redir_tokens rs ++ rest) in
      rw flat (h n (r ∷ rs) rest ((w, k), vrs) vr f (subst (λ us. length us ≤ n) flat le)),
)

pub block-ParsesExec : (ts : List Token) (c : Cmd) → ParsesLine ts c → ParsesExec (paren ts) c
unfolding parseexec parseblock
block-ParsesExec ts c (v, h) = (
  (refl, All-append IsToken ts (rparen ∷ []) v (refl, tt)),
  λ n rs rest vrs vr f le.
      let tail : List Token = redir_tokens rs ++ rest in
      let vtail : All IsToken tail =
        All-append IsToken (redir_tokens rs) rest (redir_tokens-IsToken rs vrs) vr in
      let vclose : All IsToken (rparen ∷ tail) = (refl, vtail) in
      let vt : All IsToken (ts ++ (rparen ∷ tail)) =
        All-append IsToken ts (rparen ∷ tail) v vclose in
      let flat : (ts ++ (rparen ∷ [])) ++ tail ≡ ts ++ (rparen ∷ tail) =
        append_assoc ts (rparen ∷ []) tail in
      let size1 = length-append ts (rparen ∷ tail) in
      let size2 = length-append (redir_tokens rs) rest in
      let size3 = length-redir_tokens rs in
      let whole : length (ts ++ (rparen ∷ tail)) < n = subst (λ us. suc (length us) ≤ n) flat le in
      let e = h n (rparen ∷ tail) vclose refl whole in
      let opened = peeks 40 (lparen ∷ (ts ++ (rparen ∷ tail))) (refl, vt) refl in
      rw
        (
          flat,
          opened,
          opened,
          gettoken-render lparen (ts ++ (rparen ∷ tail)) refl vt,
          e,
          peeks 41 (rparen ∷ tail) vclose refl,
          gettoken-render rparen tail refl vtail,
        )
        (parseredirs-render rs (n + 1) c rest vrs vr (follows-begins rest f)
          (omega (arith, whole, size1, size2, size3))),
)
