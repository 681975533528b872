-- ===== src/Shell/Redirs.antt =====
-- The arguments and redirections of a command, as tokens and as `parseredirs` and `parseargs` read them.
use xv.Prelude.{
  ℕ, zero, suc, ◌+◌, ◌<◌, ◌≡◌, refl, ap, ◌∙◌, Bool, true, false, List, [], ◌∷◌, ◌++◌, ◌==◌,
  if◌then◌else◌, arith, All, All-append, length, append_nil, append_assoc, leb,
}
use xv.Panic.{ok, ◌>>=◌}
use xv.Shell.{
  Text, Cmd, exec, redir, strchr, o_truncate, maxargs, redirect, gettoken, parseredirs, add_arg,
  parseargs,
}
use xv.Shell.Lexer.{
  Token, word, sym, gtgt, is_plain, IsToken, code, render, begins, peek-render, gettoken-render,
  gettoken-end,
}

pub data IsWord : Text → Type 0 where
  plain : (c : ℕ) (cs : Text) (v : All (λ d. is_plain d ≡ true) (c ∷ cs)) → IsWord (c ∷ cs)

abbrev pub word_token : Text → Token
word_token [] = gtgt
word_token (c ∷ cs) = word c cs

abbrev pub word_tokens : List Text → List Token
word_tokens [] = []
word_tokens (w ∷ ws) = word_token w ∷ word_tokens ws

-- The redirections that the parser can make: from a file, to a file, and to the end of a file.
pub data IsRedir : ℕ → ℕ → Type 0 where
  input : IsRedir 0 0
  output : IsRedir 1537 1
  append : IsRedir 513 1

abbrev pub redir_token : ℕ → ℕ → Token
redir_token mode fd = if fd == 0 then sym 60 else if mode == o_truncate then sym 62 else gtgt

pub record Redir : Type 0 where
  pub file : Text
  pub mode : ℕ
  pub fd : ℕ

abbrev pub IsRedirs : List Redir → Type 0
IsRedirs [] = Unit {0}
IsRedirs (r ∷ rs) = (IsWord (r.file) × IsRedir (r.mode) (r.fd)) × IsRedirs rs

abbrev pub redir_tokens : List Redir → List Token
redir_tokens [] = []
redir_tokens (r ∷ rs) = redir_token (r.mode) (r.fd) ∷ word_token (r.file) ∷ redir_tokens rs

-- The command within the redirections, the first of them innermost.
abbrev pub wrap : List Redir → Cmd → Cmd
wrap [] cmd = cmd
wrap (r ∷ rs) cmd = wrap rs (redir cmd (r.file) (r.mode) (r.fd))

-- What may follow: the end, or a symbol among `toks`.
abbrev pub follows : List ℕ → List Token → Bool
follows toks [] = true
follows toks (word c cs ∷ ts) = false
follows toks (sym c ∷ ts) = strchr toks c
follows toks (gtgt ∷ ts) = false

word_token-IsToken : (w : Text) → IsWord w → IsToken (word_token w)
word_token-IsToken w (plain c cs v) = v

gettoken-word :
    (w : Text) (ts : List Token)
    → IsWord w
    → All IsToken ts
    → gettoken (render (word_token w ∷ ts)) ≡ (97, w, render ts)
gettoken-word w ts (plain c cs v) vs = gettoken-render (word c cs) ts v vs

pub redir_tokens-IsToken : (rs : List Redir) → IsRedirs rs → All IsToken (redir_tokens rs)
redir_tokens-IsToken [] v = tt
redir_tokens-IsToken (r ∷ rs) ((w, k), vs) =
    (op (r.mode) (r.fd) k, (word_token-IsToken (r.file) w, redir_tokens-IsToken rs vs))
  where
    op : (mode fd : ℕ) → IsRedir mode fd → IsToken (redir_token mode fd)
    op mode fd input = refl
    op mode fd output = refl
    op mode fd append = tt

pub word_tokens-IsToken : (ws : List Text) → All IsWord ws → All IsToken (word_tokens ws)
word_tokens-IsToken [] v = tt
word_tokens-IsToken (w ∷ ws) (p, ps) = (word_token-IsToken w p, word_tokens-IsToken ws ps)

begins-head :
    (toks : List ℕ) (t : Token) (ts us : List Token)
    → begins toks (t ∷ ts) ≡ true
    → begins toks (t ∷ us) ≡ true
begins-head toks (word c cs) ts us e = e
begins-head toks (sym c) ts us e = e
begins-head toks gtgt ts us e = e

not_greater : (c : ℕ) → is_plain c ≡ true → strchr (60 ∷ 62 ∷ []) c ≡ false
not_greater c p = ground arith

not_end : (c : ℕ) → is_plain c ≡ true → strchr (124 ∷ 41 ∷ 38 ∷ 59 ∷ []) c ≡ false
not_end c p = ground arith

-- After a command comes no redirection.
pub follows-begins :
    (ts : List Token)
    → follows (124 ∷ 41 ∷ 38 ∷ 59 ∷ []) ts ≡ true
    → begins (60 ∷ 62 ∷ []) ts ≡ false
follows-begins [] f = refl
follows-begins (word c cs ∷ ts) f = refl
follows-begins (sym c ∷ ts) f = ground arith
follows-begins (gtgt ∷ ts) f = absurd (let e = f in cc)

parseredirs-step :
    (t : Token) (rounds : ℕ) (cmd : Cmd) (file : Text) (rest : List Token) (cmd' : Cmd)
    → IsToken t
    → IsWord file
    → All IsToken rest
    → begins (60 ∷ 62 ∷ []) (t ∷ []) ≡ true
    → redirect (code t) cmd file ≡ cmd'
    → parseredirs (suc rounds) cmd (render (t ∷ word_token file ∷ rest))
      ≡ parseredirs rounds cmd' (render rest)
unfolding parseredirs
parseredirs-step t rounds cmd file rest cmd' p w vs e makes =
    let after : All IsToken (word_token file ∷ rest) = (word_token-IsToken file w, vs) in
    let peeked = peek-render (60 ∷ 62 ∷ []) (t ∷ word_token file ∷ rest) (p, after) not_greater in
    let starts : begins (60 ∷ 62 ∷ []) (t ∷ word_token file ∷ rest) ≡ true =
      begins-head (60 ∷ 62 ∷ []) t [] (word_token file ∷ rest) e in
    rw
      (
        peeked,
        starts,
        gettoken-render t (word_token file ∷ rest) p after,
        gettoken-word file rest w vs,
        makes,
      )
      refl

pub parseredirs-render :
    (rs : List Redir) (rounds : ℕ) (cmd : Cmd) (rest : List Token)
    → IsRedirs rs
    → All IsToken rest
    → begins (60 ∷ 62 ∷ []) rest ≡ false
    → length rs < rounds
    → parseredirs rounds cmd (render (redir_tokens rs ++ rest)) ≡ ok (wrap rs cmd, render rest)
unfolding parseredirs
parseredirs-render [] zero cmd rest v vs e le = absurd (omega arith)
parseredirs-render [] (suc rounds) cmd rest v vs e le =
    rw (peek-render (60 ∷ 62 ∷ []) rest vs not_greater, e) refl
parseredirs-render (r ∷ rs) zero cmd rest v vs e le = absurd (omega arith)
parseredirs-render (r ∷ rs) (suc rounds) cmd rest ((w, k), vr) vs e le =
    one (r.mode) (r.fd) k
    ∙ parseredirs-render rs rounds (redir cmd (r.file) (r.mode) (r.fd)) rest vr vs e (omega arith)
  where
    tail : All IsToken (redir_tokens rs ++ rest)
    tail = All-append IsToken (redir_tokens rs) rest (redir_tokens-IsToken rs vr) vs

    one :
        (mode fd : ℕ)
        → IsRedir mode fd
        → parseredirs
            (suc rounds)
            cmd
            (render (redir_token mode fd ∷ word_token (r.file) ∷ (redir_tokens rs ++ rest)))
          ≡ parseredirs rounds (redir cmd (r.file) mode fd) (render (redir_tokens rs ++ rest))
    one mode fd input = parseredirs-step (sym 60) rounds cmd (r.file) _ _ refl w tail refl refl
    one mode fd output = parseredirs-step (sym 62) rounds cmd (r.file) _ _ refl w tail refl refl
    one mode fd append = parseredirs-step gtgt rounds cmd (r.file) _ _ tt w tail refl refl

-- Words are no redirections.
parseredirs-none :
    (rounds : ℕ) (cmd : Cmd) (ts : List Token)
    → All IsToken ts
    → begins (60 ∷ 62 ∷ []) ts ≡ false
    → 0 < rounds
    → parseredirs rounds cmd (render ts) ≡ ok (cmd, render ts)
parseredirs-none rounds cmd ts vs e lt = parseredirs-render [] rounds cmd ts tt vs e lt

pub begins-word :
    (toks : List ℕ) (w : Text) (ts : List Token)
    → IsWord w
    → begins toks (word_token w ∷ ts) ≡ false
begins-word toks w ts (plain c cs v) = refl

parseargs-end :
    (rounds : ℕ) (cmd : Cmd) (argc : ℕ) (rest : List Token)
    → All IsToken rest
    → follows (124 ∷ 41 ∷ 38 ∷ 59 ∷ []) rest ≡ true
    → 0 < rounds
    → parseargs rounds cmd argc (render rest) ≡ ok (cmd, render rest)
unfolding parseargs
parseargs-end zero cmd argc rest vs f lt = absurd (omega arith)
parseargs-end (suc rounds) cmd argc [] vs f lt =
    rw (peek-render (124 ∷ 41 ∷ 38 ∷ 59 ∷ []) [] tt not_end, gettoken-end) refl
parseargs-end (suc rounds) cmd argc (word c cs ∷ rest) vs f lt = absurd (let e = f in cc)
parseargs-end (suc rounds) cmd argc (sym c ∷ rest) vs f lt =
    rw (peek-render (124 ∷ 41 ∷ 38 ∷ 59 ∷ []) (sym c ∷ rest) vs not_end, f) refl
parseargs-end (suc rounds) cmd argc (gtgt ∷ rest) vs f lt = absurd (let e = f in cc)

-- Arguments, then redirections, then what may follow a command.
pub parseargs-render :
    (ws : List Text) (rs : List Redir) (rest : List Token) (rounds more argc : ℕ) (argv : List Text)
    → All IsWord ws
    → IsRedirs rs
    → All IsToken rest
    → follows (124 ∷ 41 ∷ 38 ∷ 59 ∷ []) rest ≡ true
    → length ws + length rs < rounds
    → length rs < more
    → argc + length ws < maxargs
    → (parseredirs more (exec argv) (render (word_tokens ws ++ (redir_tokens rs ++ rest)))
        >>= λ out. parseargs rounds (out.0) argc (out.1))
      ≡ ok (wrap rs (exec (argv ++ ws)), render rest)
unfolding parseargs add_arg
parseargs-render [] rs rest rounds more argc argv vw vr vs f le le_more few =
    rw (parseredirs-render rs more (exec argv) rest vr vs (follows-begins rest f) le_more) (
      parseargs-end rounds (wrap rs (exec argv)) argc rest vs f (omega arith)
      ∙ ap (λ a. ok (wrap rs (exec a), render rest)) (append_nil argv))
parseargs-render (w ∷ ws) rs rest zero more argc argv vw vr vs f le le_more few =
    absurd (omega arith)
parseargs-render (w ∷ ws) rs rest (suc rounds) more argc argv (p, ps) vr vs f le le_more few =
    let tail : List Token = word_tokens ws ++ (redir_tokens rs ++ rest) in
    let vt : All IsToken tail =
      All-append IsToken (word_tokens ws) _ (word_tokens-IsToken ws ps)
        (All-append IsToken (redir_tokens rs) rest (redir_tokens-IsToken rs vr) vs) in
    let v : All IsToken (word_token w ∷ tail) = (word_token-IsToken w p, vt) in
    let few' : leb maxargs (argc + 1) ≡ false = ground arith in
    let ih =
      parseargs-render ws rs rest rounds rounds (argc + 1) (argv ++ (w ∷ [])) ps vr vs f
        (omega arith) (omega arith) (omega arith) in
    rw
      (
        parseredirs-none more (exec argv) (word_token w ∷ tail) v
            (begins-word (60 ∷ 62 ∷ []) w tail p) (omega arith),
        peek-render (124 ∷ 41 ∷ 38 ∷ 59 ∷ []) (word_token w ∷ tail) v not_end,
        begins-word (124 ∷ 41 ∷ 38 ∷ 59 ∷ []) w tail p,
        gettoken-word w tail p vt,
        few',
      )
      (ih ∙ ap (λ a. ok (wrap rs (exec a), render rest)) (append_assoc argv (w ∷ []) ws))
