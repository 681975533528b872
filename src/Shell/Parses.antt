-- ===== src/Shell/Parses.antt =====
-- What each function of the parser makes of the tokens of a command, whatever may follow them.
use xv.Prelude.{
  ℕ, zero, suc, ◌+◌, ◌≤◌, ◌<◌, ◌≡◌, refl, ap, ◌∙◌, true, false, List, [], ◌∷◌, ◌++◌, ◌==◌, arith,
  All, inl, inr, Bool-cases, All-append, length, length-append, append_assoc,
}
use xv.Panic.{ok, ◌>>=◌}
use xv.Shell.{Cmd, pipe, back, strchr, peek, parseexec, parsepipe, parsebacks, parseline}
use xv.Shell.Lexer.{
  Token, is_plain, IsToken, chars, code, render, begins, peek-render, gettoken-render,
}
use xv.Shell.Lexer
use xv.Shell.Redirs.{Redir, IsRedirs, redir_tokens, wrap, follows}
use mathlib.Core.Path.{subst}

-- What may follow a simple command, a pipeline, a command with `&`, and a line.
abbrev pub after_exec : List ℕ
after_exec = 124 ∷ 41 ∷ 38 ∷ 59 ∷ []

abbrev after_pipe : List ℕ
after_pipe = 41 ∷ 38 ∷ 59 ∷ []

abbrev pub after_back : List ℕ
after_back = 41 ∷ 59 ∷ []

abbrev pub after_line : List ℕ
after_line = 41 ∷ []

-- `(`, `)`, `|`, `&` and `;`
abbrev pub lparen : Token
lparen = Lexer.sym 40

abbrev pub rparen : Token
rparen = Lexer.sym 41

abbrev bar : Token
bar = Lexer.sym 124

abbrev amp : Token
amp = Lexer.sym 38

abbrev pub semi : Token
semi = Lexer.sym 59

abbrev pub ParsesExec : List Token → Cmd → Type 0
ParsesExec ts c =
    All IsToken ts
    × ((n : ℕ) (rs : List Redir) (rest : List Token)
        → IsRedirs rs
        → All IsToken rest
        → follows after_exec rest ≡ true
        → length (ts ++ (redir_tokens rs ++ rest)) ≤ n
        → parseexec (parseline n) (n + 1) (render (ts ++ (redir_tokens rs ++ rest)))
          ≡ ok (wrap rs c, render rest))

abbrev pub ParsesPipe : List Token → Cmd → Type 0
ParsesPipe ts c =
    All IsToken ts
    × ((n left : ℕ) (rest : List Token)
        → All IsToken rest
        → follows after_pipe rest ≡ true
        → length (ts ++ rest) ≤ n
        → length (ts ++ rest) < left
        → parsepipe (parseline n) left (n + 1) (render (ts ++ rest)) ≡ ok (c, render rest))

abbrev amps : ℕ → List Token
amps zero = []
amps (suc m) = amp ∷ amps m

abbrev backs : ℕ → Cmd → Cmd
backs zero c = c
backs (suc m) c = backs m (back c)

abbrev pub ParsesBack : List Token → Cmd → Type 0
ParsesBack ts c =
    All IsToken ts
    × ((n m : ℕ) (rest : List Token)
        → All IsToken rest
        → follows after_back rest ≡ true
        → length (ts ++ (amps m ++ rest)) ≤ n
        → (parsepipe (parseline n) (n + 1) (n + 1) (render (ts ++ (amps m ++ rest))) >>= λ o.
            parsebacks (n + 1) (o.0) (o.1))
          ≡ ok (backs m c, render rest))

abbrev pub ParsesLine : List Token → Cmd → Type 0
ParsesLine ts c =
    All IsToken ts
    × ((n : ℕ) (rest : List Token)
        → All IsToken rest
        → follows after_line rest ≡ true
        → length (ts ++ rest) < n
        → parseline n (render (ts ++ rest)) ≡ ok (c, render rest))

pub peeks :
    (d : ℕ) (ts : List Token)
    → All IsToken ts
    → is_plain d ≡ false
    → peek (render ts) (d ∷ []) ≡ (begins (d ∷ []) ts, render ts)
peeks d ts vs symbol = peek-render (d ∷ []) ts vs λ c p. elim (Bool-cases (c == d)) [
  | inl same ↦ let e : c ≡ d = ground arith in absurd (let q = ap is_plain e in cc)
  | inr other ↦ rw other
]

-- A follow set may be larger, and what is not in it does not come.
pub follows-more :
    (f g : List ℕ) (ts : List Token)
    → ((c : ℕ) → strchr f c ≡ true → strchr g c ≡ true)
    → follows f ts ≡ true
    → follows g ts ≡ true
follows-more f g [] h e = refl
follows-more f g (Lexer.word c cs ∷ ts) h e = e
follows-more f g (Lexer.sym c ∷ ts) h e = h c e
follows-more f g (Lexer.gtgt ∷ ts) h e = e

pub follows-not :
    (f : List ℕ) (d : ℕ) (ts : List Token)
    → strchr f d ≡ false
    → (d == 62) ≡ false
    → follows f ts ≡ true
    → begins (d ∷ []) ts ≡ false
follows-not f d [] h g e = refl
follows-not f d (Lexer.word c cs ∷ ts) h g e = refl
follows-not f d (Lexer.sym c ∷ ts) h g e = elim (Bool-cases (c == d)) [
  | inl same ↦ let p : c ≡ d = ground arith in absurd (let q = ap (strchr f) p in cc)
  | inr other ↦ rw other
]
follows-not f d (Lexer.gtgt ∷ ts) h g e = absurd (let e' = e in cc)

pipe_exec_set : (c : ℕ) → strchr after_pipe c ≡ true → strchr after_exec c ≡ true
pipe_exec_set c e = ground arith

back_pipe_set : (c : ℕ) → strchr after_back c ≡ true → strchr after_pipe c ≡ true
back_pipe_set c e = ground arith

pub line_back_set : (c : ℕ) → strchr after_line c ≡ true → strchr after_back c ≡ true
line_back_set c e = ground arith

pub exec-ParsesPipe : (ts : List Token) (c : Cmd) → ParsesExec ts c → ParsesPipe ts c
unfolding parsepipe
exec-ParsesPipe ts c (v, h) = (v, go)
  where
    go :
        (n left : ℕ) (rest : List Token)
        → All IsToken rest
        → follows after_pipe rest ≡ true
        → length (ts ++ rest) ≤ n
        → length (ts ++ rest) < left
        → parsepipe (parseline n) left (n + 1) (render (ts ++ rest)) ≡ ok (c, render rest)
    go n zero rest vr f le lt = absurd (omega arith)
    go n (suc left) rest vr f le lt =
        let e = h n [] rest tt vr (follows-more after_pipe after_exec rest pipe_exec_set f) le in
        rw (e, peeks 124 rest vr refl, follows-not after_pipe 124 rest refl refl f) refl

pub pipe-ParsesPipe :
    (ts us : List Token) (l r : Cmd)
    → ParsesExec ts l
    → ParsesPipe us r
    → ParsesPipe (ts ++ (bar ∷ us)) (pipe l r)
unfolding parsepipe
pipe-ParsesPipe ts us l r (v, h) (w, k) = (All-append IsToken ts (bar ∷ us) v (refl, w), go)
  where
    go :
        (n left : ℕ) (rest : List Token)
        → All IsToken rest
        → follows after_pipe rest ≡ true
        → length ((ts ++ (bar ∷ us)) ++ rest) ≤ n
        → length ((ts ++ (bar ∷ us)) ++ rest) < left
        → parsepipe (parseline n) left (n + 1) (render ((ts ++ (bar ∷ us)) ++ rest))
          ≡ ok (pipe l r, render rest)
    go n zero rest vr f le lt = absurd (omega arith)
    go n (suc left) rest vr f le lt =
        let flat = append_assoc ts (bar ∷ us) rest in
        let size = length-append ts (bar ∷ (us ++ rest)) in
        let total : length ((ts ++ (bar ∷ us)) ++ rest) ≡ length ts + suc (length (us ++ rest)) =
          ap length flat ∙ size in
        let vt : All IsToken (us ++ rest) = All-append IsToken us rest w vr in
        let e = h n [] (bar ∷ (us ++ rest)) tt (refl, vt) refl (omega (arith, total, size)) in
        let e2 = k n left rest vr f (omega (arith, total)) (omega (arith, total)) in
        rw
          (
            flat,
            e,
            peeks 124 (bar ∷ (us ++ rest)) (refl, vt) refl,
            gettoken-render bar (us ++ rest) refl vt,
            e2,
          )
          refl

amps-IsToken : (m : ℕ) (rest : List Token) → All IsToken rest → All IsToken (amps m ++ rest)
amps-IsToken zero rest v = v
amps-IsToken (suc m) rest v = (refl, amps-IsToken m rest v)

amps-follows :
    (m : ℕ) (rest : List Token)
    → follows after_back rest ≡ true
    → follows after_pipe (amps m ++ rest) ≡ true
amps-follows zero rest f = follows-more after_back after_pipe rest back_pipe_set f
amps-follows (suc m) rest f = refl

parsebacks-amps :
    (n m : ℕ) (c : Cmd) (rest : List Token)
    → All IsToken rest
    → follows after_back rest ≡ true
    → m < n
    → parsebacks n c (render (amps m ++ rest)) ≡ ok (backs m c, render rest)
unfolding parsebacks
parsebacks-amps zero m c rest v f le = absurd (omega arith)
parsebacks-amps (suc n) zero c rest v f le =
    rw (peeks 38 rest v refl, follows-not after_back 38 rest refl refl f) refl
parsebacks-amps (suc n) (suc m) c rest v f le =
    let vt = amps-IsToken m rest v in
    rw
      (
        peeks 38 (amp ∷ (amps m ++ rest)) (refl, vt) refl,
        gettoken-render amp (amps m ++ rest) refl vt,
      )
      (parsebacks-amps n m (back c) rest v f (omega arith))

length-amps : (m : ℕ) (rest : List Token) → m ≤ length (amps m ++ rest)
length-amps zero rest = omega arith
length-amps (suc m) rest = omega (arith, length-amps m rest)

pub pipe-ParsesBack : (ts : List Token) (c : Cmd) → ParsesPipe ts c → ParsesBack ts c
pipe-ParsesBack ts c (v, h) = (
  v,
  λ n m rest vr f le.
      let size = length-append ts (amps m ++ rest) in
      let e =
        h n (n + 1) (amps m ++ rest) (amps-IsToken m rest vr) (amps-follows m rest f) le
          (omega arith) in
      rw e (parsebacks-amps (n + 1) m c rest vr f (omega (arith, size, length-amps m rest))),
)

pub back-ParsesBack :
    (ts : List Token) (c : Cmd) → ParsesBack ts c → ParsesBack (ts ++ (amp ∷ [])) (back c)
back-ParsesBack ts c (v, h) = (
  All-append IsToken ts (amp ∷ []) v (refl, tt),
  λ n m rest vr f le.
      let flat = append_assoc ts (amp ∷ []) (amps m ++ rest) in
      rw flat (h n (suc m) rest vr f (subst (λ us. length us ≤ n) flat le)),
)
