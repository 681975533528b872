-- ===== src/Shell.antt =====
-- user/sh.c: the parser. Text is a list of character codes without 0; what `*ps` points at is the
-- text that is left, and a string between two pointers is the list of its characters.
pub mod Print
pub mod Lexer
pub mod Redirs
mod Tests
pub mod Parses
pub mod Lines
pub mod Roundtrip
pub mod Termination
pub mod Lengths
use Prim.Native.String.{String}
use xv.Panic.{Result, ok, panic, ◌>>=◌, ◌>>◌, panic_if}
use xv.Prelude.{
  ℕ, zero, suc, ◌+◌, Bool, true, false, not, ◌&&◌, ◌||◌, List, [], ◌∷◌, ◌++◌, leb, ◌==◌,
  if◌then◌else◌, length,
}

abbrev pub Text : Type 0
Text = List ℕ

-- `O_RDONLY`, `O_WRONLY|O_CREATE|O_TRUNC` and `O_WRONLY|O_CREATE`
abbrev o_rdonly : ℕ
o_rdonly = 0

abbrev pub o_truncate : ℕ
o_truncate = 1537

abbrev o_append : ℕ
o_append = 513

abbrev pub maxargs : ℕ
maxargs = 10

-- `struct cmd` with `struct execcmd` and the others.
pub data Cmd : Type 0 where
  exec : (argv : List Text) → Cmd
  redir : (cmd : Cmd) (file : Text) (mode fd : ℕ) → Cmd
  pipe : (left right : Cmd) → Cmd
  list : (left right : Cmd) → Cmd
  back : (cmd : Cmd) → Cmd

-- `strchr(s, c)` for a `c` other than 0
abbrev pub strchr : List ℕ → ℕ → Bool
strchr [] c = false
strchr (d ∷ s) c = c == d || strchr s c

abbrev pub whitespace : List ℕ
whitespace = 32 ∷ 9 ∷ 13 ∷ 10 ∷ 11 ∷ []

abbrev pub symbols : List ℕ
symbols = 60 ∷ 124 ∷ 62 ∷ 38 ∷ 59 ∷ 40 ∷ 41 ∷ []

-- `while(s < es && strchr(whitespace, *s)) s++;`
abbrev pub skip_white : Text → Text
skip_white [] = []
skip_white (c ∷ s) = if strchr whitespace c then skip_white s else c ∷ s

-- The characters of a word, and what follows them.
abbrev pub scan_word : Text → Text × Text
scan_word [] = ([], [])
scan_word (c ∷ s) =
    let (w, rest) = scan_word s in
    if strchr whitespace c || strchr symbols c then ([], c ∷ s) else (c ∷ w, rest)

-- The default of the switch: the token 'a'.
pub scan_default : Text → ℕ × Text × Text
scan_default s = let (w, rest) = scan_word s in (97, w, rest)

-- The switch of `gettoken`: the code of the token, its characters, and what follows.
abbrev pub scan_token : Text → ℕ × Text × Text
scan_token [] = (0, [], [])
scan_token (c ∷ s) =
    if strchr (124 ∷ 40 ∷ 41 ∷ 59 ∷ 38 ∷ 60 ∷ []) c
    then (c, c ∷ [], s)
    else if c == 62
    then scan_greater s
    else scan_default (c ∷ s)
  where
    scan_greater : Text → ℕ × Text × Text
    scan_greater [] = (62, 62 ∷ [], [])
    scan_greater (d ∷ s) = if d == 62 then (43, 62 ∷ 62 ∷ [], s) else (62, 62 ∷ [], d ∷ s)

pub gettoken : Text → ℕ × Text × Text
gettoken s = let (tok, chars, rest) = scan_token (skip_white s) in (tok, chars, skip_white rest)

-- Whether the next character is one of `toks`, and the text after white space.
pub peek : Text → List ℕ → Bool × Text
peek s toks = (starts (skip_white s), skip_white s)
  where
    starts : Text → Bool
    starts [] = false
    starts (c ∷ s) = strchr toks c

-- The command that a redirection with the token `tok` makes.
abbrev pub redirect : ℕ → Cmd → Text → Cmd
redirect tok cmd q =
    if tok == 60
    then redir cmd q o_rdonly 0
    else if tok == 62
    then redir cmd q o_truncate 1
    else if tok == 43
    then redir cmd q o_append 1
    else cmd

pub parseredirs : ℕ → Cmd → Text → Result (Cmd × Text)
parseredirs zero cmd s = panic "rounds"
parseredirs (suc rounds) cmd s =
    let (more, s1) = peek s (60 ∷ 62 ∷ []) in
    let (tok, op, s2) = gettoken s1 in
    let (a, q, s3) = gettoken s2 in
    if not more
    then ok (cmd, s1)
    else if not (a == 97)
    then panic "missing file for redirection"
    else parseredirs rounds (redirect tok cmd q) s3

-- `cmd->argv[argc] = q`, where `cmd` is the command inside the redirections.
pub add_arg : Cmd → Text → Cmd
add_arg (exec argv) q = exec (argv ++ (q ∷ []))
add_arg (redir cmd file mode fd) q = redir (add_arg cmd q) file mode fd
add_arg (pipe left right) q = pipe left right
add_arg (list left right) q = list left right
add_arg (back cmd) q = back cmd

-- The loop of `parseexec`.
pub parseargs : ℕ → Cmd → ℕ → Text → Result (Cmd × Text)
parseargs zero ret argc s = panic "rounds"
parseargs (suc rounds) ret argc s =
    let (stop, s1) = peek s (124 ∷ 41 ∷ 38 ∷ 59 ∷ []) in
    let (tok, q, s2) = gettoken s1 in
    if stop
    then ok (ret, s1)
    else if tok == 0
    then ok (ret, s2)
    else if not (tok == 97)
    then panic "syntax"
    else if leb maxargs (argc + 1)
    then panic "too many args"
    else do (ret', s3) ← parseredirs rounds (add_arg ret q) s2; parseargs rounds ret' (argc + 1) s3

module _ (line : Text → Result (Cmd × Text)) where
  pub parseblock : ℕ → Text → Result (Cmd × Text)
  parseblock rounds s =
      let (opens, s1) = peek s (40 ∷ []) in
      if not opens then panic "parseblock" else do
        (cmd, s2) ← line ((gettoken s1).2)
        (let (closes, s3) = peek s2 (41 ∷ []) in
            if not closes
            then panic "syntax - missing )"
            else parseredirs rounds cmd ((gettoken s3).2))

  pub parseexec : ℕ → Text → Result (Cmd × Text)
  parseexec rounds s =
      let (opens, s1) = peek s (40 ∷ []) in
      if opens
      then parseblock rounds s1
      else do (ret, s2) ← parseredirs rounds (exec []) s1; parseargs rounds ret 0 s2

  pub parsepipe : ℕ → ℕ → Text → Result (Cmd × Text)
  parsepipe zero rounds s = panic "rounds"
  parsepipe (suc left) rounds s = do
    (cmd, s1) ← parseexec rounds s
    (let (more, s2) = peek s1 (124 ∷ []) in
        if not more
        then ok (cmd, s2)
        else do (right, s3) ← parsepipe left rounds ((gettoken s2).2); ok (pipe cmd right, s3))

-- `while(peek(ps, es, "&"))`
pub parsebacks : ℕ → Cmd → Text → Result (Cmd × Text)
parsebacks zero cmd s = panic "rounds"
parsebacks (suc rounds) cmd s =
    let (more, s1) = peek s (38 ∷ []) in
    if more then parsebacks rounds (back cmd) ((gettoken s1).2) else ok (cmd, s1)

-- A round of a loop takes a character, so each loop has one round more than the line has characters.
pub parseline : ℕ → Text → Result (Cmd × Text)
parseline zero s = panic "rounds"
parseline (suc rounds) s = do
  (cmd, s1) ← parsepipe (parseline rounds) (rounds + 1) (rounds + 1) s
  (cmd', s2) ← parsebacks (rounds + 1) cmd s1
  (let (more, s3) = peek s2 (59 ∷ []) in
      if not more
      then ok (cmd', s3)
      else do (right, s4) ← parseline rounds ((gettoken s3).2); ok (list cmd' right, s4))

-- `if(s != es)`
abbrev pub leftovers : Text → Cmd → Result Cmd
leftovers [] cmd = ok cmd
leftovers (c ∷ s) cmd = panic "syntax"

-- A nested line is shorter than the one it stands in, so one round more than there are characters is
-- enough.
pub parsecmd : Text → Result Cmd
parsecmd s = do (cmd, s1) ← parseline (length s + 1) s; leftovers ((peek s1 []).1) cmd
