-- ===== src/Shell/Roundtrip.antt =====
-- `parsecmd` of a command written out.
use xv.Prelude.{
  ◌+◌, ◌≤◌, ◌<◌, ◌≡◌, refl, sym, List, [], ◌∷◌, ◌++◌, arith, length, length-append, append_nil,
}
use xv.Panic.{ok}
use xv.Shell.{Cmd, exec, redir, pipe, list, back, parsecmd, parseline}
use xv.Shell.Lexer.{Token, chars, render, peek-render}
use xv.Shell.Print.{simple, piped, background, sequence, tokens, IsCmd}
use xv.Shell.Parses.{
  ParsesExec, ParsesPipe, ParsesBack, ParsesLine, exec-ParsesPipe, pipe-ParsesPipe, pipe-ParsesBack,
  back-ParsesBack,
}
use xv.Shell.Lines.{
  back-ParsesLine, list-ParsesLine, words-ParsesExec, redir-ParsesExec, block-ParsesExec,
}
use mathlib.Core.Path.{subst}

-- Each way to write a command is read back.
record Parsed (c : Cmd) : Type 0 where
  simply : ParsesExec (tokens simple c) c
  in_pipe : ParsesPipe (tokens piped c) c
  in_back : ParsesBack (tokens background c) c
  in_line : ParsesLine (tokens sequence c) c

-- A command that is written the same way at every level.
plain-Parsed :
    (ts : List Token) (c : Cmd)
    → ParsesExec ts c
    → ParsesPipe ts c × ParsesBack ts c × ParsesLine ts c
plain-Parsed ts c e =
    let p = exec-ParsesPipe ts c e in
    let b = pipe-ParsesBack ts c p in (p, b, back-ParsesLine ts c b)

cmd-Parsed : (c : Cmd) → IsCmd c → Parsed c
cmd-Parsed (exec argv) (v, few) =
    let e = words-ParsesExec argv v few in
    let (p, b, l) = plain-Parsed (tokens simple (exec argv)) (exec argv) e in
    record { simply = e; in_pipe = p; in_back = b; in_line = l }
cmd-Parsed (redir cmd file mode fd) (v, (w, k)) =
    let inner = cmd-Parsed cmd v in
    let e = redir-ParsesExec (tokens simple cmd) cmd file mode fd w k (inner.simply) in
    let (p, b, l) =
      plain-Parsed (tokens simple (redir cmd file mode fd)) (redir cmd file mode fd) e in
    record { simply = e; in_pipe = p; in_back = b; in_line = l }
cmd-Parsed (pipe left right) (v, w) =
    let first = cmd-Parsed left v in
    let second = cmd-Parsed right w in
    let p =
      pipe-ParsesPipe (tokens simple left) (tokens piped right) left right (first.simply)
        (second.in_pipe) in
    let b = pipe-ParsesBack (tokens piped (pipe left right)) (pipe left right) p in
    let l = back-ParsesLine (tokens background (pipe left right)) (pipe left right) b in
    record {
      simply = block-ParsesExec (tokens sequence (pipe left right)) (pipe left right) l;
      in_pipe = p;
      in_back = b;
      in_line = l;
    }
cmd-Parsed (back cmd) v =
    let inner = cmd-Parsed cmd v in
    let b = back-ParsesBack (tokens background cmd) cmd (inner.in_back) in
    let l = back-ParsesLine (tokens background (back cmd)) (back cmd) b in
    let e = block-ParsesExec (tokens sequence (back cmd)) (back cmd) l in
    record {
      simply = e;
      in_pipe = exec-ParsesPipe (tokens simple (back cmd)) (back cmd) e;
      in_back = b;
      in_line = l;
    }
cmd-Parsed (list left right) (v, w) =
    let first = cmd-Parsed left v in
    let second = cmd-Parsed right w in
    let l =
      list-ParsesLine (tokens background left) (tokens sequence right) left right (first.in_back)
        (second.in_line) in
    let e = block-ParsesExec (tokens sequence (list left right)) (list left right) l in
    let (p, b, again) = plain-Parsed (tokens simple (list left right)) (list left right) e in
    record { simply = e; in_pipe = p; in_back = b; in_line = l }

length-render : (ts : List Token) → length ts ≤ length (render ts)
length-render [] = omega arith
length-render (t ∷ ts) = omega (arith, length-append (chars t) (32 ∷ render ts), length-render ts)

-- `parsecmd` reads a command back from its tokens, each followed by a space, with parentheses where
-- the grammar needs them: for any command of pipes, lists, background commands, the three
-- redirections, and fewer than 10 arguments whose characters are neither white space nor symbols. The rounds
-- that `parsecmd` starts with are enough.
pub parsecmd-tokens : (c : Cmd) → IsCmd c → parsecmd (render (tokens sequence c)) ≡ ok c
unfolding parsecmd
parsecmd-tokens c v =
    let (vt, h) = (cmd-Parsed c v).in_line in
    let ts : List Token = tokens sequence c in
    let flat : ts ≡ ts ++ [] = append_nil ts in
    let enough : length (ts ++ []) < length (render ts) + 1 =
      omega (arith, length-render ts, length-append ts []) in
    let e = h (length (render ts) + 1) [] tt refl enough in
    let e' =
      subst (λ us. parseline (length (render ts) + 1) (render us) ≡ ok (c, [])) (sym flat) e in
    rw (e', peek-render [] [] tt (λ d p. refl)) refl
