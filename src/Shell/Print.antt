-- ===== src/Shell/Print.antt =====
-- Commands written as tokens, with parentheses where the grammar of the parser needs them.
use xv.Prelude.{◌<◌, List, [], ◌∷◌, ◌++◌, All, length}
use xv.Shell.{Cmd, exec, redir, pipe, list, back, maxargs}
use xv.Shell.Lexer.{Token, sym}
use xv.Shell.Redirs.{IsWord, IsRedir, word_tokens, word_token, redir_token}

-- What may stand where a command is written.
pub data Level : Type 0 where
  simple : Level
  piped : Level
  background : Level
  sequence : Level

abbrev pub paren : List Token → List Token
paren ts = sym 40 ∷ (ts ++ (sym 41 ∷ []))

abbrev pub tokens : Level → Cmd → List Token
tokens level (exec argv) = word_tokens argv
tokens level (redir cmd file mode fd) =
    tokens simple cmd ++ (redir_token mode fd ∷ word_token file ∷ [])
tokens simple (pipe l r) = paren (tokens simple l ++ (sym 124 ∷ tokens piped r))
tokens piped (pipe l r) = tokens simple l ++ (sym 124 ∷ tokens piped r)
tokens background (pipe l r) = tokens simple l ++ (sym 124 ∷ tokens piped r)
tokens sequence (pipe l r) = tokens simple l ++ (sym 124 ∷ tokens piped r)
tokens simple (back cmd) = paren (tokens background cmd ++ (sym 38 ∷ []))
tokens piped (back cmd) = paren (tokens background cmd ++ (sym 38 ∷ []))
tokens background (back cmd) = tokens background cmd ++ (sym 38 ∷ [])
tokens sequence (back cmd) = tokens background cmd ++ (sym 38 ∷ [])
tokens simple (list l r) = paren (tokens background l ++ (sym 59 ∷ tokens sequence r))
tokens piped (list l r) = paren (tokens background l ++ (sym 59 ∷ tokens sequence r))
tokens background (list l r) = paren (tokens background l ++ (sym 59 ∷ tokens sequence r))
tokens sequence (list l r) = tokens background l ++ (sym 59 ∷ tokens sequence r)

-- Fewer than `MAXARGS` words, all of plain characters, and redirections that the shell has.
abbrev pub IsCmd : Cmd → Type 0
IsCmd (exec argv) = All IsWord argv × (length argv < maxargs)
IsCmd (redir cmd file mode fd) = IsCmd cmd × (IsWord file × IsRedir mode fd)
IsCmd (pipe l r) = IsCmd l × IsCmd r
IsCmd (list l r) = IsCmd l × IsCmd r
IsCmd (back cmd) = IsCmd cmd
