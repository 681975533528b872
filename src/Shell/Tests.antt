-- ===== src/Shell/Tests.antt =====
-- `(echo a; b) | grep x > f &`
use xv.Prelude.{◌⊎◌, ℕ, ◌≡◌, refl, [], ◌∷◌, arith}
use xv.Panic.{ok, panic}
use xv.Shell.{Text, Cmd, exec, redir, pipe, list, back, parsecmd}
use xv.Shell.Lexer.{render}
use xv.Shell.Redirs.{plain, output}
use xv.Shell.Print.{sequence, tokens, IsCmd}
use Prim.Native.String.{String}
use xv.Shell.Lengths.{IsSyntaxError}
use xv.Shell.Termination.{parsecmd-ends}
use xv.Shell.Roundtrip.{parsecmd-tokens}

abbrev word_of : ℕ → Text
word_of c = c ∷ 98 ∷ []

abbrev command : Cmd
command = back (
    pipe (list (exec (word_of 97 ∷ word_of 99 ∷ [])) (exec (word_of 100 ∷ [])))
      (redir (exec (word_of 101 ∷ [])) (word_of 102) 1537 1))

command-IsCmd : IsCmd command
command-IsCmd = (
  (
    ((plain 97 _ (refl, (refl, tt)), (plain 99 _ (refl, (refl, tt)), tt)), omega arith),
    ((plain 100 _ (refl, (refl, tt)), tt), omega arith),
  ),
  (((plain 101 _ (refl, (refl, tt)), tt), omega arith), (plain 102 _ (refl, (refl, tt)), output)),
)

parsecmd-tokens_example : parsecmd (render (tokens sequence command)) ≡ ok command
parsecmd-tokens_example = parsecmd-tokens command command-IsCmd

-- `a | (b`
parsecmd-ends_example :
    ((cmd : Cmd) × (parsecmd (97 ∷ 124 ∷ 40 ∷ 98 ∷ []) ≡ ok cmd))
    ⊎ ((e : String) × (parsecmd (97 ∷ 124 ∷ 40 ∷ 98 ∷ []) ≡ panic e) × IsSyntaxError e)
parsecmd-ends_example = parsecmd-ends (97 ∷ 124 ∷ 40 ∷ 98 ∷ [])
