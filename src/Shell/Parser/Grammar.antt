-- ===== src/Shell/Parser/Grammar.antt =====
-- The grammar of command lines, with no automaton: commands of a name, arguments and redirections,
-- joined by `|`, `;` or `&`, with an optional `&` at the end. c-shell/src/parser.c decides it.
use osn_mp.Common.{ℕ, List, [], ◌∷◌, Bool, true, false}
use osn_mp.Shell.Lexer.{Token, pipe, amp, semi, lt, gt, gtgt, word}

pub data Redirection : Type 0 where
  input output appending : Redirection

pub data Part : Type 0 where
  argument : List ℕ → Part
  redirect : Redirection → List ℕ → Part

pub record Command : Type 0 where
  pub name : List ℕ
  pub parts : List Part

pub data Separator : Type 0 where
  piped sequenced parallel : Separator

-- The first command, those that follow with what joins them, and whether `&` stands at the end.
pub record CommandLine : Type 0 where
  pub first : Command
  pub more : List (Separator × Command)
  pub in_background : Bool

abbrev pub redirection_token : Redirection → Token
redirection_token input = lt
redirection_token output = gt
redirection_token appending = gtgt

abbrev pub separator_token : Separator → Token
separator_token piped = pipe
separator_token sequenced = semi
separator_token parallel = amp

-- The tokens of the parts, followed by the tokens `rest`.
unfoldable pub part_tokens : List Part → List Token → List Token
part_tokens [] rest = rest
part_tokens (argument w ∷ ps) rest = word w ∷ part_tokens ps rest
part_tokens (redirect r w ∷ ps) rest = redirection_token r ∷ word w ∷ part_tokens ps rest

abbrev pub command_tokens : Command → List Token → List Token
command_tokens c rest = word c.name ∷ part_tokens c.parts rest

unfoldable pub more_tokens : List (Separator × Command) → Bool → List Token
more_tokens [] false = []
more_tokens [] true = amp ∷ []
more_tokens ((s, c) ∷ more) b = separator_token s ∷ command_tokens c (more_tokens more b)

unfoldable pub tokens : CommandLine → List Token
unfolding part_tokens more_tokens
tokens l = command_tokens l.first (more_tokens l.more l.in_background)
