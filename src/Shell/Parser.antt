-- ===== src/Shell/Parser.antt =====
-- c-shell/src/parser.c, function `parsing`: the tokens of a line are checked by an automaton.
pub mod Grammar
pub mod Decides
use osn_mp.Common.{List, [], ◌∷◌, Bool, true, false, Option, none, some}
use osn_mp.Shell.Lexer.{Token, pipe, amp, semi, lt, gt, gtgt, fragment, dq, sq, word}

-- The variable `state`: a command has to begin (0), inside a command (1), a file name has to
-- follow (2), behind `&` (3).
pub data State : Type 0 where
  begin inside file background : State

-- One round of the loop; `none` is `return 0` after "invalid syntax".
pub step : State → Token → Option State
step begin (word w) = some inside
step begin _ = none
step inside (word w) = some inside
step inside lt = some file
step inside gt = some file
step inside gtgt = some file
step inside pipe = some begin
step inside semi = some begin
step inside amp = some background
step inside _ = some inside
step file (word w) = some inside
step file _ = none
step background (word w) = some inside
step background _ = none

-- The tests behind the loop.
abbrev pub accepts : State → Bool
accepts begin = false
accepts file = false
accepts _ = true

pub run : State → List Token → Bool
unfolding step
run s [] = accepts s
run s (t ∷ ts) = elim (step s t) [ none ↦ false | some s' ↦ run s' ts ]

-- `true` is the return value 1.
unfoldable pub parsing : List Token → Bool
unfolding run
parsing [] = true
parsing (t ∷ ts) = run begin (t ∷ ts)
