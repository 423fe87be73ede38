-- ===== src/Shell/Front/Accepted.antt =====
-- Which lines reach `run_cmd`, and with which tokens.
use osn_mp.Common.{
  ℕ, List, [], ◌∷◌, Bool, true, false, Option, none, some, ◌≡◌, ◌⊎◌, arith, if◌then◌else◌,
}
use osn_mp.Shell.Lexer.{
  Token, accepted, out_of_bounds, start, run_in_bounds, returned, lex_line, maketoken,
}
use osn_mp.Shell.Lexer.Kinds.{lex_line-IsLexed}
use osn_mp.Shell.Parser.{parsing}
use osn_mp.Shell.Parser.Grammar.{CommandLine, tokens}
use osn_mp.Shell.Parser.Decides.{parsing_iff}
use osn_mp.Shell.Front.{cut_newline, check, read_cut, read_line}

returned-eq-accepted :
    (b : Bool) (o : Option (List Token)) (ts : List Token)
    → (if b then returned o else out_of_bounds) ≡ accepted ts
    → o ≡ some ts
returned-eq-accepted true none ts h = cc
returned-eq-accepted true (some us) ts h = cc
returned-eq-accepted false o ts h = cc

-- What `maketoken` accepts, the automaton accepts.
maketoken-eq-accepted :
    (input : List ℕ) (ts : List Token) → maketoken input ≡ accepted ts → lex_line input ≡ some ts
unfolding maketoken lex_line
maketoken-eq-accepted input ts h =
    returned-eq-accepted (run_in_bounds start input) (lex_line input) ts h

read_cut-eq-accepted :
    (input : List ℕ) (ts : List Token)
    → read_cut input ≡ accepted ts
    → (maketoken input ≡ accepted ts) × (parsing ts ≡ true)
unfolding read_cut check
read_cut-eq-accepted [] ts h = cc
read_cut-eq-accepted (c ∷ rest) ts h = ground arith

-- What reaches `run_cmd` is either no token at all or the tokens of a command line of the grammar.
pub read_line_sound :
    (input : List ℕ) (ts : List Token)
    → read_line input ≡ accepted ts
    → (ts ≡ []) ⊎ ((l : CommandLine) × (tokens l ≡ ts))
unfolding read_line
read_line_sound input ts h =
    let (made, good) = read_cut-eq-accepted (cut_newline input) ts h in
    let lexed = maketoken-eq-accepted (cut_newline input) ts made in
    (parsing_iff ts (lex_line-IsLexed (cut_newline input) ts lexed)).0 good
