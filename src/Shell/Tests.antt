-- ===== src/Shell/Tests.antt =====
-- Lines through the lexer and the parser of c-shell/, and the theorems there.
use Prim.Native.Char.{code}
use Prim.Native.String.{String}
use osn_mp.Common.{
  ℕ, zero, suc, ◌≤◌, List, [], ◌∷◌, ◌++◌, true, false, ◌≡◌, ◌⊎◌, ◌↔◌, refl, arith, All, length,
}
use osn_mp.Shell.Lexer.{Token, word, pipe, gtgt, rejected, accepted, out_of_bounds, maketoken}
use osn_mp.Shell.Lexer.Spelling.{
  bare, escaped, quoted, double_quoted, op, text, Operator, Line, IsLine, spell, line_tokens,
}
use osn_mp.Shell.Lexer.Room.{FitsWord, maketoken-spell}
use osn_mp.Shell.Parser.{parsing}
use osn_mp.Shell.Parser.Grammar.{CommandLine, redirect, Redirection, piped, tokens}
use osn_mp.Shell.Parser.Decides.{parsing_iff}
use osn_mp.Shell.Front.{read_line}

abbrev codes : String → List ℕ
codes String.[] = []
codes (String.◌∷◌ c s) = code c ∷ codes s

-- `a\ b>>'c d'|e`
abbrev sample : Line
sample =
    (text (bare b'a') (escaped 32 ∷ bare b'b' ∷ []), [])
    ∷ (op Operator.append, [])
    ∷ (text (quoted (b'c' ∷ 32 ∷ b'd' ∷ [])) [], [])
    ∷ (op Operator.bar, 32 ∷ [])
    ∷ (text (double_quoted (b'e' ∷ [])) [], [])
    ∷ []

abbrev sample_tokens : List Token
sample_tokens = word (codes "a b") ∷ gtgt ∷ word (codes "c d") ∷ pipe ∷ word (codes "e") ∷ []

sample_spelled : spell sample ≡ codes "a\\ b>>'c d'| \"e\""
unfolding spell
sample_spelled = refl

sample_read : maketoken (codes "a\\ b>>'c d'| \"e\"") ≡ accepted sample_tokens
unfolding maketoken
sample_read = refl

unclosed : maketoken (codes "echo 'a") ≡ rejected
unfolding maketoken
unclosed = refl

ends_in_pipe : read_line (codes "ls |") ≡ rejected
unfolding read_line maketoken parsing
ends_in_pipe = refl

apart : {A : Type 0} → false ≡ true → A
apart h = cc

sample-IsLine : IsLine sample
sample-IsLine = (
  (refl, (tt, (refl, tt))),
  tt,
  apart,
  (
    tt,
    tt,
    apart,
    (
      ((refl, (refl, (refl, tt))), tt),
      tt,
      apart,
      (tt, (refl, tt), apart, ((tt, tt), tt, apart, tt)),
    ),
  ),
)

sample-FitsWord : All FitsWord (line_tokens sample)
unfolding line_tokens
sample-FitsWord = (omega arith, (tt, (omega arith, (tt, (omega arith, tt)))))

sample-short : length (line_tokens sample) ≤ 256
unfolding line_tokens
sample-short = omega arith

maketoken-spell_example : maketoken ([] ++ spell sample) ≡ accepted (line_tokens sample)
maketoken-spell_example = maketoken-spell [] sample tt sample-IsLine sample-short sample-FitsWord

-- The line `;;;…` of `n` semicolons.
abbrev semicolons : ℕ → List ℕ
semicolons zero = []
semicolons (suc n) = b';' ∷ semicolons n

too_many : maketoken (semicolons 257) ≡ out_of_bounds
unfolding maketoken
too_many = refl

-- `a\ b >> 'c d' | e`, as a command line of the grammar.
abbrev sample_command : CommandLine
sample_command = record {
  first = record { name = codes "a b"; parts = redirect Redirection.appending (codes "c d") ∷ [] };
  more = (piped, record { name = codes "e"; parts = [] }) ∷ [];
  in_background = false;
}

parsing_iff_example :
    (parsing sample_tokens ≡ true)
    ↔ ((sample_tokens ≡ []) ⊎ ((l : CommandLine) × (tokens l ≡ sample_tokens)))
parsing_iff_example = parsing_iff sample_tokens (tt, (tt, (tt, (tt, (tt, tt)))))
