-- ===== src/Shell/Lexer.antt =====
-- c-shell/src/lexer.c, function `maketoken`: a line of input is cut into tokens by an automaton.
-- The line is the bytes before the terminating NUL. `word[0..index)` is the list `buffer`, and
-- `tokens[0..*tok_count)` is the list `tokens`. The `value` of an operator token is not written by
-- the code, so operators carry none. A write behind `word[1024]` or behind the caller's `tokens[256]`
-- ends the model of the run, with `out_of_bounds`.
pub mod Scan
pub mod Kinds
pub mod Spelling
pub mod RoundTrip
pub mod Bounds
pub mod Room
use osn_mp.Common.{
  ℕ, List, [], ◌∷◌, ◌++◌, Bool, true, false, ◌&&◌, ◌||◌, ltb, leb, length, Option, none, some, ◌==◌,
  if◌then◌else◌,
}

-- `tokentype`; the members `token_fragment`, `token_dq` and `token_sq` are produced nowhere.
pub data Token : Type 0 where
  pipe amp semi lt gt gtgt : Token
  fragment dq sq : Token
  word : List ℕ → Token

-- The variable `state`: outside quotes (0), in single quotes (1), in double quotes (2).
pub data Mode : Type 0 where
  plain single double : Mode

pub record Lexer : Type 0 where
  pub mode : Mode
  pub buffer : List ℕ
  pub content : Bool
  pub tokens : List Token

-- What one round of the loop does with the character `c`, seeing `input[i + 1]`: it takes one
-- character, it takes two (`i++` in the body), or the function returns 0.
pub data Round : Type 0 where
  one two : Lexer → Round
  invalid : Round

abbrev pub backslash : ℕ
backslash = 92

abbrev pub single_quote : ℕ
single_quote = 39

abbrev pub double_quote : ℕ
double_quote = 34

abbrev pub is_space : ℕ → Bool
is_space c = c == 10 || c == 9 || c == 32 || c == 13

abbrev pub is_operator : ℕ → Bool
is_operator c = c == b'|' || c == b'&' || c == b';' || c == b'<' || c == b'>'

-- `word[index++] = c; content = 1;`
abbrev pub push_char : ℕ → Lexer → Lexer
push_char c s = record s { buffer = s.buffer ++ c ∷ []; content = true }

-- `if(content){ ... }`: the pending word becomes a token.
abbrev pub flush : Lexer → Lexer
flush s =
    if s.content
    then record s { tokens = s.tokens ++ word s.buffer ∷ []; buffer = []; content = false }
    else s

abbrev pub emit : Token → Lexer → Lexer
emit t s = record s { tokens = s.tokens ++ t ∷ [] }

abbrev is_gt : Option ℕ → Bool
is_gt none = false
is_gt (some d) = d == b'>'

-- The operator branch, after the pending word was flushed.
abbrev operator : ℕ → Option ℕ → Lexer → Round
operator c next s =
    if c == b'>'
    then (if is_gt next then two (emit gtgt s) else one (emit gt s))
    else if c == b'<'
    then one (emit lt s)
    else if c == b'|'
    then one (emit pipe s)
    else if c == b'&'
    then one (emit amp s)
    else one (emit semi s)

abbrev escape : Option ℕ → Lexer → Round
escape none s = invalid
escape (some d) s = two (push_char d s)

round_plain : ℕ → Option ℕ → Lexer → Round
round_plain c next s =
    if c == backslash
    then escape next s
    else if c == single_quote
    then one (record s { mode = single; content = true })
    else if c == double_quote
    then one (record s { mode = double; content = true })
    else if is_space c
    then one (flush s)
    else if is_operator c
    then operator c next (flush s)
    else one (push_char c s)

round_single : ℕ → Lexer → Round
round_single c s =
    if c == single_quote then one (record s { mode = plain }) else one (push_char c s)

-- In double quotes a backslash escapes a double quote and a backslash only.
abbrev escaped_in_double : ℕ → Option ℕ → Option ℕ
escaped_in_double c none = none
escaped_in_double c (some d) =
    if c == backslash then (if d == double_quote || d == backslash then some d else none) else none

abbrev double_plain : ℕ → Lexer → Round
double_plain c s =
    if c == double_quote then one (record s { mode = plain }) else one (push_char c s)

round_double : ℕ → Option ℕ → Lexer → Round
round_double c next s = elim (escaped_in_double c next) [
  | some d ↦ two (push_char d s)
  | none ↦ double_plain c s
]

abbrev round_in : Mode → ℕ → Option ℕ → Lexer → Round
round_in plain c next s = round_plain c next s
round_in single c next s = round_single c s
round_in double c next s = round_double c next s

pub round : ℕ → Option ℕ → Lexer → Round
unfolding round_plain round_single round_double
round c next s = round_in s.mode c next s

-- The `for` loop; the result is the state at the end of the line, or `none` for `return 0`.
pub scan : Lexer → List ℕ → Option Lexer
unfolding round
scan s [] = some s
scan s (c ∷ []) = elim (round c none s) [ one t ↦ some t | two t ↦ some t | invalid ↦ none ]
scan s (c ∷ d ∷ rest) = elim (round c (some d) s) [
  | one t ↦ scan t (d ∷ rest)
  | two t ↦ scan t rest
  | invalid ↦ none
]

abbrev pub start : Lexer
start = record { mode = plain; buffer = []; content = false; tokens = [] }

-- After the loop: the last word, then the test that no quote is open.
abbrev finish_in : Mode → Lexer → Option (List Token)
finish_in plain s = some (flush s).tokens
finish_in single s = none
finish_in double s = none

pub finish : Option Lexer → Option (List Token)
finish none = none
finish (some s) = finish_in s.mode s

-- What the automaton makes of a line while `word` and `tokens` have room: the tokens if it returns 1,
-- `none` if it prints "invalid syntax" and returns 0.
unfoldable pub lex_line : List ℕ → Option (List Token)
unfolding scan finish
lex_line input = finish (scan start input)

-- `char word[1024]`, and `maxtok` of c-shell/src/main.c.
abbrev pub word_size : ℕ
word_size = 1024

abbrev pub max_tokens : ℕ
max_tokens = 256

-- `word[index] = '\0'` is a write to `word` too.
abbrev pub fits_token : Token → Bool
fits_token (word w) = ltb (length w) word_size
fits_token _ = true

pub all_fit : List Token → Bool
all_fit [] = true
all_fit (t ∷ ts) = fits_token t && all_fit ts

-- Whether `word[index++]`, `word[index]` and `tokens[(*tok_count)++]` stayed inside on the way to a state.
abbrev pub in_bounds : Lexer → Bool
in_bounds s =
    leb (length s.buffer) word_size && leb (length s.tokens) max_tokens && all_fit s.tokens

-- Whether that holds of the whole loop and of the last word.
pub run_in_bounds : Lexer → List ℕ → Bool
unfolding round all_fit
run_in_bounds s [] = in_bounds (flush s)
run_in_bounds s (c ∷ []) = elim (round c none s) [
  | one t ↦ in_bounds t && in_bounds (flush t)
  | two t ↦ in_bounds t && in_bounds (flush t)
  | invalid ↦ true
]
run_in_bounds s (c ∷ d ∷ rest) = elim (round c (some d) s) [
  | one t ↦ in_bounds t && run_in_bounds t (d ∷ rest)
  | two t ↦ in_bounds t && run_in_bounds t rest
  | invalid ↦ true
]

-- `return 0`, `return 1` with the tokens, or a write behind an array, of which nothing is known.
pub data Lexed : Type 0 where
  rejected : Lexed
  accepted : List Token → Lexed
  out_of_bounds : Lexed

abbrev pub returned : Option (List Token) → Lexed
returned none = rejected
returned (some ts) = accepted ts

unfoldable pub maketoken : List ℕ → Lexed
unfolding lex_line run_in_bounds
maketoken input = if run_in_bounds start input then returned (lex_line input) else out_of_bounds
