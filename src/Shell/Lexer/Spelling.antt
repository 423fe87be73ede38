-- ===== src/Shell/Lexer/Spelling.antt =====
-- How a command line is written, apart from any automaton: a word is a sequence of pieces, each
-- bare, escaped or quoted, and a line is a sequence of words and operators with blanks between
-- them. This is the grammar that c-shell/src/lexer.c is checked against.
use osn_mp.Common.{
  ℕ, List, [], ◌∷◌, ◌++◌, Bool, true, false, ◌||◌, ◌≡◌, ◌≢◌, ◌==◌, if◌then◌else◌, All,
}
use osn_mp.Shell.Lexer.{
  Token, pipe, amp, semi, lt, gt, gtgt, word, backslash, single_quote, double_quote, is_space,
}
use osn_mp.Shell.Lexer.Scan.{is_special}

pub data Piece : Type 0 where
  bare escaped : ℕ → Piece
  quoted double_quoted : List ℕ → Piece

-- A piece between two double quotes, with `"` and `\` escaped.
unfoldable pub in_double : List ℕ → List ℕ
in_double [] = []
in_double (c ∷ s) =
    if c == double_quote || c == backslash then backslash ∷ c ∷ in_double s else c ∷ in_double s

unfoldable pub spell_piece : Piece → List ℕ → List ℕ
unfolding in_double
spell_piece (bare c) rest = c ∷ rest
spell_piece (escaped c) rest = backslash ∷ c ∷ rest
spell_piece (quoted s) rest = single_quote ∷ s ++ single_quote ∷ rest
spell_piece (double_quoted s) rest = double_quote ∷ in_double s ++ double_quote ∷ rest

abbrev pub meaning : Piece → List ℕ
meaning (bare c) = c ∷ []
meaning (escaped c) = c ∷ []
meaning (quoted s) = s
meaning (double_quoted s) = s

abbrev pub IsPiece : Piece → Type 0
IsPiece (bare c) = is_special c ≡ false
IsPiece (escaped c) = Unit
IsPiece (quoted s) = All (λ c. (c == single_quote) ≡ false) s
IsPiece (double_quoted s) = Unit

unfoldable pub spell_word : List Piece → List ℕ → List ℕ
unfolding spell_piece
spell_word [] rest = rest
spell_word (p ∷ ps) rest = spell_piece p (spell_word ps rest)

unfoldable pub word_meaning : List Piece → List ℕ
word_meaning [] = []
word_meaning (p ∷ ps) = meaning p ++ word_meaning ps

pub data Operator : Type 0 where
  bar ampersand semicolon less greater append : Operator

abbrev pub glyph : Operator → List ℕ → List ℕ
glyph bar rest = b'|' ∷ rest
glyph ampersand rest = b'&' ∷ rest
glyph semicolon rest = b';' ∷ rest
glyph less rest = b'<' ∷ rest
glyph greater rest = b'>' ∷ rest
glyph append rest = b'>' ∷ b'>' ∷ rest

abbrev pub operator_token : Operator → Token
operator_token bar = pipe
operator_token ampersand = amp
operator_token semicolon = semi
operator_token less = lt
operator_token greater = gt
operator_token append = gtgt

-- A word has a first piece, so it is not empty on the line (its meaning may be: `''`).
pub data Item : Type 0 where
  op : Operator → Item
  text : Piece → List Piece → Item

-- An item and the blanks written behind it.
abbrev pub Line : Type 0
Line = List (Item × List ℕ)

unfoldable pub spell_item : Item → List ℕ → List ℕ
unfolding spell_word
spell_item (op o) rest = glyph o rest
spell_item (text p ps) rest = spell_word (p ∷ ps) rest

unfoldable pub spell : Line → List ℕ
unfolding spell_item
spell [] = []
spell ((i, blanks) ∷ line) = spell_item i (blanks ++ spell line)

unfoldable pub item_token : Item → Token
unfolding word_meaning
item_token (op o) = operator_token o
item_token (text p ps) = word (word_meaning (p ∷ ps))

unfoldable pub line_tokens : Line → List Token
unfolding item_token
line_tokens [] = []
line_tokens ((i, blanks) ∷ line) = item_token i ∷ line_tokens line

-- Whether the two items, written with nothing between them, would read as other tokens.
abbrev pub sticks : Item → Line → Bool
sticks i [] = false
sticks (text p ps) ((text q qs, b) ∷ line) = true
sticks (text p ps) ((op o, b) ∷ line) = false
sticks (op greater) ((op greater, b) ∷ line) = true
sticks (op greater) ((op append, b) ∷ line) = true
sticks (op o) (j ∷ line) = false

abbrev pub IsItem : Item → Type 0
IsItem (op o) = Unit
IsItem (text p ps) = All IsPiece (p ∷ ps)

abbrev pub IsBlank : List ℕ → Type 0
IsBlank = All (λ c. is_space c ≡ true)

-- Every piece is well formed, only blanks stand between items, and some do where they must.
abbrev pub IsLine : Line → Type 0
IsLine [] = Unit
IsLine ((i, blanks) ∷ line) =
    IsItem i × IsBlank blanks × (sticks i line ≡ true → blanks ≢ []) × IsLine line
