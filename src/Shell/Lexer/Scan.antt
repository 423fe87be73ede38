-- ===== src/Shell/Lexer/Scan.antt =====
-- One round of the loop of `lex_line` at a time, and what each class of characters does.
use osn_mp.Common.{ℕ, List, [], ◌∷◌, Bool, true, false, ◌||◌, Option, none, some, ◌≡◌, ◌==◌, arith}
use osn_mp.Shell.Lexer.{
  Lexer, one, two, plain, single, double, backslash, single_quote, double_quote, is_space,
  is_operator, push_char, flush, round, scan,
}

abbrev pub head? : List ℕ → Option ℕ
head? [] = none
head? (c ∷ rest) = some c

pub scan-one :
    (s t : Lexer) (c : ℕ) (rest : List ℕ)
    → round c (head? rest) s ≡ one t
    → scan s (c ∷ rest) ≡ scan t rest
unfolding scan
scan-one s t c [] h = ground arith
scan-one s t c (d ∷ rest) h = ground arith

pub scan-two :
    (s t : Lexer) (c d : ℕ) (rest : List ℕ)
    → round c (some d) s ≡ two t
    → scan s (c ∷ d ∷ rest) ≡ scan t rest
unfolding scan
scan-two s t c d rest h = ground arith

pub round-escape :
    (d : ℕ) (s : Lexer) → s.mode ≡ plain → round backslash (some d) s ≡ two (push_char d s)
unfolding round
round-escape d s h = ground arith

pub round-space :
    (c : ℕ) (next : Option ℕ) (s : Lexer)
    → s.mode ≡ plain
    → is_space c ≡ true
    → round c next s ≡ one (flush s)
unfolding round
round-space c next s h k = ground arith

pub round-flush_of_operator :
    (c : ℕ) (next : Option ℕ) (s : Lexer)
    → s.mode ≡ plain
    → is_operator c ≡ true
    → round c next s ≡ round c next (flush s)
unfolding round
round-flush_of_operator c next s h k = ground arith

-- A character that means itself outside quotes.
abbrev pub is_special : ℕ → Bool
is_special c =
    c == backslash || c == single_quote || c == double_quote || is_space c || is_operator c

pub round-bare :
    (c : ℕ) (next : Option ℕ) (s : Lexer)
    → s.mode ≡ plain
    → is_special c ≡ false
    → round c next s ≡ one (push_char c s)
unfolding round
round-bare c next s h k = ground arith

pub round-in_double :
    (c : ℕ) (next : Option ℕ) (s : Lexer)
    → s.mode ≡ double
    → (c == double_quote || c == backslash) ≡ false
    → round c next s ≡ one (push_char c s)
unfolding round
round-in_double c none s h k = ground arith
round-in_double c (some d) s h k = ground arith

pub round-open_single :
    (next : Option ℕ) (s : Lexer)
    → s.mode ≡ plain
    → round single_quote next s ≡ one (record s { mode = single; content = true })
unfolding round
round-open_single next s h = ground arith

pub round-open_double :
    (next : Option ℕ) (s : Lexer)
    → s.mode ≡ plain
    → round double_quote next s ≡ one (record s { mode = double; content = true })
unfolding round
round-open_double next s h = ground arith

-- Before an operator it makes no difference whether the pending word was already flushed.
pub scan-flush :
    (s : Lexer) (c : ℕ) (rest : List ℕ)
    → s.mode ≡ plain
    → is_operator c ≡ true
    → scan s (c ∷ rest) ≡ scan (flush s) (c ∷ rest)
unfolding scan
scan-flush s c [] h k = rw (round-flush_of_operator c none s h k, scan)
scan-flush s c (d ∷ rest) h k = rw (round-flush_of_operator c (some d) s h k, scan)
