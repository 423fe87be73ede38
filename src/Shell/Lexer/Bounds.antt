-- ===== src/Shell/Lexer/Bounds.antt =====
-- How much `lex_line` writes: the sizes that `word[1024]` and the caller's `tokens[256]` need.
use Prim.Native.Nat.{max}
use osn_mp.Common.{
  ℕ, ◌+◌, ◌≤◌, List, [], ◌∷◌, ◌++◌, Bool, true, false, suc, Option, none, some, ◌≡◌, refl, arith,
  length, length-append, All,
}
use osn_mp.Shell.Lexer.{
  Token, pipe, amp, semi, lt, gt, gtgt, word, Lexer, Mode, Round, one, two, invalid, plain, single,
  double, push_char, flush, emit, round, scan, finish, start, lex_line,
}

-- The place that a token takes: at least 1, and for a word the length of its text.
abbrev pub weight : Token → ℕ
weight (word w) = max 1 (length w)
weight _ = 1

pub total : List Token → ℕ
total [] = 0
total (t ∷ ts) = weight t + total ts

total-append : (ts us : List Token) → total (ts ++ us) ≡ total ts + total us
unfolding total
total-append [] us = omega arith
total-append (t ∷ ts) us = omega (arith, total-append ts us)

total-snoc : (ts : List Token) (t : Token) → total (ts ++ t ∷ []) ≡ total ts + weight t
unfolding total
total-snoc ts t = omega (arith, total-append ts (t ∷ []))

length-snoc : (b : List ℕ) (c : ℕ) → length (b ++ c ∷ []) ≡ length b + 1
length-snoc b c = omega (arith, length-append b (c ∷ []))

abbrev pending : Bool → List ℕ → ℕ
pending true b = max 1 (length b)
pending false b = length b

-- What the tokens and the pending word take together.
size : Lexer → ℕ
size s = total s.tokens + pending s.content s.buffer

-- A round adds at most as much as it reads.
abbrev Grows : Lexer → Round → Type 0
Grows s (one t) = size t ≤ size s + 1
Grows s (two t) = size t ≤ size s + 2
Grows s invalid = Unit

Grows-push : (c : ℕ) (s : Lexer) → size (push_char c s) ≤ size s + 1
unfolding size
Grows-push c s = ground (arith, length-snoc s.buffer c)

Grows-flush : (s : Lexer) → size (flush s) ≤ size s
unfolding size
Grows-flush s = ground (arith, total-snoc s.tokens (word s.buffer))

Grows-emit : (t : Token) (s : Lexer) → weight t ≡ 1 → size (emit t s) ≤ size s + 1
unfolding size
Grows-emit t s h = ground (arith, total-snoc s.tokens t)

Grows-close : (s : Lexer) → size (record s { mode = plain }) ≤ size s + 1
unfolding size
Grows-close s = omega arith

Grows-mode : (s : Lexer) (m : Mode) → size (record s { mode = m; content = true }) ≤ size s + 1
unfolding size
Grows-mode s m = ground arith

-- Four lemmas for the branches that `round` shares between its modes.
Grows-operator : (t : Token) (s : Lexer) → weight t ≡ 1 → size (emit t (flush s)) ≤ size s + 1
Grows-operator t s h = omega (arith, Grows-emit t (flush s) h, Grows-flush s)

round-Grows : (c : ℕ) (next : Option ℕ) (s : Lexer) → Grows s (round c next s)
unfolding round
round-Grows c none s = ground (
  arith,
  Grows-push c s,
  Grows-flush s,
  Grows-operator pipe s refl,
  Grows-operator amp s refl,
  Grows-operator semi s refl,
  Grows-operator lt s refl,
  Grows-operator gt s refl,
  Grows-mode s single,
  Grows-mode s double,
  Grows-close s,
)
round-Grows c (some d) s = ground (
  arith,
  Grows-push c s,
  Grows-push d s,
  Grows-flush s,
  Grows-operator pipe s refl,
  Grows-operator amp s refl,
  Grows-operator semi s refl,
  Grows-operator lt s refl,
  Grows-operator gt s refl,
  Grows-operator gtgt s refl,
  Grows-mode s single,
  Grows-mode s double,
  Grows-close s,
)

-- The rest of the loop after a round, with what is known of it.
size-next :
    (s t : Lexer) (d : ℕ) (rest : List ℕ) (r : Round)
    → Grows s r
    → ((u : Lexer) → scan u (d ∷ rest) ≡ some t → size t ≤ size u + suc (length rest))
    → ((u : Lexer) → scan u rest ≡ some t → size t ≤ size u + length rest)
    → (elim r [ one u ↦ scan u (d ∷ rest) | two u ↦ scan u rest | invalid ↦ none ]) ≡ some t
    → size t ≤ size s + suc (suc (length rest))
size-next s t d rest (one u) g f₁ f₂ h = omega (arith, f₁ u h)
size-next s t d rest (two u) g f₁ f₂ h = omega (arith, f₂ u h)
size-next s t d rest invalid g f₁ f₂ h = cc

scan-size : (input : List ℕ) (s t : Lexer) → scan s input ≡ some t → size t ≤ size s + length input
unfolding scan
scan-size [] s t h = ground arith
scan-size (c ∷ []) s t h = ground (arith, round-Grows c none s)
scan-size (c ∷ d ∷ rest) s t h =
    size-next s t d rest (round c (some d) s) (round-Grows c (some d) s)
      (λ u. scan-size (d ∷ rest) u t) (λ u. scan-size rest u t) h

finish-size : (s : Lexer) (ts : List Token) → finish (some s) ≡ some ts → total ts ≤ size s
unfolding finish size
finish-size s ts h = ground (arith, total-snoc s.tokens (word s.buffer))

-- The tokens of a line take together no more than the line: a word of the length of its text, any
-- other token and an empty word one place.
pub total-lex_line :
    (input : List ℕ) (ts : List Token) → lex_line input ≡ some ts → total ts ≤ length input
unfolding lex_line
total-lex_line input ts h = of_end (scan start input) refl h
  where
    of_end :
        (o : Option Lexer) → scan start input ≡ o → finish o ≡ some ts → total ts ≤ length input
    of_end none e k = unfold finish in cc
    of_end (some s) e k =
        unfold size total in omega (arith, finish-size s ts k, scan-size input start s e)

length-le-total : (ts : List Token) → length ts ≤ total ts
unfolding total
length-le-total [] = omega arith
length-le-total (word w ∷ ts) = omega (arith, length-le-total ts)
length-le-total (t ∷ ts) = omega (arith, length-le-total ts)

All-le-total : (ts : List Token) (n : ℕ) → total ts ≤ n → All (λ t. weight t ≤ n) ts
unfolding total
All-le-total [] n h = tt
All-le-total (t ∷ ts) n h = (omega arith, All-le-total ts n (omega arith))

-- If `lex_line` accepts a line, it stores at most as many tokens as the line has bytes, and no
-- word longer than the line.
pub lex_line_bounds :
    (input : List ℕ) (ts : List Token)
    → lex_line input ≡ some ts
    → (length ts ≤ length input) × All (λ t. weight t ≤ length input) ts
lex_line_bounds input ts h = (
  omega (arith, total-lex_line input ts h, length-le-total ts),
  All-le-total ts (length input) (total-lex_line input ts h),
)
