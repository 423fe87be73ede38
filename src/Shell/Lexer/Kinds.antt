-- ===== src/Shell/Lexer/Kinds.antt =====
-- The kinds of token that `lex_line` produces: never the last three of `tokentype`.
use osn_mp.Common.{
  subst, ℕ, List, [], ◌∷◌, ◌++◌, Option, none, some, ◌≡◌, inl, inr, refl, All, All-append, arith,
  Bool-cases,
}
use osn_mp.Shell.Lexer.{
  Token, Mode, plain, single, double, Lexer, finish_in, Round, one, two, invalid, word, pipe, amp,
  semi, lt, gt, gtgt, flush, emit, round, scan, finish, start, lex_line,
}

abbrev pub IsLexed : Token → Type 0
IsLexed Token.fragment = ⊥
IsLexed Token.dq = ⊥
IsLexed Token.sq = ⊥
IsLexed _ = Unit

All-IsLexed-snoc :
    (ts : List Token) (t : Token) → All IsLexed ts → IsLexed t → All IsLexed (ts ++ t ∷ [])
All-IsLexed-snoc ts t h k = All-append IsLexed ts (t ∷ []) h (k, tt)

abbrev Clean : Lexer → Type 0
Clean s = All IsLexed s.tokens

abbrev KeepsClean : Round → Type 0
KeepsClean (one t) = Clean t
KeepsClean (two t) = Clean t
KeepsClean invalid = Unit

Clean-flush : (s : Lexer) → Clean s → Clean (flush s)
Clean-flush s h = elim (Bool-cases s.content) [
  | inl e ↦ rw e (All-IsLexed-snoc s.tokens (word s.buffer) h tt)
  | inr e ↦ rw e h
]

Clean-emit : (t : Token) (s : Lexer) → IsLexed t → Clean s → Clean (emit t (flush s))
Clean-emit t s k h = All-IsLexed-snoc (flush s).tokens t (Clean-flush s h) k

round-Clean : (c : ℕ) (next : Option ℕ) (s : Lexer) → Clean s → KeepsClean (round c next s)
unfolding round
round-Clean c none s h = ground (
  arith,
  Clean-flush s h,
  Clean-emit pipe s tt h,
  Clean-emit amp s tt h,
  Clean-emit semi s tt h,
  Clean-emit lt s tt h,
  Clean-emit gt s tt h,
)
round-Clean c (some d) s h = ground (
  arith,
  Clean-flush s h,
  Clean-emit pipe s tt h,
  Clean-emit amp s tt h,
  Clean-emit semi s tt h,
  Clean-emit lt s tt h,
  Clean-emit gt s tt h,
  Clean-emit gtgt s tt h,
)

Clean-next :
    (t : Lexer) (d : ℕ) (rest : List ℕ) (r : Round)
    → KeepsClean r
    → ((u : Lexer) → Clean u → scan u (d ∷ rest) ≡ some t → Clean t)
    → ((u : Lexer) → Clean u → scan u rest ≡ some t → Clean t)
    → (elim r [ one u ↦ scan u (d ∷ rest) | two u ↦ scan u rest | invalid ↦ none ]) ≡ some t
    → Clean t
Clean-next t d rest (one u) g f₁ f₂ h = f₁ u g h
Clean-next t d rest (two u) g f₁ f₂ h = f₂ u g h
Clean-next t d rest invalid g f₁ f₂ h = cc

Clean-last :
    (t : Lexer) (r : Round)
    → KeepsClean r
    → (elim r [ one u ↦ some u | two u ↦ some u | invalid ↦ none ]) ≡ some t
    → Clean t
Clean-last t (one u) g h = let e : u ≡ t = cc in subst Clean e g
Clean-last t (two u) g h = let e : u ≡ t = cc in subst Clean e g
Clean-last t invalid g h = cc

scan-Clean : (input : List ℕ) (s t : Lexer) → Clean s → scan s input ≡ some t → Clean t
unfolding scan
scan-Clean [] s t k h = let e : s ≡ t = cc in subst Clean e k
scan-Clean (c ∷ []) s t k h = Clean-last t (round c none s) (round-Clean c none s k) h
scan-Clean (c ∷ d ∷ rest) s t k h =
    Clean-next t d rest (round c (some d) s) (round-Clean c (some d) s k)
      (λ u. scan-Clean (d ∷ rest) u t) (λ u. scan-Clean rest u t) h

finish-Clean : (s : Lexer) (ts : List Token) → Clean s → finish (some s) ≡ some ts → All IsLexed ts
unfolding finish
finish-Clean s ts k h = of_mode s.mode h
  where
    of_mode : (m : Mode) → finish_in m s ≡ some ts → All IsLexed ts
    of_mode plain e =
        let e' : (flush s).tokens ≡ ts = cc in subst (All IsLexed) e' (Clean-flush s k)
    of_mode single e = cc
    of_mode double e = cc

pub lex_line-IsLexed :
    (input : List ℕ) (ts : List Token) → lex_line input ≡ some ts → All IsLexed ts
unfolding lex_line
lex_line-IsLexed input ts h = of_end (scan start input) refl h
  where
    of_end : (o : Option Lexer) → scan start input ≡ o → finish o ≡ some ts → All IsLexed ts
    of_end none e k = unfold finish in cc
    of_end (some s) e k = finish-Clean s ts (scan-Clean input start s tt e) k
