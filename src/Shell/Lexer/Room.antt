-- ===== src/Shell/Lexer/Room.antt =====
-- Lines for which `word[1024]` and the caller's `tokens[256]` have room.
use mathlib.Core.Option.{some-injective}
use osn_mp.Common.{
  ℕ, ◌+◌, ◌≤◌, ◌<◌, List, [], ◌∷◌, ◌++◌, Bool, true, ◌&&◌, ◌||◌, ltb, leb, ◌==◌, Option, none, some,
  ◌≡◌, refl, sym, arith, ap, ◌∙◌, if◌then◌else◌, length, length-append, All,
}
use osn_mp.Shell.Lexer.{
  Token, pipe, amp, semi, lt, gt, gtgt, fragment, dq, sq, word, Lexer, Mode, Round, one, two,
  invalid, plain, single, double, push_char, flush, emit, round, scan, finish, start, lex_line,
  word_size, max_tokens, fits_token, all_fit, in_bounds, run_in_bounds, accepted, maketoken,
}
use osn_mp.Shell.Lexer.Spelling.{Line, spell, line_tokens, IsBlank, IsLine}
use osn_mp.Shell.Lexer.RoundTrip.{lex_line-spell}

all_fit-snoc : (ts : List Token) (t : Token) → all_fit (ts ++ t ∷ []) ≡ (all_fit ts && fits_token t)
unfolding all_fit
all_fit-snoc [] t = ground arith
all_fit-snoc (u ∷ ts) t = ground (arith, all_fit-snoc ts t)

length-snoc {ℓ} : {A : Type ℓ} (xs : List A) (x : A) → length (xs ++ x ∷ []) ≡ length xs + 1
length-snoc xs x = omega (arith, length-append xs (x ∷ []))

-- A state whose pending word and tokens have room, the NUL included.
has_room : Lexer → Bool
has_room s =
    leb (length s.tokens + (if s.content then 1 else 0)) max_tokens
    && ltb (length s.buffer) word_size
    && all_fit s.tokens

-- What has room behind a round had room before it.
abbrev HadRoom : Lexer → Round → Type 0
HadRoom s (one t) = has_room t ≡ true → has_room s ≡ true
HadRoom s (two t) = has_room t ≡ true → has_room s ≡ true
HadRoom s invalid = Unit

had_room-push : (c : ℕ) (s : Lexer) → has_room (push_char c s) ≡ true → has_room s ≡ true
unfolding has_room
had_room-push c s h = ground (arith, length-snoc s.buffer c)

-- No text is pending where no word is.
abbrev is_clean : Lexer → Bool
is_clean s = s.content || length s.buffer == 0

had_room-flush : (s : Lexer) → is_clean s ≡ true → has_room (flush s) ≡ true → has_room s ≡ true
unfolding has_room
had_room-flush s k h =
    ground (arith, all_fit-snoc s.tokens (word s.buffer), length-snoc s.tokens (word s.buffer))

had_room-emit : (t : Token) (s : Lexer) → has_room (emit t s) ≡ true → has_room s ≡ true
unfolding has_room
had_room-emit t s h = ground (arith, all_fit-snoc s.tokens t, length-snoc s.tokens t)

had_room-mode :
    (m : Mode) (s : Lexer)
    → has_room (record s { mode = m; content = true }) ≡ true
    → has_room s ≡ true
unfolding has_room
had_room-mode m s h = ground arith

had_room-close : (s : Lexer) → has_room (record s { mode = plain }) ≡ true → has_room s ≡ true
unfolding has_room
had_room-close s h = h

had_room-operator :
    (t : Token) (s : Lexer)
    → is_clean s ≡ true
    → has_room (emit t (flush s)) ≡ true
    → has_room s ≡ true
had_room-operator t s k h = had_room-flush s k (had_room-emit t (flush s) h)

round-HadRoom :
    (c : ℕ) (next : Option ℕ) (s : Lexer) → is_clean s ≡ true → HadRoom s (round c next s)
unfolding round
round-HadRoom c none s k = ground (
  arith,
  had_room-push c s,
  had_room-flush s k,
  had_room-operator pipe s k,
  had_room-operator amp s k,
  had_room-operator semi s k,
  had_room-operator lt s k,
  had_room-operator gt s k,
  had_room-mode single s,
  had_room-mode double s,
  had_room-close s,
)
round-HadRoom c (some d) s k = ground (
  arith,
  had_room-push c s,
  had_room-push d s,
  had_room-flush s k,
  had_room-operator pipe s k,
  had_room-operator amp s k,
  had_room-operator semi s k,
  had_room-operator lt s k,
  had_room-operator gt s k,
  had_room-operator gtgt s k,
  had_room-mode single s,
  had_room-mode double s,
  had_room-close s,
)

abbrev StaysClean : Round → Type 0
StaysClean (one t) = is_clean t ≡ true
StaysClean (two t) = is_clean t ≡ true
StaysClean invalid = Unit

round-StaysClean :
    (c : ℕ) (next : Option ℕ) (s : Lexer) → is_clean s ≡ true → StaysClean (round c next s)
unfolding round
round-StaysClean c none s k = ground arith
round-StaysClean c (some d) s k = ground arith

has_room-in_bounds : (s : Lexer) → has_room s ≡ true → in_bounds s ≡ true
unfolding has_room
has_room-in_bounds s h = ground arith

flush-in_bounds : (s : Lexer) → has_room s ≡ true → in_bounds (flush s) ≡ true
unfolding has_room
flush-in_bounds s h =
    ground (arith, all_fit-snoc s.tokens (word s.buffer), length-snoc s.tokens (word s.buffer))

-- Nothing is written out of bounds from `s` on, and `s` has room.
abbrev RunFits : Lexer → List ℕ → Type 0
RunFits s input = (run_in_bounds s input ≡ true) × (has_room s ≡ true)

room-of_end :
    (s t : Lexer)
    → some s ≡ some t
    → is_clean s ≡ true
    → (is_clean t ≡ true → has_room t ≡ true)
    → has_room s ≡ true
room-of_end s t h c k = let e = some-injective s t h in ap has_room e ∙ k (sym (ap is_clean e) ∙ c)

end-RunFits :
    (s t : Lexer) (r : Round)
    → HadRoom s r
    → StaysClean r
    → (elim r [ one u ↦ some u | two u ↦ some u | invalid ↦ none ]) ≡ some t
    → (is_clean t ≡ true → has_room t ≡ true)
    → ((elim r [
      | one u ↦ in_bounds u && in_bounds (flush u)
      | two u ↦ in_bounds u && in_bounds (flush u)
      | invalid ↦ true
    ])
        ≡ true)
      × (has_room s ≡ true)
end-RunFits s t (one u) g c h k =
    let room = room-of_end u t h c k in
    (rw (has_room-in_bounds u room, flush-in_bounds u room), g room)
end-RunFits s t (two u) g c h k =
    let room = room-of_end u t h c k in
    (rw (has_room-in_bounds u room, flush-in_bounds u room), g room)
end-RunFits s t invalid g c h k = cc

next-RunFits :
    (s t : Lexer) (d : ℕ) (rest : List ℕ) (r : Round)
    → HadRoom s r
    → StaysClean r
    → ((u : Lexer) → scan u (d ∷ rest) ≡ some t → is_clean u ≡ true → RunFits u (d ∷ rest))
    → ((u : Lexer) → scan u rest ≡ some t → is_clean u ≡ true → RunFits u rest)
    → (elim r [ one u ↦ scan u (d ∷ rest) | two u ↦ scan u rest | invalid ↦ none ]) ≡ some t
    → ((elim r [
      | one u ↦ in_bounds u && run_in_bounds u (d ∷ rest)
      | two u ↦ in_bounds u && run_in_bounds u rest
      | invalid ↦ true
    ])
        ≡ true)
      × (has_room s ≡ true)
next-RunFits s t d rest (one u) g c f₁ f₂ h =
    let (fits, room) = f₁ u h c in (rw (has_room-in_bounds u room, fits), g room)
next-RunFits s t d rest (two u) g c f₁ f₂ h =
    let (fits, room) = f₂ u h c in (rw (has_room-in_bounds u room, fits), g room)
next-RunFits s t d rest invalid g c f₁ f₂ h = cc

scan-RunFits :
    (input : List ℕ) (s t : Lexer)
    → scan s input ≡ some t
    → is_clean s ≡ true
    → (is_clean t ≡ true → has_room t ≡ true)
    → RunFits s input
unfolding scan run_in_bounds
scan-RunFits [] s t h k e = let room = room-of_end s t h k e in (flush-in_bounds s room, room)
scan-RunFits (c ∷ []) s t h k e =
    end-RunFits s t (round c none s) (round-HadRoom c none s k) (round-StaysClean c none s k) h e
scan-RunFits (c ∷ d ∷ rest) s t h k e =
    next-RunFits s t d rest (round c (some d) s) (round-HadRoom c (some d) s k)
      (round-StaysClean c (some d) s k) (λ u p q. scan-RunFits (d ∷ rest) u t p q e)
      (λ u p q. scan-RunFits rest u t p q e) h

-- The end state of an accepted line has room if its tokens do.
finish-has_room :
    (s : Lexer) (ts : List Token)
    → finish (some s) ≡ some ts
    → is_clean s ≡ true
    → length ts ≤ max_tokens
    → all_fit ts ≡ true
    → has_room s ≡ true
unfolding finish has_room
finish-has_room s ts h k l f =
    ground (arith, all_fit-snoc s.tokens (word s.buffer), length-snoc s.tokens (word s.buffer))

-- If the tokens of an accepted line fit, nothing was written out of bounds.
maketoken-accepted :
    (input : List ℕ) (ts : List Token)
    → lex_line input ≡ some ts
    → length ts ≤ max_tokens
    → all_fit ts ≡ true
    → maketoken input ≡ accepted ts
unfolding maketoken lex_line
maketoken-accepted input ts h l f = of_end (scan start input) refl
  where
    of_end : (o : Option Lexer) → scan start input ≡ o → maketoken input ≡ accepted ts
    of_end none e = unfold finish in cc
    of_end (some t) e = rw (
      (scan-RunFits input start t e refl
          (λ c. finish-has_room t ts (sym (ap finish e) ∙ h) c l f)).0,
      h,
    )

-- A token with room in `word[1024]`, the NUL behind a word included.
abbrev pub FitsWord : Token → Type 0
FitsWord (word w) = length w < 1024
FitsWord _ = Unit

all_fit-FitsWord : (ts : List Token) → All FitsWord ts → all_fit ts ≡ true
unfolding all_fit
all_fit-FitsWord [] h = refl
all_fit-FitsWord (word w ∷ ts) h = ground (arith, h.0, all_fit-FitsWord ts h.1)
all_fit-FitsWord (pipe ∷ ts) h = all_fit-FitsWord ts h.1
all_fit-FitsWord (amp ∷ ts) h = all_fit-FitsWord ts h.1
all_fit-FitsWord (semi ∷ ts) h = all_fit-FitsWord ts h.1
all_fit-FitsWord (lt ∷ ts) h = all_fit-FitsWord ts h.1
all_fit-FitsWord (gt ∷ ts) h = all_fit-FitsWord ts h.1
all_fit-FitsWord (gtgt ∷ ts) h = all_fit-FitsWord ts h.1
all_fit-FitsWord (fragment ∷ ts) h = all_fit-FitsWord ts h.1
all_fit-FitsWord (dq ∷ ts) h = all_fit-FitsWord ts h.1
all_fit-FitsWord (sq ∷ ts) h = all_fit-FitsWord ts h.1

-- A line written from words and operators, in any mixture of bare, escaped, single-quoted and
-- double-quoted pieces, with any blanks in front and between as long as two items that would run
-- together are kept apart, is accepted by `maketoken` with exactly the tokens of those items, and
-- nothing is written behind `word[1024]` and `tokens[256]`, provided that these are at most 256
-- and each word is shorter than 1024 bytes.
pub maketoken-spell :
    (blanks : List ℕ) (line : Line)
    → IsBlank blanks
    → IsLine line
    → length (line_tokens line) ≤ 256
    → All FitsWord (line_tokens line)
    → maketoken (blanks ++ spell line) ≡ accepted (line_tokens line)
maketoken-spell blanks line b v l f =
    maketoken-accepted (blanks ++ spell line) (line_tokens line) (lex_line-spell blanks line b v) l
      (all_fit-FitsWord (line_tokens line) f)
