-- ===== src/Shell/Lexer/RoundTrip.antt =====
-- `lex_line` reads every well-formed line as the tokens that it was written from.
use osn_mp.Common.{
  ℕ, List, [], ◌∷◌, ◌++◌, append-nil, append_assoc, Bool, true, false, ◌||◌, some, ◌≡◌, ◌≢◌, inl,
  inr, refl, sym, ◌∙◌, ap, ◌==◌, arith, All, Bool-cases,
}
use osn_mp.Shell.Lexer.{
  Token, word, gt, Lexer, Mode, plain, single, double, backslash, single_quote, double_quote, flush,
  round, scan, finish, lex_line,
}
use osn_mp.Shell.Lexer.Scan.{
  scan-one, scan-two, round-escape, round-space, round-bare, round-in_double, round-open_single,
  round-open_double, scan-flush,
}
use osn_mp.Shell.Lexer.Spelling.{
  Piece, bare, escaped, quoted, double_quoted, in_double, spell_piece, meaning, IsPiece, spell_word,
  word_meaning, Operator, bar, ampersand, semicolon, less, greater, append, glyph, operator_token,
  op, text, Line, spell_item, spell, item_token, line_tokens, sticks, IsBlank, IsLine,
}

-- The states between two characters of a word and between two words.
abbrev inside : Mode → List ℕ → List Token → Lexer
inside m b ts = record { mode = m; buffer = b; content = true; tokens = ts }

abbrev between : List Token → Lexer
between ts = record { mode = plain; buffer = []; content = false; tokens = ts }

snoc_append : (b : List ℕ) (c : ℕ) (w : List ℕ) → (b ++ c ∷ []) ++ w ≡ b ++ c ∷ w
snoc_append b c w = append_assoc b (c ∷ []) w

scan-quoted :
    (b : List ℕ) (ts : List Token) (w rest : List ℕ)
    → All (λ c. (c == single_quote) ≡ false) w
    → scan (inside single b ts) (w ++ single_quote ∷ rest) ≡ scan (inside plain (b ++ w) ts) rest
unfolding round
scan-quoted b ts [] rest h =
    rw append-nil (scan-one _ (inside plain b ts) single_quote rest (ground arith))
scan-quoted b ts (c ∷ w) rest h =
    scan-one _ (inside single (b ++ c ∷ []) ts) c (w ++ single_quote ∷ rest) (ground arith)
    ∙ scan-quoted (b ++ c ∷ []) ts w rest h.1
    ∙ ap (λ v. scan (inside plain v ts) rest) (snoc_append b c w)

scan-in_double :
    (b : List ℕ) (ts : List Token) (w rest : List ℕ)
    → scan (inside double b ts) (in_double w ++ double_quote ∷ rest)
      ≡ scan (inside plain (b ++ w) ts) rest
unfolding round in_double
scan-in_double b ts [] rest =
    rw append-nil (scan-one _ (inside plain b ts) double_quote rest (ground arith))
scan-in_double b ts (c ∷ w) rest = elim (Bool-cases (c == double_quote || c == backslash)) [
  | inl e ↦ rw e (
      scan-two _ (inside double (b ++ c ∷ []) ts) backslash c _ (ground arith)
      ∙ scan-in_double (b ++ c ∷ []) ts w rest
      ∙ ap (λ v. scan (inside plain v ts) rest) (snoc_append b c w))
  | inr e ↦ rw e (
      scan-one _ (inside double (b ++ c ∷ []) ts) c _ (round-in_double c _ _ refl e)
      ∙ scan-in_double (b ++ c ∷ []) ts w rest
      ∙ ap (λ v. scan (inside plain v ts) rest) (snoc_append b c w))
]

scan-piece :
    (p : Piece) (k : Bool) (b : List ℕ) (ts : List Token) (rest : List ℕ)
    → IsPiece p
    → scan (record { mode = plain; buffer = b; content = k; tokens = ts }) (spell_piece p rest)
      ≡ scan (inside plain (b ++ meaning p) ts) rest
unfolding spell_piece
scan-piece (bare c) k b ts rest h = scan-one _ _ c rest (round-bare c _ _ refl h)
scan-piece (escaped c) k b ts rest h = scan-two _ _ backslash c rest (round-escape c _ refl)
scan-piece (quoted s) k b ts rest h =
    scan-one _ (inside single b ts) single_quote _ (round-open_single _ _ refl)
    ∙ scan-quoted b ts s rest h
scan-piece (double_quoted s) k b ts rest h =
    scan-one _ (inside double b ts) double_quote _ (round-open_double _ _ refl)
    ∙ scan-in_double b ts s rest

scan-word :
    (ps : List Piece) (b : List ℕ) (ts : List Token) (rest : List ℕ)
    → All IsPiece ps
    → scan (inside plain b ts) (spell_word ps rest)
      ≡ scan (inside plain (b ++ word_meaning ps) ts) rest
unfolding spell_word word_meaning
scan-word [] b ts rest h = rw append-nil
scan-word (p ∷ ps) b ts rest h =
    scan-piece p true b ts (spell_word ps rest) h.0
    ∙ scan-word ps (b ++ meaning p) ts rest h.1
    ∙ ap (λ v. scan (inside plain v ts) rest) (append_assoc b (meaning p) (word_meaning ps))

scan-blanks :
    (bl : List ℕ) (ts : List Token) (rest : List ℕ)
    → IsBlank bl
    → scan (between ts) (bl ++ rest) ≡ scan (between ts) rest
scan-blanks [] ts rest h = refl
scan-blanks (c ∷ bl) ts rest h =
    scan-one _ _ c (bl ++ rest) (round-space c _ (between ts) refl h.0) ∙ scan-blanks bl ts rest h.1

-- Whether the line goes on with `>`.
abbrev starts_gt : List ℕ → Bool
starts_gt [] = false
starts_gt (c ∷ rest) = c == b'>'

abbrev glues : Operator → List ℕ → Bool
glues greater rest = starts_gt rest
glues _ rest = false

scan-operator :
    (o : Operator) (ts : List Token) (rest : List ℕ)
    → glues o rest ≡ false
    → scan (between ts) (glyph o rest) ≡ scan (between (ts ++ operator_token o ∷ [])) rest
unfolding round
scan-operator bar ts rest h = scan-one _ _ b'|' rest refl
scan-operator ampersand ts rest h = scan-one _ _ b'&' rest refl
scan-operator semicolon ts rest h = scan-one _ _ b';' rest refl
scan-operator less ts rest h = scan-one _ _ b'<' rest refl
scan-operator greater ts [] h = scan-one _ _ b'>' [] refl
scan-operator greater ts (c ∷ rest) h = scan-one _ (between (ts ++ gt ∷ [])) b'>' (c ∷ rest) (rw h)
scan-operator append ts rest h = scan-two _ _ b'>' b'>' rest refl

starts_gt-spell :
    (bl : List ℕ) (line : Line)
    → IsBlank bl
    → (sticks (op greater) line ≡ true → bl ≢ [])
    → IsLine line
    → starts_gt (bl ++ spell line) ≡ false
unfolding spell spell_item
starts_gt-spell (c ∷ bl) line h k v = ground (arith, h.0)
starts_gt-spell [] [] h k v = refl
starts_gt-spell [] ((op bar, b) ∷ line) h k v = refl
starts_gt-spell [] ((op ampersand, b) ∷ line) h k v = refl
starts_gt-spell [] ((op semicolon, b) ∷ line) h k v = refl
starts_gt-spell [] ((op less, b) ∷ line) h k v = refl
starts_gt-spell [] ((op greater, b) ∷ line) h k v = absurd (k refl refl)
starts_gt-spell [] ((op append, b) ∷ line) h k v = absurd (k refl refl)
starts_gt-spell [] ((text (bare c) ps, b) ∷ line) h k v = ground (arith, v.0.0)
starts_gt-spell [] ((text (escaped c) ps, b) ∷ line) h k v = refl
starts_gt-spell [] ((text (quoted s) ps, b) ∷ line) h k v = refl
starts_gt-spell [] ((text (double_quoted s) ps, b) ∷ line) h k v = refl

scan-flush-glyph :
    (o : Operator) (s : Lexer) (rest : List ℕ)
    → s.mode ≡ plain
    → scan s (glyph o rest) ≡ scan (flush s) (glyph o rest)
scan-flush-glyph bar s rest h = scan-flush s b'|' rest h refl
scan-flush-glyph ampersand s rest h = scan-flush s b'&' rest h refl
scan-flush-glyph semicolon s rest h = scan-flush s b';' rest h refl
scan-flush-glyph less s rest h = scan-flush s b'<' rest h refl
scan-flush-glyph greater s rest h = scan-flush s b'>' rest h refl
scan-flush-glyph append s rest h = scan-flush s b'>' (b'>' ∷ rest) h refl

-- A word ends where blanks, an operator or the end of the line follow.
finish-word :
    (w bl : List ℕ) (p : Piece) (ps : List Piece) (ts : List Token) (line : Line)
    → IsBlank bl
    → (sticks (text p ps) line ≡ true → bl ≢ [])
    → finish (scan (inside plain w ts) (bl ++ spell line))
      ≡ finish (scan (between (ts ++ word w ∷ [])) (bl ++ spell line))
unfolding finish scan spell spell_item
finish-word w (c ∷ bl) p ps ts line h k =
    ap finish (to_blank ∙ sym (scan-blanks (c ∷ bl) _ (spell line) h))
  where
    to_blank :
        scan (inside plain w ts) (c ∷ bl ++ spell line)
        ≡ scan (between (ts ++ word w ∷ [])) (spell line)
    to_blank =
        scan-one _ _ c (bl ++ spell line) (round-space c _ (inside plain w ts) refl h.0)
        ∙ scan-blanks bl _ (spell line) h.1
finish-word w [] p ps ts [] h k = refl
finish-word w [] p ps ts ((op o, b) ∷ line) h k =
    ap finish (scan-flush-glyph o (inside plain w ts) (b ++ spell line) refl)
finish-word w [] p ps ts ((text q qs, b) ∷ line) h k = absurd (k refl refl)

glues-spell :
    (o : Operator) (bl : List ℕ) (line : Line)
    → IsBlank bl
    → (sticks (op o) line ≡ true → bl ≢ [])
    → IsLine line
    → glues o (bl ++ spell line) ≡ false
glues-spell greater bl line h k v = starts_gt-spell bl line h k v
glues-spell _ bl line h k v = refl

scan-line :
    (line : Line) (ts : List Token)
    → IsLine line
    → finish (scan (between ts) (spell line)) ≡ some (ts ++ line_tokens line)
unfolding spell spell_item spell_word item_token line_tokens
scan-line [] ts v = unfold finish scan in rw append-nil
scan-line ((op o, bl) ∷ line) ts (v, hb, hs, vs) =
    ap finish
      (scan-operator o ts _ (glues-spell o bl line hb hs vs) ∙ scan-blanks bl _ (spell line) hb)
    ∙ scan-line line (ts ++ operator_token o ∷ []) vs
    ∙ ap some (append_assoc ts (operator_token o ∷ []) (line_tokens line))
scan-line ((text p ps, bl) ∷ line) ts (v, hb, hs, vs) =
    ap finish (scan-piece p false [] ts _ v.0 ∙ scan-word ps (meaning p) ts _ v.1)
    ∙ finish-word (meaning p ++ word_meaning ps) bl p ps ts line hb hs
    ∙ ap finish (scan-blanks bl _ (spell line) hb)
    ∙ scan-line line (ts ++ word (meaning p ++ word_meaning ps) ∷ []) vs
    ∙ ap some (append_assoc ts (word (meaning p ++ word_meaning ps) ∷ []) (line_tokens line))

-- A line written from words and operators, in any mixture of bare, escaped, single-quoted and
-- double-quoted pieces, with any blanks in front and between as long as two items that would run
-- together are kept apart, is cut by `lex_line` into exactly the tokens of those items.
pub lex_line-spell :
    (blanks : List ℕ) (line : Line)
    → IsBlank blanks
    → IsLine line
    → lex_line (blanks ++ spell line) ≡ some (line_tokens line)
unfolding lex_line
lex_line-spell blanks line h v =
    ap finish (scan-blanks blanks [] (spell line) h) ∙ scan-line line [] v
