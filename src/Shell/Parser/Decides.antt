-- ===== src/Shell/Parser/Decides.antt =====
-- `parsing` accepts the empty line and the lines of the grammar, and no other.
use osn_mp.Common.{
  ℕ, List, [], ◌∷◌, Bool, true, false, ◌≡◌, ◌⊎◌, inl, inr, ◌↔◌, refl, ap, All, sym, subst,
}
use osn_mp.Shell.Lexer.{Token, pipe, amp, semi, lt, gt, gtgt, fragment, dq, sq, word}
use osn_mp.Shell.Lexer.Kinds.{IsLexed}
use osn_mp.Shell.Parser.{State, begin, inside, file, background, run, parsing}
use osn_mp.Shell.Parser.Grammar.{
  Redirection, input, output, appending, Part, argument, redirect, Command, Separator, piped,
  sequenced, parallel, CommandLine, redirection_token, separator_token, part_tokens, more_tokens,
  tokens,
}

run-part_tokens :
    (ps : List Part) (rest : List Token) → run inside (part_tokens ps rest) ≡ run inside rest
unfolding run part_tokens
run-part_tokens [] rest = refl
run-part_tokens (argument w ∷ ps) rest = run-part_tokens ps rest
run-part_tokens (redirect input w ∷ ps) rest = run-part_tokens ps rest
run-part_tokens (redirect output w ∷ ps) rest = run-part_tokens ps rest
run-part_tokens (redirect appending w ∷ ps) rest = run-part_tokens ps rest

run-more_tokens :
    (more : List (Separator × Command)) (b : Bool) → run inside (more_tokens more b) ≡ true
unfolding run more_tokens
run-more_tokens [] false = refl
run-more_tokens [] true = refl
run-more_tokens ((piped, c) ∷ more) b = rw run-part_tokens (run-more_tokens more b)
run-more_tokens ((sequenced, c) ∷ more) b = rw run-part_tokens (run-more_tokens more b)
run-more_tokens ((parallel, c) ∷ more) b = rw run-part_tokens (run-more_tokens more b)

pub parsing-tokens : (l : CommandLine) → parsing (tokens l) ≡ true
unfolding parsing tokens
parsing-tokens l = rw run-part_tokens (run-more_tokens l.more l.in_background)

-- What is left of a line, inside a command.
record Tail (ts : List Token) : Type 0 where
  parts : List Part
  more : List (Separator × Command)
  end : Bool
  spelled : part_tokens parts (more_tokens more end) ≡ ts

-- The same where a command has to begin.
record Whole (ts : List Token) : Type 0 where
  line : CommandLine
  spelled : tokens line ≡ ts

to_Whole : (w : List ℕ) (ts : List Token) → Tail ts → Whole (word w ∷ ts)
unfolding tokens
to_Whole w ts t = record {
  line = record {
    first = record { name = w; parts = t.parts };
    more = t.more;
    in_background = t.end;
  };
  spelled = ap (λ (r : List Token). word w ∷ r) t.spelled;
}

add_part : (p : Part) (ts : List Token) → Tail ts → Tail (part_tokens (p ∷ []) ts)
unfolding part_tokens
add_part (argument w) ts t = record {
  parts = argument w ∷ t.parts;
  more = t.more;
  end = t.end;
  spelled = ap (λ (r : List Token). word w ∷ r) t.spelled;
}
add_part (redirect d w) ts t = record {
  parts = redirect d w ∷ t.parts;
  more = t.more;
  end = t.end;
  spelled = ap (part_tokens (redirect d w ∷ [])) t.spelled;
}

add_argument : (w : List ℕ) (ts : List Token) → Tail ts → Tail (word w ∷ ts)
unfolding part_tokens
add_argument w ts t = add_part (argument w) ts t

join : (s : Separator) (ts : List Token) → Whole ts → Tail (separator_token s ∷ ts)
unfolding tokens part_tokens more_tokens
join s ts w = record {
  parts = [];
  more = (s, w.line.first) ∷ w.line.more;
  end = w.line.in_background;
  spelled = ap (λ (r : List Token). separator_token s ∷ r) w.spelled;
}

no-Tail : Tail []
unfolding part_tokens more_tokens
no-Tail = record { parts = []; more = []; end = false; spelled = refl }

amp-Tail : Tail (amp ∷ [])
unfolding part_tokens more_tokens
amp-Tail = record { parts = []; more = []; end = true; spelled = refl }

-- A file name and what follows it.
record Target (ts : List Token) : Type 0 where
  target : List ℕ
  rest : List Token
  here : word target ∷ rest ≡ ts
  tail : Tail rest

-- What the grammar has from each state on.
abbrev Found : State → List Token → Type 0
Found begin ts = Whole ts
Found inside ts = Tail ts
Found file ts = Target ts
Found background ts = (ts ≡ []) ⊎ Whole ts

add_redirect : (d : Redirection) (ts : List Token) → Target ts → Tail (redirection_token d ∷ ts)
unfolding part_tokens
add_redirect d ts t =
    subst (λ r. Tail (redirection_token d ∷ r)) t.here
      (add_part (redirect d t.target) t.rest t.tail)

behind_amp : (ts : List Token) → Found background ts → Tail (amp ∷ ts)
behind_amp ts (inl e) = subst (λ r. Tail (amp ∷ r)) (sym e) amp-Tail
behind_amp ts (inr w) = join parallel ts w

found : (s : State) (ts : List Token) → All IsLexed ts → run s ts ≡ true → Found s ts
unfolding run
found begin [] v h = cc
found inside [] v h = no-Tail
found file [] v h = cc
found background [] v h = inl refl
found begin (word w ∷ ts) v h = to_Whole w ts (found inside ts v.1 h)
found inside (word w ∷ ts) v h = add_argument w ts (found inside ts v.1 h)
found file (word w ∷ ts) v h = record {
  target = w;
  rest = ts;
  here = refl;
  tail = found inside ts v.1 h;
}
found background (word w ∷ ts) v h = inr (to_Whole w ts (found inside ts v.1 h))
found inside (lt ∷ ts) v h = add_redirect input ts (found file ts v.1 h)
found inside (gt ∷ ts) v h = add_redirect output ts (found file ts v.1 h)
found inside (gtgt ∷ ts) v h = add_redirect appending ts (found file ts v.1 h)
found inside (pipe ∷ ts) v h = join piped ts (found begin ts v.1 h)
found inside (semi ∷ ts) v h = join sequenced ts (found begin ts v.1 h)
found inside (amp ∷ ts) v h = behind_amp ts (found background ts v.1 h)
found inside (fragment ∷ ts) v h = absurd v.0
found inside (dq ∷ ts) v h = absurd v.0
found inside (sq ∷ ts) v h = absurd v.0
found _ (_ ∷ ts) v h = cc

-- On tokens of the kinds that the lexer produces, `parsing` returns 1 exactly when there are none
-- or they are the tokens of a command line of the grammar.
pub parsing_iff :
    (ts : List Token)
    → All IsLexed ts
    → (parsing ts ≡ true) ↔ ((ts ≡ []) ⊎ ((l : CommandLine) × (tokens l ≡ ts)))
parsing_iff ts v = (to ts v, from)
  where
    to :
        (us : List Token)
        → All IsLexed us
        → parsing us ≡ true
        → (us ≡ []) ⊎ ((l : CommandLine) × (tokens l ≡ us))
    to [] k h = inl refl
    to (u ∷ us) k h =
        let w = found begin (u ∷ us) k (unfold parsing in h) in inr (w.line, w.spelled)

    from : (ts ≡ []) ⊎ ((l : CommandLine) × (tokens l ≡ ts)) → parsing ts ≡ true
    from (inl e) = rw e (unfold parsing in refl)
    from (inr (l, e)) = rw (← e) (parsing-tokens l)
