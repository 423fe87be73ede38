-- ===== src/User/Grep/Finds.antt =====
-- `match` finds an expression exactly where its meaning says that it stands in the text.
use osn_mp.Common.{
  ℕ, List, [], ◌∷◌, ◌++◌, Bool, true, false, ◌==◌, ◌≡◌, ◌↔◌, inl, inr, refl, arith, ap, ◌∙◌, All,
  Bool-cases,
}
use osn_mp.User.Grep.{matchhere, match_from, match}
use osn_mp.User.Grep.Regex.{
  Atom, any, byte, Item, one, many, Regex, Found, symbol, print_items, print, IsPlain, IsPlainItem,
}
use osn_mp.User.Grep.Begins.{Begins, matchhere_iff, Begins→Matches, Begins-append}

-- The places where `match` looks.
record Somewhere (at_end : Bool) (is : List Item) (text : List ℕ) : Type 0 where
  before : List ℕ
  rest : List ℕ
  whole : text ≡ before ++ rest
  begins : Begins at_end is rest

module _ (is : List Item) (at_end : Bool) (plain : All IsPlainItem is) where
  here_iff :
      (text : List ℕ) → (matchhere (print_items is at_end) text ≡ true) ↔ Begins at_end is text
  here_iff text = matchhere_iff is at_end text plain

  match_from→Somewhere :
      (text : List ℕ) → match_from (print_items is at_end) text ≡ true → Somewhere at_end is text
  unfolding match_from
  match_from→Somewhere [] e = record {
    before = [];
    rest = [];
    whole = refl;
    begins = (here_iff []).0 e;
  }
  match_from→Somewhere (t ∷ ts) e = elim (Bool-cases (matchhere (print_items is at_end) (t ∷ ts))) [
    | inl h ↦ record { before = []; rest = t ∷ ts; whole = refl; begins = (here_iff (t ∷ ts)).0 h }
    | inr h ↦
        let found = match_from→Somewhere ts (rw h at e) in
        record {
          before = t ∷ found.before;
          rest = found.rest;
          whole = ap (λ l. t ∷ l) found.whole;
          begins = found.begins;
        }
  ]

  match_from-append :
      (before rest : List ℕ)
      → Begins at_end is rest
      → match_from (print_items is at_end) (before ++ rest) ≡ true
  unfolding match_from
  match_from-append [] [] b = (here_iff []).1 b
  match_from-append [] (t ∷ ts) b = rw ((here_iff (t ∷ ts)).1 b)
  match_from-append (t ∷ before) rest b = ground (arith, match_from-append before rest b)

  match_anchored :
      (text : List ℕ)
      → match (b'^' ∷ print_items is at_end) text ≡ matchhere (print_items is at_end) text
  unfolding match
  match_anchored text = refl

symbol-ne-start : (a : Atom) → IsPlain a → (symbol a == b'^') ≡ false
symbol-ne-start any h = refl
symbol-ne-start (byte c) h = ground arith

match_free :
    (is : List Item) (at_end : Bool) (text : List ℕ)
    → All IsPlainItem is
    → match (print_items is at_end) text ≡ match_from (print_items is at_end) text
unfolding match
match_free [] true text h = refl
match_free [] false text h = refl
match_free (one a ∷ is) at_end text h = rw (symbol-ne-start a h.0)
match_free (many a ∷ is) at_end text h = rw (symbol-ne-start a h.0)

-- Where each byte of the items stands for itself, `match` of the written expression returns 1
-- exactly if some part of the text is described by its items: from the start of the text if the
-- expression begins with `^`, and up to its end if it ends in `$`.
pub match_iff :
    (r : Regex) (text : List ℕ)
    → All IsPlainItem r.items
    → (match (print r) text ≡ true) ↔ Found r text
match_iff r text plain = elim (Bool-cases r.at_start) [
  | inl s ↦
      rw (s, match_anchored r.items r.at_end plain text)
        (
          λ e.
              let (middle, behind, w, m, z) =
                Begins→Matches ((here_iff r.items r.at_end plain text).0 e) in
              record {
                before = [];
                middle = middle;
                behind = behind;
                whole = w;
                described = m;
                starts = λ t. refl;
                ends = z;
              },
          λ f.
              (here_iff r.items r.at_end plain text).1
                (rw (f.whole, f.starts refl) (Begins-append r.at_end f.behind f.described f.ends)),
        )
  | inr s ↦
      rw (s, match_free r.items r.at_end text plain)
        (
          λ e.
              let found = match_from→Somewhere r.items r.at_end plain text e in
              let (middle, behind, w, m, z) = Begins→Matches found.begins in
              record {
                before = found.before;
                middle = middle;
                behind = behind;
                whole = found.whole ∙ ap (λ l. found.before ++ l) w;
                described = m;
                starts = λ t. cc;
                ends = z;
              },
          λ f. rw f.whole (
              match_from-append r.items r.at_end plain f.before (f.middle ++ f.behind)
                (Begins-append r.at_end f.behind f.described f.ends)),
        )
]
