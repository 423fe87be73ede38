-- ===== src/User/Grep/Begins.antt =====
-- `matchhere` of xv6/user/grep.c against the texts that an expression describes from their start.
use osn_mp.Common.{
  ℕ, List, [], ◌∷◌, ◌++◌, Bool, true, false, ◌||◌, ◌==◌, ◌≡◌, ◌⊎◌, ◌↔◌, inl, inr, refl, arith, ap,
  All, Bool-cases, if◌then◌else◌,
}
use osn_mp.User.Grep.{is_end, matchstar, matchone, matchhere}
use osn_mp.User.Grep.Regex.{
  Atom, any, byte, Item, one, many, accepts, Matches, empty, exactly, leave, more, symbol,
  print_items, IsPlain, IsPlainItem,
}

-- A text that begins with what the items describe, and is that if `at_end`.
pub data Begins (at_end : Bool) : List Item → List ℕ → Type 0 where
  here : {ts : List ℕ} → at_end ≡ false → Begins at_end [] ts
  stop : Begins at_end [] []
  take :
      {a : Atom} {t : ℕ} {is : List Item} {ts : List ℕ}
      → accepts a t ≡ true
      → Begins at_end is ts
      → Begins at_end (one a ∷ is) (t ∷ ts)
  skip :
      {a : Atom} {is : List Item} {ts : List ℕ}
      → Begins at_end is ts
      → Begins at_end (many a ∷ is) ts
  again :
      {a : Atom} {t : ℕ} {is : List Item} {ts : List ℕ}
      → accepts a t ≡ true
      → Begins at_end (many a ∷ is) ts
      → Begins at_end (many a ∷ is) (t ∷ ts)

-- The test of the code and the meaning of a symbol.
pub symbol-accepts :
    (a : Atom) (t : ℕ) → IsPlain a → (symbol a == b'.' || symbol a == t) ≡ accepts a t
symbol-accepts any t h = refl
symbol-accepts (byte c) t h = ground arith

pub symbol-accepts_star :
    (a : Atom) (t : ℕ) → IsPlain a → (t == symbol a || symbol a == b'.') ≡ accepts a t
symbol-accepts_star any t h = ground arith
symbol-accepts_star (byte c) t h = ground arith

pub symbol-ne-star : (a : Atom) → IsPlain a → (symbol a == b'*') ≡ false
symbol-ne-star any h = refl
symbol-ne-star (byte c) h = ground arith

pub symbol-ne-end : (a : Atom) → IsPlain a → (symbol a == b'$') ≡ false
symbol-ne-end any h = refl
symbol-ne-end (byte c) h = ground arith

-- Behind a symbol without a star the code goes on with what is left.
pub matchhere-one :
    (a : Atom) (is : List Item) (at_end : Bool) (text : List ℕ)
    → IsPlain a
    → All IsPlainItem is
    → matchhere (symbol a ∷ print_items is at_end) text
      ≡ matchone (matchhere (print_items is at_end)) (symbol a) text
unfolding matchhere
matchhere-one a [] true text h hs = refl
matchhere-one a [] false text h hs = rw (symbol-ne-end a h)
matchhere-one a (one b ∷ is) at_end text h hs = rw (symbol-ne-star b hs.0)
matchhere-one a (many b ∷ is) at_end text h hs = rw (symbol-ne-star b hs.0)

pub matchhere-many :
    (a : Atom) (is : List Item) (at_end : Bool) (text : List ℕ)
    → matchhere (symbol a ∷ b'*' ∷ print_items is at_end) text
      ≡ matchstar (matchhere (print_items is at_end)) (symbol a) text
unfolding matchhere
matchhere-many a is at_end text = refl

pub matchhere-none :
    (at_end : Bool) (text : List ℕ)
    → matchhere (print_items [] at_end) text ≡ (if at_end then is_end text else true)
unfolding matchhere
matchhere-none true text = refl
matchhere-none false text = refl

pub not-Begins-end : {t : ℕ} {ts : List ℕ} → ¬ Begins true [] (t ∷ ts)
not-Begins-end (here e) = cc

pub Begins-none :
    (at_end : Bool) (text : List ℕ)
    → ((if at_end then is_end text else true) ≡ true) ↔ Begins at_end [] text
Begins-none true [] = (λ e. stop, λ b. refl)
Begins-none true (t ∷ ts) = (λ e. cc, λ b. absurd (not-Begins-end b))
Begins-none false text = (λ e. here refl, λ b. refl)

module _ (at_end : Bool) (a : Atom) (is : List Item) where
  take_inv :
      {t : ℕ} {ts : List ℕ}
      → Begins at_end (one a ∷ is) (t ∷ ts)
      → (accepts a t ≡ true) × Begins at_end is ts
  take_inv (take e b) = (e, b)

  take_end : ¬ Begins at_end (one a ∷ is) []
  take_end b = elim b [ ]

  skip_end : Begins at_end (many a ∷ is) [] → Begins at_end is []
  skip_end (skip b) = b

  again_inv :
      {t : ℕ} {ts : List ℕ}
      → Begins at_end (many a ∷ is) (t ∷ ts)
      → Begins at_end is (t ∷ ts) ⊎ ((accepts a t ≡ true) × Begins at_end (many a ∷ is) ts)
  again_inv (skip b) = inl b
  again_inv (again e b) = inr (e, b)

  module _ (plain : IsPlain a) (next : List ℕ → Bool)
      (next_iff : (ts : List ℕ) → (next ts ≡ true) ↔ Begins at_end is ts) where
    matchone_iff :
        (text : List ℕ) → (matchone next (symbol a) text ≡ true) ↔ Begins at_end (one a ∷ is) text
    unfolding matchone
    matchone_iff [] = (λ e. cc, λ b. absurd (take_end b))
    matchone_iff (t ∷ ts) = rw (symbol-accepts a t plain) (elim (Bool-cases (accepts a t)) [
      | inl yes_t ↦
          rw yes_t (λ e. take yes_t ((next_iff ts).0 e), λ b. (next_iff ts).1 (take_inv b).1)
      | inr no_t ↦ rw no_t (λ e. cc, λ b. absurd (ground (arith, (take_inv b).0)))
    ])

    matchstar_iff :
        (text : List ℕ) → (matchstar next (symbol a) text ≡ true) ↔ Begins at_end (many a ∷ is) text
    unfolding matchstar
    matchstar_iff [] = (λ e. skip ((next_iff []).0 e), λ b. (next_iff []).1 (skip_end b))
    matchstar_iff (t ∷ ts) =
        let rest = matchstar_iff ts in
        rw (symbol-accepts_star a t plain) (elim (Bool-cases (next (t ∷ ts))) [
          | inl n ↦ rw n (λ e. skip ((next_iff (t ∷ ts)).0 n), λ b. refl)
          | inr n ↦ rw n (elim (Bool-cases (accepts a t)) [
            | inl yes_t ↦ rw yes_t (
              λ e. again yes_t (rest.0 e),
              λ b. elim (again_inv b) [
                | inl b' ↦ absurd (ground (arith, (next_iff (t ∷ ts)).1 b'))
                | inr (e, b') ↦ rest.1 b'
              ],
            )
            | inr no_t ↦ rw no_t (
              λ e. cc,
              λ b. elim (again_inv b) [
                | inl b' ↦ absurd (ground (arith, (next_iff (t ∷ ts)).1 b'))
                | inr (e, b') ↦ absurd (ground (arith, e))
              ],
            )
          ])
        ])

pub matchhere_iff :
    (is : List Item) (at_end : Bool) (text : List ℕ)
    → All IsPlainItem is
    → (matchhere (print_items is at_end) text ≡ true) ↔ Begins at_end is text
matchhere_iff [] at_end text h = rw matchhere-none (Begins-none at_end text)
matchhere_iff (one a ∷ is) at_end text (h, hs) = rw (matchhere-one a is at_end text h hs) (
    matchone_iff at_end a is h (matchhere (print_items is at_end))
      (λ ts. matchhere_iff is at_end ts hs) text)
matchhere_iff (many a ∷ is) at_end text (h, hs) = rw (matchhere-many a is at_end text) (
    matchstar_iff at_end a is h (matchhere (print_items is at_end))
      (λ ts. matchhere_iff is at_end ts hs) text)

-- The described part at the start of the text, and the rest.
pub Begins→Matches :
    {at_end : Bool} {is : List Item} {text : List ℕ}
    → Begins at_end is text
    → (middle : List ℕ) × (behind : List ℕ) × (text ≡ middle ++ behind)
      × Matches is middle
      × (at_end ≡ true → behind ≡ [])
Begins→Matches (here {ts = text} e) = ([], text, refl, empty, λ t. cc)
Begins→Matches stop = ([], [], refl, empty, λ t. refl)
Begins→Matches (take {t = t} e b) =
    let (middle, behind, w, m, z) = Begins→Matches b in
    (t ∷ middle, behind, ap (λ l. t ∷ l) w, exactly e m, z)
Begins→Matches (skip b) =
    let (middle, behind, w, m, z) = Begins→Matches b in (middle, behind, w, leave m, z)
Begins→Matches (again {t = t} e b) =
    let (middle, behind, w, m, z) = Begins→Matches b in
    (t ∷ middle, behind, ap (λ l. t ∷ l) w, more e m, z)

pub Begins-append :
    (at_end : Bool) {is : List Item} {middle : List ℕ} (behind : List ℕ)
    → Matches is middle
    → (at_end ≡ true → behind ≡ [])
    → Begins at_end is (middle ++ behind)
Begins-append true behind empty z = rw (z refl) stop
Begins-append false behind empty z = here refl
Begins-append at_end behind (exactly e m) z = take e (Begins-append at_end behind m z)
Begins-append at_end behind (leave m) z = skip (Begins-append at_end behind m z)
Begins-append at_end behind (more e m) z = again e (Begins-append at_end behind m z)
