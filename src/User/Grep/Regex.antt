-- ===== src/User/Grep/Regex.antt =====
-- What the expressions of grep mean, with no search in it, and how they are written.
use osn_mp.Common.{ℕ, List, [], ◌∷◌, ◌++◌, Bool, true, ◌==◌, ◌≡◌, ◌≢◌, if◌then◌else◌}

-- Any byte, or one byte.
pub data Atom : Type 0 where
  any : Atom
  byte : ℕ → Atom

pub data Item : Type 0 where
  one : Atom → Item
  many : Atom → Item

-- `^items$`, with either anchor present or not.
pub record Regex : Type 0 where
  pub at_start : Bool
  pub items : List Item
  pub at_end : Bool

abbrev pub accepts : Atom → ℕ → Bool
accepts any t = true
accepts (byte c) t = c == t

-- The texts that items describe.
pub data Matches : List Item → List ℕ → Type 0 where
  empty : Matches [] []
  exactly :
      {a : Atom} {t : ℕ} {is : List Item} {ts : List ℕ}
      → accepts a t ≡ true
      → Matches is ts
      → Matches (one a ∷ is) (t ∷ ts)
  leave : {a : Atom} {is : List Item} {ts : List ℕ} → Matches is ts → Matches (many a ∷ is) ts
  more :
      {a : Atom} {t : ℕ} {is : List Item} {ts : List ℕ}
      → accepts a t ≡ true
      → Matches (many a ∷ is) ts
      → Matches (many a ∷ is) (t ∷ ts)

-- Some part of the text is described by the items: from its start, if there is an anchor `^`, and up
-- to its end, if there is an anchor `$`.
pub record Found (r : Regex) (text : List ℕ) : Type 0 where
  pub before : List ℕ
  pub middle : List ℕ
  pub behind : List ℕ
  pub whole : text ≡ before ++ (middle ++ behind)
  pub described : Matches r.items middle
  pub starts : r.at_start ≡ true → before ≡ []
  pub ends : r.at_end ≡ true → behind ≡ []

abbrev pub symbol : Atom → ℕ
symbol any = b'.'
symbol (byte c) = c

abbrev pub print_items : List Item → Bool → List ℕ
print_items [] at_end = if at_end then b'$' ∷ [] else []
print_items (one a ∷ is) at_end = symbol a ∷ print_items is at_end
print_items (many a ∷ is) at_end = symbol a ∷ b'*' ∷ print_items is at_end

abbrev pub print : Regex → List ℕ
print r = if r.at_start then b'^' ∷ print_items r.items r.at_end else print_items r.items r.at_end

-- The bytes that stand for themselves.
abbrev pub IsPlain : Atom → Type 0
IsPlain any = Unit
IsPlain (byte c) = (c ≢ b'.') × (c ≢ b'*') × (c ≢ b'^') × (c ≢ b'$')

abbrev pub IsPlainItem : Item → Type 0
IsPlainItem (one a) = IsPlain a
IsPlainItem (many a) = IsPlain a
