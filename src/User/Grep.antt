-- ===== src/User/Grep.antt =====
-- xv6/user/grep.c: `match`, `matchhere` and `matchstar`. A string is the bytes before its NUL, so
-- `*text == '\0'` is the test for the empty list.
pub mod Regex
pub mod Begins
pub mod Finds
mod Tests
use osn_mp.Common.{ℕ, List, [], ◌∷◌, Bool, true, false, ◌&&◌, ◌||◌, ◌==◌, if◌then◌else◌}

abbrev pub is_end : List ℕ → Bool
is_end [] = true
is_end (t ∷ ts) = false

-- The loop of `matchstar(c, re, text)`, with `here` for `matchhere(re, …)`.
unfoldable pub matchstar : (List ℕ → Bool) → ℕ → List ℕ → Bool
matchstar here c [] = here []
matchstar here c (t ∷ ts) =
    let rest = matchstar here c ts in
    if here (t ∷ ts) then true else if t == c || c == b'.' then rest else false

-- The last test of `matchhere`, with `here` for its call on `re + 1`.
unfoldable pub matchone : (List ℕ → Bool) → ℕ → List ℕ → Bool
matchone here c [] = false
matchone here c (t ∷ ts) = if c == b'.' || c == t then here ts else false

unfoldable pub matchhere : List ℕ → List ℕ → Bool
unfolding matchstar matchone
matchhere [] text = true
matchhere (c ∷ []) text = if c == b'$' then is_end text else matchone (matchhere []) c text
matchhere (c ∷ s ∷ re) text =
    if s == b'*' then matchstar (matchhere re) c text else matchone (matchhere (s ∷ re)) c text

-- The loop of `match` over the places where the expression may begin.
unfoldable pub match_from : List ℕ → List ℕ → Bool
match_from re [] = matchhere re []
match_from re (t ∷ ts) = let rest = match_from re ts in if matchhere re (t ∷ ts) then true else rest

unfoldable pub match : List ℕ → List ℕ → Bool
unfolding matchhere match_from
match [] text = match_from [] text
match (c ∷ re) text = if c == b'^' then matchhere re text else match_from (c ∷ re) text
