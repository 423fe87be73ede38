-- ===== src/Shell/Hop/Tests.antt =====
-- Runs of hop, and the theorems at them.
use osn_mp.Common.{
  ℕ, List, [], ◌∷◌, Bool, true, false, ◌||◌, ◌&&◌, Option, some, none, ◌≡◌, refl, if◌then◌else◌,
}
use osn_mp.Shell.Hop.{
  Entry, Place, Aim, same_path, freq_update, count_visit, best_of, get_frecency, aim, move,
  hop_args, hopping,
}
use osn_mp.Shell.Hop.Update.{is_blank}
use osn_mp.Shell.Hop.Best.{Answer, get_frecency-Answer}

-- The directories "/" and "/a".
abbrev root : List ℕ
root = 47 ∷ []

abbrev dir_a : List ℕ
dir_a = 47 ∷ 97 ∷ []

abbrev name_a : List ℕ
name_a = 97 ∷ []

abbrev has_blank : List ℕ → Bool
has_blank [] = false
has_blank (c ∷ r) = is_blank c || has_blank r

-- `%4999s` stops at a blank in a path, and then `%d` fails: that entry and all behind it are not read.
abbrev as_written : List Entry → List Entry
as_written [] = []
as_written (en ∷ r) = let rest = as_written r in if has_blank en.path then [] else en ∷ rest

abbrev first : List ℕ → ℕ
first [] = 0
first (c ∷ r) = c

-- Where a path leads from a directory.
abbrev lead : List ℕ → List ℕ → Option (List ℕ)
lead cwd p =
    if same_path p dir_a || same_path p name_a && same_path cwd root
    then some dir_a
    else if same_path p root
    then some root
    else none

abbrev leads : List ℕ → List ℕ → Bool
leads cwd p = elim (lead cwd p) [ none ↦ false | some d ↦ true ]

abbrev start : Place
start = record { cwd = root; previous = []; table = none; printed = [] }

-- `hop a` in "/" goes to "/a", but records nothing: `realpath` reads "a" in "/a".
relative_not_recorded : (hopping root leads lead lead 5 as_written (name_a ∷ []) start).table ≡ none
unfolding hopping hop_args aim move
relative_not_recorded = refl

-- `hop /a` records it.
absolute_recorded :
    (hopping root leads lead lead 5 as_written (dir_a ∷ []) start).table
    ≡ some (record { path = dir_a; freq = 1; time = 5 } ∷ [])
unfolding hopping hop_args aim move freq_update count_visit
absolute_recorded = refl

abbrev table : List Entry
table =
    record { path = root; freq = 3; time = 1 } ∷ record { path = dir_a; freq = 3; time = 2 } ∷ []

later_wins : get_frecency (λ p. true) root (some table) ≡ some dir_a
unfolding get_frecency best_of
later_wins = refl

get_frecency-Answer_example :
    Answer (λ p. true) root table (get_frecency (λ p. true) root (some table))
get_frecency-Answer_example = get_frecency-Answer (λ p. true) root table

-- A visit of the directory "/ a" is not kept.
blank_lost : freq_update as_written (47 ∷ 32 ∷ 97 ∷ []) 9 table ≡ table
unfolding freq_update count_visit
blank_lost = refl

aims : aim root leads lead lead 5 as_written name_a start ≡ Aim.go_to name_a
unfolding aim
aims = refl
