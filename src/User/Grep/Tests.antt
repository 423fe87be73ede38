-- ===== src/User/Grep/Tests.antt =====
-- Runs of grep's matcher, and the theorem at one of them.
use Prim.Native.Char.{code}
use Prim.Native.String.{String}
use osn_mp.Common.{ℕ, List, [], ◌∷◌, true, false, ◌≡◌, ◌↔◌, refl, All, arith}
use osn_mp.User.Grep.{match}
use osn_mp.User.Grep.Regex.{any, byte, one, many, Regex, IsPlainItem, Found, print}
use osn_mp.User.Grep.Finds.{match_iff}

abbrev codes : String → List ℕ
codes String.[] = []
codes (String.◌∷◌ c s) = code c ∷ codes s

star_in_the_middle : match (codes "a.*z$") (codes "xabcz") ≡ true
unfolding match
star_in_the_middle = refl

anchored : match (codes "^b") (codes "ab") ≡ false
unfolding match
anchored = refl

-- `.*z$` behind an `a`
abbrev sample : Regex
sample = record {
  at_start = false;
  items = one (byte b'a') ∷ many any ∷ one (byte b'z') ∷ [];
  at_end = true;
}

sample-print : print sample ≡ codes "a.*z$"
sample-print = refl

sample-IsPlain : All IsPlainItem sample.items
sample-IsPlain = (
  (omega arith, omega arith, omega arith, omega arith),
  (tt, ((omega arith, omega arith, omega arith, omega arith), tt)),
)

match_iff_example : (match (print sample) (codes "xabcz") ≡ true) ↔ Found sample (codes "xabcz")
match_iff_example = match_iff sample (codes "xabcz") sample-IsPlain
