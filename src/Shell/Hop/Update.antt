-- ===== src/Shell/Hop/Update.antt =====
-- `freq_update` counts one visit.
use osn_mp.Common.{
  ℕ, ◌+◌, ◌≤◌, ◌<◌, ◌^◌, ◌≢◌, ◌&&◌, ◌||◌, leb, All, List, [], ◌∷◌, Bool, true, false, ltb, ◌==◌,
  ◌≡◌, refl, arith, ap₂, length, if◌then◌else◌, map,
}
use osn_mp.Shell.Hop.{Entry, same_path, max_entries, freq_update}

pub same_path-eq : (a b : List ℕ) → same_path a b ≡ true → a ≡ b
same_path-eq [] [] e = refl
same_path-eq [] (y ∷ ys) e = absurd (ground arith)
same_path-eq (x ∷ xs) [] e = absurd (ground arith)
same_path-eq (x ∷ xs) (y ∷ ys) e = ap₂ ◌∷◌ (ground arith) (same_path-eq xs ys (ground arith))

pub same_path_refl : (a : List ℕ) → same_path a a ≡ true
same_path_refl [] = refl
same_path_refl (x ∷ xs) = let e : (x == x) ≡ true = ground arith in rw e (same_path_refl xs)

-- The entries for a path.
abbrev pub visits : List ℕ → List Entry → List Entry
visits q [] = []
visits q (en ∷ r) = if same_path en.path q then en ∷ visits q r else visits q r

abbrev pub is_empty : List Entry → Bool
is_empty [] = true
is_empty (en ∷ r) = false

abbrev pub visited : ℕ → Entry → Entry
visited now en = record en { freq = en.freq + 1; time = now }

-- A byte at which `%4999s` stops, or the end of a string.
abbrev pub is_blank : ℕ → Bool
is_blank c = c == 0 || leb 9 c && leb c 13 || c == 32

-- A path that `%4999s` reads back as it was written.
pub record IsPlainPath (path : List ℕ) : Type 0 where
  pub some_byte : path ≢ []
  pub short : length path ≤ 4999
  pub no_blank : All (λ c. is_blank c ≡ false) path

-- An entry that `%4999s %d %ld` reads back: its numbers are an `int` and a `long`.
pub record IsStorable (en : Entry) : Type 0 where
  pub path : IsPlainPath en.path
  pub freq : en.freq < 2 ^ 31
  pub time : en.time < 2 ^ 63

module _ (path : List ℕ) (now : ℕ) where
  pub record Updated (es es' : List Entry) : Type 0 where
    pub same : visits path es' ≡ (
        if is_empty (visits path es)
        then (if ltb (length es) max_entries
            then record { path = path; freq = 1; time = now } ∷ []
            else [])
        else map (visited now) (visits path es))
    pub others : (q : List ℕ) → same_path path q ≡ false → visits q es' ≡ visits q es
    pub bounded : length es' ≤ max_entries

  -- The entries that are written, which are read back where they are storable.
  abbrev written : List Entry → List Entry
  written es = freq_update (λ fs. fs) path now es
