-- ===== src/Shell/Hop/Best.antt =====
-- `get_frecency` returns the first of the best entries.
use osn_mp.Common.{
  ℕ, ◌<◌, ◌≤◌, ◌⊎◌, ltb, ◌==◌, ap₂, ◌∙◌, List, [], ◌∷◌, ◌++◌, Bool, true, false, ◌&&◌, Option, none,
  some, ◌≡◌, refl, arith, ap, All, Bool-cases, inl, inr,
}
use osn_mp.Shell.Hop.{Entry, starts_with, contains, beats, best_of, get_frecency}

beats_trans :
    (a b : Entry) (best : Option Entry)
    → beats a (some b) ≡ true
    → beats b best ≡ true
    → beats a best ≡ true
beats_trans a b none h k = refl
beats_trans a b (some c) h k = ground arith

beats_linear :
    (a b : Entry) (best : Option Entry)
    → beats a best ≡ true
    → beats b best ≡ false
    → beats a (some b) ≡ true
beats_linear a b none h k = absurd (ground arith)
beats_linear a b (some c) h k = ground arith

-- An entry visited less often than another, or as often and earlier; and one visited not more often
-- and, if as often, not later.
abbrev pub IsLess : Entry → Entry → Type 0
IsLess d en = (d.freq < en.freq) ⊎ ((d.freq ≡ en.freq) × (d.time < en.time))

abbrev pub IsAtMost : Entry → Entry → Type 0
IsAtMost d en = (d.freq < en.freq) ⊎ ((d.freq ≡ en.freq) × (d.time ≤ en.time))

beats-IsLess : (en d : Entry) → beats en (some d) ≡ true → IsLess d en
beats-IsLess en d h = elim (Bool-cases (ltb d.freq en.freq)) [
  | inl e ↦ inl (ground arith)
  | inr e ↦ inr (ground arith)
]

beats-IsAtMost : (d en : Entry) → beats d (some en) ≡ false → IsAtMost d en
beats-IsAtMost d en h = elim (Bool-cases (ltb d.freq en.freq)) [
  | inl e ↦ inl (ground arith)
  | inr e ↦ inr (ground arith)
]

All-weaken :
    {P Q : Entry → Type 0} (es : List Entry) → ((d : Entry) → P d → Q d) → All P es → All Q es
All-weaken [] f h = tt
All-weaken (d ∷ r) f (p, h) = (f d p, All-weaken r f h)

starts_with-split :
    (xs ys : List ℕ) → starts_with xs ys ≡ true → (after : List ℕ) × (ys ≡ xs ++ after)
starts_with-split [] ys h = (ys, refl)
starts_with-split (x ∷ xs) [] h = absurd (ground arith)
starts_with-split (x ∷ xs) (y ∷ ys) h =
    let (after, e) = starts_with-split xs ys (ground arith) in (after, ap₂ ◌∷◌ (ground arith) e)

starts_with-append : (xs after : List ℕ) → starts_with xs (xs ++ after) ≡ true
starts_with-append [] after = refl
starts_with-append (x ∷ xs) after =
    let e : (x == x) ≡ true = ground arith in rw e (starts_with-append xs after)

-- `strstr` finds just the targets that are a part of the path.
contains-split :
    (target path : List ℕ)
    → contains target path ≡ true
    → (before : List ℕ) × (after : List ℕ) × (path ≡ before ++ (target ++ after))
contains-split target [] h = let (after, e) = starts_with-split target [] h in ([], after, e)
contains-split target (y ∷ ys) h = elim (Bool-cases (starts_with target (y ∷ ys))) [
  | inl q ↦ let (after, e) = starts_with-split target (y ∷ ys) q in ([], after, e)
  | inr q ↦
      let (before, after, e) = contains-split target ys (ground arith) in
      (y ∷ before, after, ap (λ k. y ∷ k) e)
]

contains-starts :
    (target path : List ℕ) → starts_with target path ≡ true → contains target path ≡ true
contains-starts target [] h = h
contains-starts target (y ∷ ys) h = rw h refl

contains-append :
    (before target after : List ℕ) → contains target (before ++ (target ++ after)) ≡ true
contains-append [] target after =
    contains-starts target (target ++ after) (starts_with-append target after)
contains-append (b ∷ before) target after = ground (arith, contains-append before target after)

module _ (is_dir : List ℕ → Bool) (target : List ℕ) where
  -- An entry whose path has the target in it and is a directory.
  abbrev pub is_match : Entry → Bool
  is_match en = contains target en.path && is_dir en.path

  pub data Chosen (es : List Entry) (best : Option Entry) : Option Entry → Type 0 where
    kept : All (λ d. is_match d ≡ true → beats d best ≡ false) es → Chosen es best best
    first_best :
        (before : List Entry) (en : Entry) (after : List Entry)
        → es ≡ before ++ en ∷ after
        → is_match en ≡ true
        → beats en best ≡ true
        → All (λ d. is_match d ≡ true → beats en (some d) ≡ true) before
        → All (λ d. is_match d ≡ true → beats d (some en) ≡ false) after
        → Chosen es best (some en)

  Chosen-taken :
      (en : Entry) (r : List Entry) (best res : Option Entry)
      → is_match en ≡ true
      → beats en best ≡ true
      → Chosen r (some en) res
      → Chosen (en ∷ r) best res
  Chosen-taken en r best _ m b (kept h) = first_best [] en r refl m b tt h
  Chosen-taken en r best _ m b (first_best before d after e md bd hb ha) =
      first_best (en ∷ before) d after (ap (λ k. en ∷ k) e) md (beats_trans d en best bd b)
        ((λ q. bd), hb) ha

  Chosen-passed :
      (en : Entry) (r : List Entry) (best res : Option Entry)
      → (is_match en ≡ true → beats en best ≡ false)
      → Chosen r best res
      → Chosen (en ∷ r) best res
  Chosen-passed en r best _ n (kept h) = kept (n, h)
  Chosen-passed en r best _ n (first_best before d after e md bd hb ha) =
      first_best (en ∷ before) d after (ap (λ k. en ∷ k) e) md bd
        ((λ q. beats_linear d en best bd (n q)), hb) ha

  best_of-Chosen :
      (es : List Entry) (best : Option Entry) → Chosen es best (best_of is_dir target es best)
  unfolding best_of
  best_of-Chosen [] best = kept tt
  best_of-Chosen (en ∷ r) best =
      elim (Bool-cases (contains target en.path && is_dir en.path && beats en best)) [
        | inl e ↦
            rw e
              (Chosen-taken en r best _ (ground arith) (ground arith) (best_of-Chosen r (some en)))
        | inr e ↦ rw e (Chosen-passed en r best _ (λ m. ground arith) (best_of-Chosen r best))
      ]

  All-unmatched :
      (es : List Entry)
      → All (λ d. is_match d ≡ true → beats d none ≡ false) es
      → All (λ d. is_match d ≡ false) es
  All-unmatched [] h = tt
  All-unmatched (d ∷ r) h = (grind (arith, h.0), All-unmatched r h.1)

  -- An entry that the target names: it has the target in its path, which is that of a directory.
  abbrev pub IsNamed : Entry → Type 0
  IsNamed en =
      ((before : List ℕ) × (after : List ℕ) × (en.path ≡ before ++ (target ++ after)))
      × (is_dir en.path ≡ true)

  is_match-IsNamed : (en : Entry) → is_match en ≡ true → IsNamed en
  is_match-IsNamed en h = (contains-split target en.path (ground arith), ground arith)

  IsNamed-is_match : (en : Entry) → IsNamed en → is_match en ≡ true
  IsNamed-is_match en ((before, after, e), d) =
      let c : contains target en.path ≡ true =
        ap (contains target) e ∙ contains-append before target after in
      rw (c, d) refl

  -- What `get_frecency` may return for the entries of a file: nothing, where none is named, or the path
  -- of an entry that is.
  pub data Answer (es : List Entry) : Option (List ℕ) → Type 0 where
    no_match : All (λ d. ¬ IsNamed d) es → Answer es none
    best_match :
        (before : List Entry) (en : Entry) (after : List Entry)
        → es ≡ before ++ en ∷ after
        → IsNamed en
        → All (λ d. IsNamed d → IsLess d en) before
        → All (λ d. IsNamed d → IsAtMost d en) after
        → Answer es (some en.path)

  Chosen-Answer :
      (es : List Entry) (res : Option Entry)
      → Chosen es none res
      → Answer es (elim res [ none ↦ none | some en ↦ some en.path ])
  Chosen-Answer es _ (kept h) = no_match (
      All-weaken es
        (λ d q n. let t : is_match d ≡ true = IsNamed-is_match d n in grind (arith, q, t))
        (All-unmatched es h))
  Chosen-Answer es _ (first_best before en after e m b hb ha) =
      best_match before en after e (is_match-IsNamed en m)
        (All-weaken before (λ d q n. beats-IsLess en d (q (IsNamed-is_match d n))) hb)
        (All-weaken after (λ d q n. beats-IsAtMost d en (q (IsNamed-is_match d n))) ha)

  -- `get_frecency` of a file returns the path of an entry that has the target in it and is a directory,
  -- such that no entry behind it that does and is has been visited more often, or as often and later,
  -- and every one before it less often, or as often and earlier; or there is no such entry.
  pub get_frecency-Answer : (es : List Entry) → Answer es (get_frecency is_dir target (some es))
  unfolding get_frecency
  get_frecency-Answer es = Chosen-Answer es (best_of is_dir target es none) (best_of-Chosen es none)
