-- ===== src/Kernel/Fs/Path/Elements.antt =====
-- The elements of a path, and that `skipelem` takes them one by one.
use osn_mp.Common.{
  ℕ, zero, suc, ◌≤◌, ◌<◌, List, [], ◌∷◌, ◌++◌, map, length, length-append, take, All, false, Option,
  none, some, ◌==◌, ◌≡◌, ◌≢◌, refl, arith, ap,
}
use osn_mp.Kernel.Fs.Path.{slash, dirsiz, skip_slashes, next_elem, copy_elem, skipelem, path_names}

abbrev pub IsPlain : List ℕ → Type 0
IsPlain elem = All (λ c. c ≢ slash) elem

-- How a path is written from its elements: with any slashes around, and at least one between two.
pub data Spelled : List ℕ → List (List ℕ) → Type 0 where
  nothing : Spelled [] []
  leading : (path : List ℕ) (es : List (List ℕ)) → Spelled path es → Spelled (slash ∷ path) es
  last : (c : ℕ) (s : List ℕ) → IsPlain (c ∷ s) → Spelled (c ∷ s) ((c ∷ s) ∷ [])
  next :
      (c : ℕ) (s path : List ℕ) (es : List (List ℕ))
      → IsPlain (c ∷ s)
      → Spelled path es
      → Spelled ((c ∷ s) ++ slash ∷ path) ((c ∷ s) ∷ es)

next_elem-plain : (elem : List ℕ) → IsPlain elem → next_elem elem ≡ (elem, [])
unfolding next_elem
next_elem-plain [] h = refl
next_elem-plain (c ∷ s) (n, h) =
    let e : (c == slash) ≡ false = ground arith in rw (e, next_elem-plain s h) refl

next_elem-append :
    (elem path : List ℕ) → IsPlain elem → next_elem (elem ++ slash ∷ path) ≡ (elem, slash ∷ path)
unfolding next_elem
next_elem-append [] path h = refl
next_elem-append (c ∷ s) path (n, h) =
    let e : (c == slash) ≡ false = ground arith in rw (e, next_elem-append s path h) refl

-- Leading slashes are of no account.
skip_slashes-Spelled :
    (path : List ℕ) (es : List (List ℕ))
    → Spelled path es
    → Spelled (skip_slashes path) es × (length (skip_slashes path) ≤ length path)
unfolding skip_slashes
skip_slashes-Spelled _ _ nothing = (nothing, omega arith)
skip_slashes-Spelled _ _ (leading path es h) =
    let (g, l) = skip_slashes-Spelled path es h in (g, omega (arith, l))
skip_slashes-Spelled _ _ (last c s p) =
    let e : (c == slash) ≡ false = ground (arith, p.0) in rw e (last c s p, omega arith)
skip_slashes-Spelled _ _ (next c s path es p h) =
    let e : (c == slash) ≡ false = ground (arith, p.0) in rw e (next c s path es p h, omega arith)

-- What `skipelem` does to a path with these elements.
pub data Skipped (path : List ℕ) : List (List ℕ) → Option (List ℕ × List ℕ) → Type 0 where
  no_name : Skipped path [] none
  name :
      (elem rest : List ℕ) (es : List (List ℕ))
      → Spelled rest es
      → length rest < length path
      → Skipped path (elem ∷ es) (some (rest, take dirsiz elem))

Skipped-longer :
    (path : List ℕ) (es : List (List ℕ)) (o : Option (List ℕ × List ℕ))
    → Skipped path es o
    → Skipped (slash ∷ path) es o
Skipped-longer path _ _ no_name = no_name
Skipped-longer path _ _ (name elem rest es h l) = name elem rest es h (omega (arith, l))

skipelem-Skipped :
    (path : List ℕ) (es : List (List ℕ)) → Spelled path es → Skipped path es (skipelem path)
unfolding skipelem skip_slashes copy_elem
skipelem-Skipped _ _ nothing = no_name
skipelem-Skipped _ _ (leading path es h) =
    Skipped-longer path es (skipelem path) (skipelem-Skipped path es h)
skipelem-Skipped _ _ (last c s p) =
    let e : (c == slash) ≡ false = ground (arith, p.0) in
    rw (e, copy_elem, next_elem-plain (c ∷ s) p) (name (c ∷ s) [] [] nothing (omega arith))
skipelem-Skipped _ _ (next c s path es p h) =
    let e : (c == slash) ≡ false = ground (arith, p.0) in
    let (g, l) = skip_slashes-Spelled path es h in
    rw (e, copy_elem, next_elem-append (c ∷ s) path p)
      (name (c ∷ s) (skip_slashes path) es g (omega (arith, l, length-append s (slash ∷ path))))

path_names-Skipped :
    (fuel : ℕ) (path : List ℕ) (es : List (List ℕ)) (o : Option (List ℕ × List ℕ))
    → skipelem path ≡ o
    → Skipped path es o
    → ((rest : List ℕ) (es : List (List ℕ))
        → Spelled rest es
        → length rest < length path
        → path_names fuel rest ≡ map (take dirsiz) es)
    → path_names (suc fuel) path ≡ map (take dirsiz) es
unfolding path_names
path_names-Skipped fuel path _ _ q no_name later = rw (path_names, q) refl
path_names-Skipped fuel path _ _ q (name elem rest es h m) later =
    rw (path_names, q) (ap (λ xs. take dirsiz elem ∷ xs) (later rest es h m))

-- The names that the loop of `namex` takes from a path with `skipelem`, if none of them ends it, are
-- the elements of the path, cut to DIRSIZ bytes, in order, with any slashes around them and between
-- them; as many rounds as the path has bytes are enough.
pub path_names-Spelled :
    (fuel : ℕ) (path : List ℕ) (es : List (List ℕ))
    → Spelled path es
    → length path ≤ fuel
    → path_names fuel path ≡ map (take dirsiz) es
unfolding path_names
path_names-Spelled zero _ _ nothing l = refl
path_names-Spelled zero _ _ (leading path es h) l = absurd (omega (arith, l))
path_names-Spelled zero _ _ (last c s p) l = absurd (omega (arith, l))
path_names-Spelled zero _ _ (next c s path es p h) l = absurd (omega (arith, l))
path_names-Spelled (suc fuel) path es h l =
    path_names-Skipped fuel path es (skipelem path) refl (skipelem-Skipped path es h)
      (λ rest fs g m. path_names-Spelled fuel rest fs g (omega (arith, m, l)))
