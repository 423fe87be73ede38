-- ===== src/Kernel/Fs/Path/Tests.antt =====
-- Runs of `skipelem`, and the theorem at a path.
use osn_mp.Common.{ℕ, ◌≡◌, ◌≢◌, List, [], ◌∷◌, map, take, none, some, refl, arith}
use osn_mp.Kernel.Fs.Path.{slash, dirsiz, skip_slashes, next_elem, copy_elem, skipelem, path_names}
use osn_mp.Kernel.Fs.Path.Elements.{Spelled, leading, last, next, path_names-Spelled}

-- "///a//bb", and the names in it
abbrev sample : List ℕ
sample = 47 ∷ 47 ∷ 47 ∷ 97 ∷ 47 ∷ 47 ∷ 98 ∷ 98 ∷ []

abbrev names : List (List ℕ)
names = (97 ∷ []) ∷ (98 ∷ 98 ∷ []) ∷ []

first_name : skipelem sample ≡ some (98 ∷ 98 ∷ [], 97 ∷ [])
unfolding skipelem copy_elem next_elem skip_slashes
first_name = refl

only_slashes : skipelem (47 ∷ 47 ∷ []) ≡ none
unfolding skipelem copy_elem skip_slashes
only_slashes = refl

sample-Spelled : Spelled sample names
sample-Spelled =
    let b : 98 ≢ slash = omega arith in
    let a : 97 ≢ slash = omega arith in
    leading _ _ (
      leading _ _
        (leading _ _ (next 97 [] _ _ (a, tt) (leading _ _ (last 98 (98 ∷ []) (b, (b, tt)))))))

path_names-Spelled_example : path_names 8 sample ≡ map (take dirsiz) names
path_names-Spelled_example = path_names-Spelled 8 sample names sample-Spelled (omega arith)
