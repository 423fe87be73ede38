-- ===== src/Kernel/Fs/Path.antt =====
-- `skipelem` of xv6/kernel/fs.c, and the names that the loop of `namex` takes with it. A path is its bytes
-- up to the NUL; of a name, the bytes that `namecmp` reads.
pub mod Elements
mod Tests
use osn_mp.Common.{ℕ, zero, suc, List, [], ◌∷◌, Bool, Option, none, some, take, ◌==◌, if◌then◌else◌}

-- '/' and `DIRSIZ`
abbrev pub slash : ℕ
slash = 47

abbrev pub dirsiz : ℕ
dirsiz = 14

-- `while (*path == '/') path++;`
unfoldable pub skip_slashes : List ℕ → List ℕ
skip_slashes [] = []
skip_slashes (c ∷ path) = if c == slash then skip_slashes path else c ∷ path

-- `while (*path != '/' && *path != 0) path++;`: the bytes passed, and the path behind.
unfoldable pub next_elem : List ℕ → List ℕ × List ℕ
next_elem [] = ([], [])
next_elem (c ∷ path) =
    let (elem, rest) = next_elem path in if c == slash then ([], c ∷ path) else (c ∷ elem, rest)

-- Behind the leading slashes; both branches on `len` leave at most DIRSIZ bytes of the element.
unfoldable pub copy_elem : List ℕ → Option (List ℕ × List ℕ)
copy_elem [] = none
copy_elem (c ∷ path) =
    let (elem, rest) = next_elem (c ∷ path) in some (skip_slashes rest, take dirsiz elem)

-- The path behind, and the name; none is the null pointer.
unfoldable pub skipelem : List ℕ → Option (List ℕ × List ℕ)
skipelem path = copy_elem (skip_slashes path)

-- The names that the loop of `namex` looks up, in at most `fuel` rounds.
unfoldable pub path_names : ℕ → List ℕ → List (List ℕ)
path_names zero path = []
path_names (suc fuel) path = elim (skipelem path) [
  | none ↦ []
  | some (rest, name) ↦ name ∷ path_names fuel rest
]
