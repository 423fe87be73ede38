-- ===== src/Shell/Hop.antt =====
-- c-shell/src/hop.c: `hopping`, which changes the directory, and the file `.frecency` of the directories
-- visited, `freq_update` and `get_frecency`. The file is the list of the entries that `fscanf` reads, and
-- what `fscanf` reads of the entries that `fprintf` wrote is the argument `stored`, for a file that can
-- be written; frequencies and times are not negative. What the file system says is an argument:
-- `is_dir`, `chdir` and `realpath`, each in a working directory.
pub mod Update
pub mod Best
pub mod Moves
mod Tests
use osn_mp.Common.{
  ℕ, zero, suc, ◌+◌, List, [], ◌∷◌, ◌++◌, Bool, true, false, ◌&&◌, ◌||◌, not, Option, none, some,
  ltb, ◌==◌, if◌then◌else◌, length,
}

-- `strcmp(a, b) == 0`
abbrev pub same_path : List ℕ → List ℕ → Bool
same_path [] [] = true
same_path [] (y ∷ ys) = false
same_path (x ∷ xs) [] = false
same_path (x ∷ xs) (y ∷ ys) = x == y && same_path xs ys

-- `strstr(path, target) != NULL`
abbrev pub starts_with : List ℕ → List ℕ → Bool
starts_with [] ys = true
starts_with (x ∷ xs) [] = false
starts_with (x ∷ xs) (y ∷ ys) = x == y && starts_with xs ys

abbrev pub contains : List ℕ → List ℕ → Bool
contains target [] = starts_with target []
contains target (y ∷ ys) = starts_with target (y ∷ ys) || contains target ys

-- A line of `.frecency`
pub record Entry : Type 0 where
  pub path : List ℕ
  pub freq : ℕ
  pub time : ℕ

-- The entries of a file, which is made if it is missing.
abbrev pub entries : Option (List Entry) → List Entry
entries none = []
entries (some es) = es

abbrev pub max_entries : ℕ
max_entries = 1024

-- The loop that reads the entries, and `found`.
unfoldable pub count_visit : List ℕ → ℕ → List Entry → List Entry × Bool
count_visit path now [] = ([], false)
count_visit path now (en ∷ r) =
    let (r', found) = count_visit path now r in
    if same_path en.path path
    then (record { path = en.path; freq = en.freq + 1; time = now } ∷ r', true)
    else (en ∷ r', found)

-- What the file holds behind a call, as the next one reads it: `stored es` is what `fscanf` reads of
-- what `fprintf` writes of `es`.
unfoldable pub freq_update : (List Entry → List Entry) → List ℕ → ℕ → List Entry → List Entry
freq_update stored path now es =
    let (es', found) = count_visit path now es in
    if not found && ltb (length es') max_entries
    then stored (es' ++ record { path = path; freq = 1; time = now } ∷ [])
    else stored es'

-- The test of an entry against `best_freq` and `best_time`, which are -1 at first.
abbrev pub beats : Entry → Option Entry → Bool
beats en none = true
beats en (some b) = ltb b.freq en.freq || en.freq == b.freq && ltb b.time en.time

module _ (is_dir : List ℕ → Bool) (target : List ℕ) where
  unfoldable pub best_of : List Entry → Option Entry → Option Entry
  best_of [] best = best
  best_of (en ∷ r) best =
      let better = best_of r (some en) in
      let rest = best_of r best in
      if contains target en.path && is_dir en.path && beats en best then better else rest

  -- The result for a file, or for none.
  unfoldable pub get_frecency : Option (List Entry) → Option (List ℕ)
  get_frecency none = none
  get_frecency (some es) = elim (best_of es none) [ none ↦ none | some en ↦ some en.path ]

-- What a call prints.
pub data Message : Type 0 where
  no_such_directory : Message
  perror_hop : Message

-- The working directory, `previous` and the file.
pub record Place : Type 0 where
  pub cwd : List ℕ
  pub previous : List ℕ
  pub table : Option (List Entry)
  pub printed : List Message

abbrev pub say : Message → Place → Place
say m s = record s { printed = s.printed ++ m ∷ [] }

-- What the loop does with an argument: it breaks, continues, or goes to `chdir`.
pub data Aim : Type 0 where
  stop : Message → Aim
  skip : Aim
  skip_with : Message → Aim
  go_to : List ℕ → Aim

abbrev pub tilde : List ℕ
tilde = 126 ∷ []

abbrev pub dash : List ℕ
dash = 45 ∷ []

abbrev pub dot : List ℕ
dot = 46 ∷ []

module _ (home : List ℕ) (is_dir : List ℕ → List ℕ → Bool)
    (chdir realpath : List ℕ → List ℕ → Option (List ℕ)) (now : ℕ)
    (stored : List Entry → List Entry) where
  -- The branches that set `target`.
  unfoldable pub aim : List ℕ → Place → Aim
  aim arg s =
      if same_path arg tilde
      then go_to home
      else if same_path arg dash
      then (if length s.previous == 0 then skip_with no_such_directory else go_to s.previous)
      else if same_path arg dot
      then skip
      else if is_dir s.cwd arg
      then go_to arg
      else elim (get_frecency (is_dir s.cwd) arg s.table) [
        | some path ↦ go_to path
        | none ↦ stop no_such_directory
      ]

  -- `chdir` and what follows; `realpath` is called behind it.
  unfoldable pub move : List ℕ → Place → Place
  move target s = elim (chdir s.cwd target) [
    | none ↦ say perror_hop s
    | some there ↦ record s {
      cwd = there;
      previous = s.cwd;
      table = elim (realpath there target) [
        | none ↦ s.table
        | some path ↦ some (freq_update stored path now (entries s.table))
      ];
    }
  ]

  unfoldable pub hop_args : List (List ℕ) → Place → Place
  hop_args [] s = s
  hop_args (arg ∷ rest) s = elim (aim arg s) [
    | stop m ↦ say m s
    | skip ↦ hop_args rest s
    | skip_with m ↦ hop_args rest (say m s)
    | go_to target ↦ hop_args rest (move target s)
  ]

  unfoldable pub hopping : List (List ℕ) → Place → Place
  hopping [] s = hop_args (tilde ∷ []) s
  hopping (arg ∷ rest) s = hop_args (arg ∷ rest) s
