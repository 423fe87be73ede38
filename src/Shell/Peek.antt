-- ===== src/Shell/Peek.antt =====
-- c-shell/src/peek.c: `peeking`, which prints files, and `processing`, which prints one of them.
-- What `open`, `fstat` and `read` make of a target is an argument of type `Target`; `decimal` is what
-- `printf("%d")` prints. Allocations succeed. Bytes are numbers.
pub mod Growth
pub mod Lines
pub mod Numbers
pub mod Flags
mod Tests
use osn_mp.Common.{
  ℕ, zero, suc, ◌+◌, ◌*◌, List, [], ◌∷◌, ◌++◌, Bool, true, false, ◌&&◌, ◌||◌, not, Option, none,
  some, leb, ltb, ◌==◌, if◌then◌else◌, length,
}
use mathlib.Core.List.{reverse, map}

abbrev pub newline : ℕ
newline = 10

-- `pline`; `text` is without its closing NUL.
pub record PLine : Type 0 where
  pub text : List ℕ
  pub number : ℕ

-- The buffer that a target is read into: its bytes, `sz` of them, and `cap`.
pub record Buffer : Type 0 where
  pub bytes : List ℕ
  pub cap : ℕ

-- `while (sz + bytes >= cap) cap *= 2`, with at most `fuel` rounds.
unfoldable pub grow : ℕ → ℕ → ℕ → ℕ
grow zero need cap = cap
grow (suc fuel) need cap = let rest = grow fuel need (cap * 2) in if leb cap need then rest else cap

-- One `read`; none where `memcpy` writes behind the allocation.
unfoldable pub add_chunk : List ℕ → Buffer → Option Buffer
add_chunk chunk b =
    let need = length b.bytes + length chunk in
    let cap = grow need need b.cap in
    if leb need cap then some (record { bytes = b.bytes ++ chunk; cap = cap }) else none

unfoldable pub read_chunks : List (List ℕ) → Buffer → Option Buffer
read_chunks [] b = some b
read_chunks (chunk ∷ rest) b = elim (add_chunk chunk b) [
  | none ↦ none
  | some b' ↦ read_chunks rest b'
]

abbrev pub empty_buffer : Buffer
empty_buffer = record { bytes = []; cap = 5000 }

-- The line with the bytes `text`, and the next number.
abbrev pub numbered_line : List ℕ → ℕ → PLine × ℕ
numbered_line text next =
    if length text == 0
    then (record { text = text; number = 0 }, next)
    else (record { text = text; number = next }, next + 1)

-- The loop over the bytes, and the line behind the last newline. `text` are the bytes from `start`.
unfoldable pub split_lines : List ℕ → List ℕ → ℕ → List PLine × ℕ
split_lines [] text next =
    let l = numbered_line text next in if ltb 0 (length text) then (l.0 ∷ [], l.1) else ([], next)
split_lines (c ∷ r) text next =
    let l = numbered_line text next in
    let ended = split_lines r [] l.1 in
    let longer = split_lines r (text ++ c ∷ []) next in
    if c == newline then (l.0 ∷ ended.0, ended.1) else longer

abbrev pub ends_with_newline : List ℕ → Bool
ends_with_newline [] = false
ends_with_newline (c ∷ []) = c == newline
ends_with_newline (c ∷ d ∷ r) = ends_with_newline (d ∷ r)

-- What `printf("%s")` prints.
abbrev pub until_nul : List ℕ → List ℕ
until_nul [] = []
until_nul (c ∷ r) = if c == 0 then [] else c ∷ until_nul r

module _ (decimal : ℕ → List ℕ) where
  abbrev pub print_line : Bool → Bool → PLine → List ℕ
  print_line nflag ends l =
      (if nflag && not (l.number == 0) then decimal l.number ++ 32 ∷ [] else [])
      ++ (until_nul l.text ++ (if ends then newline ∷ [] else []))

  -- The loops that print, given the lines in the order in which they are printed.
  unfoldable pub print_lines : Bool → Bool → List PLine → List ℕ
  print_lines nflag trailing [] = []
  print_lines nflag trailing (l ∷ []) = print_line nflag trailing l
  print_lines nflag trailing (l ∷ l' ∷ r) =
      print_line nflag true l ++ print_lines nflag trailing (l' ∷ r)

  -- What is printed of the bytes of a target, and the next number.
  unfoldable pub print_bytes : Bool → Bool → List ℕ → ℕ → List ℕ × ℕ
  print_bytes nflag rflag bytes next =
      let (ls, next') = split_lines bytes [] next in
      if length bytes == 0
      then ([], next)
      else (print_lines nflag (ends_with_newline bytes) (if rflag then reverse ls else ls), next')

-- What there is at a target: nothing that can be opened, a directory, or what `read` returns.
pub data Target : Type 0 where
  missing : Target
  directory : Target
  chunks : List (List ℕ) → Target

pub data Printed : Type 0 where
  no_such_file : Printed
  is_a_directory : Printed
  out_of_bounds : Printed
  output : List ℕ → Printed

module _ (decimal : ℕ → List ℕ) where
  unfoldable pub processing : Bool → Bool → Target → ℕ → Printed × ℕ
  processing nflag rflag missing next = (no_such_file, next)
  processing nflag rflag directory next = (is_a_directory, next)
  processing nflag rflag (chunks cs) next = elim (read_chunks cs empty_buffer) [
    | none ↦ (out_of_bounds, next)
    | some b ↦
        let (out, next') = print_bytes decimal nflag rflag b.bytes next in (output out, next')
  ]

-- An argument that begins with `-` and is longer.
abbrev pub has_dash : List ℕ → Bool
has_dash [] = false
has_dash (c ∷ []) = false
has_dash (c ∷ d ∷ r) = c == 45

abbrev pub flag_letters : List ℕ → Bool
flag_letters [] = true
flag_letters (c ∷ r) = (c == 110 || c == 114) && flag_letters r

abbrev pub has_letter : ℕ → List ℕ → Bool
has_letter x [] = false
has_letter x (c ∷ r) = c == x || has_letter x r

abbrev pub letters : List ℕ → List ℕ
letters [] = []
letters (c ∷ r) = r

-- `nflag`, `rflag`, and the arguments from `first_file` on.
pub record Request : Type 0 where
  pub nflag : Bool
  pub rflag : Bool
  pub files : List (List ℕ)

abbrev pub with_flags : List ℕ → Request → Request
with_flags arg q = record q {
  nflag = has_letter 110 (letters arg) || q.nflag;
  rflag = has_letter 114 (letters arg) || q.rflag;
}

-- The loop over the arguments, before and behind the first file; none for "invalid syntax".
unfoldable pub read_files : List (List ℕ) → Option (List (List ℕ))
read_files [] = some []
read_files (arg ∷ rest) =
    let more = read_files rest in
    if has_dash arg then none else elim more [ none ↦ none | some fs ↦ some (arg ∷ fs) ]

unfoldable pub read_arguments : List (List ℕ) → Option Request
read_arguments [] = some (record { nflag = false; rflag = false; files = [] })
read_arguments (arg ∷ rest) =
    let more = read_arguments rest in
    let files = read_files rest in
    if has_dash arg
    then (if flag_letters (letters arg)
        then elim more [ none ↦ none | some q ↦ some (with_flags arg q) ]
        else none)
    else elim files [
      | none ↦ none
      | some fs ↦ some (record { nflag = false; rflag = false; files = arg ∷ fs })
    ]

module _ (decimal : ℕ → List ℕ) (target : List ℕ → Target) where
  unfoldable pub process_all : Bool → Bool → List (List ℕ) → ℕ → List Printed
  process_all nflag rflag [] next = []
  process_all nflag rflag (file ∷ rest) next =
      let (out, next') = processing decimal nflag rflag (target file) next in
      out ∷ process_all nflag rflag rest next'

  -- What `peeking` prints; none for "invalid syntax".
  unfoldable pub peeking : List (List ℕ) → Option (List Printed)
  peeking args = elim (read_arguments args) [
    | none ↦ none
    | some q ↦
        some
          (process_all q.nflag q.rflag (elim q.files [ [] ↦ (45 ∷ []) ∷ [] | f ∷ fs ↦ f ∷ fs ]) 1)
  ]
