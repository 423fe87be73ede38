-- ===== src/Shell/Peek/Tests.antt =====
-- Runs of peek, and the theorems at them.
use osn_mp.Common.{ℕ, ◌+◌, List, [], ◌∷◌, true, false, some, none, ◌≡◌, refl, ◌==◌, if◌then◌else◌}
use osn_mp.Shell.Peek.{
  Buffer, Request, Target, Printed, read_chunks, add_chunk, grow, split_lines, print_lines,
  print_bytes, processing, process_all, read_arguments, read_files, peeking,
}

abbrev digits : ℕ → List ℕ
digits n = (48 + n) ∷ []

abbrev target : List ℕ → Target
target [] = Target.missing
target (c ∷ r) =
    if c == 46 then Target.directory else Target.chunks ((97 ∷ 10 ∷ []) ∷ (10 ∷ 98 ∷ []) ∷ [])

abbrev flag_nr : List ℕ
flag_nr = 45 ∷ 110 ∷ 114 ∷ []

-- `peek -nr f .` prints "2 b", an empty line and "1 a", none of the others ended by a newline.
numbered_backwards :
    peeking digits target (flag_nr ∷ (102 ∷ []) ∷ (46 ∷ []) ∷ [])
    ≡ some
        (Printed.output (50 ∷ 32 ∷ 98 ∷ 10 ∷ 10 ∷ 49 ∷ 32 ∷ 97 ∷ []) ∷ Printed.is_a_directory ∷ [])
unfolding peeking process_all processing read_arguments read_files read_chunks add_chunk grow
    print_bytes print_lines split_lines
numbered_backwards = refl

flags_after_files : read_arguments ((102 ∷ []) ∷ flag_nr ∷ []) ≡ none
unfolding read_arguments read_files
flags_after_files = refl

-- A byte 0 ends what is printed of its line.
cut_at_nul : (print_bytes digits false false (97 ∷ 0 ∷ 98 ∷ 10 ∷ []) 1).0 ≡ 97 ∷ 10 ∷ []
unfolding print_bytes split_lines print_lines
cut_at_nul = refl

abbrev request : Request
request = record { nflag = true; rflag = true; files = (102 ∷ []) ∷ [] }

abbrev three_lines : List (List ℕ)
three_lines = (97 ∷ []) ∷ [] ∷ (98 ∷ []) ∷ []

abbrev small : Buffer
small = record { bytes = 97 ∷ []; cap = 1 }
