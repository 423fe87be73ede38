-- ===== src/Shell/Front.antt =====
-- c-shell/src/main.c, the body of the input loop between `fgets` and `run_cmd`: the line is cut at
-- its newline, and an empty, ill-quoted or ungrammatical line is skipped.
pub mod Accepted
use osn_mp.Common.{ℕ, List, [], ◌∷◌, ◌||◌, ◌==◌, if◌then◌else◌}
use osn_mp.Shell.Lexer.{Token, Lexed, rejected, accepted, out_of_bounds, maketoken}
use osn_mp.Shell.Parser.{parsing}

-- `input[strcspn(input, "\n")] = '\0'`, and what the string functions see of the line after that:
-- it ends at the first newline or NUL.
pub cut_newline : List ℕ → List ℕ
cut_newline [] = []
cut_newline (c ∷ rest) = if c == 10 || c == 0 then [] else c ∷ cut_newline rest

pub check : Lexed → Lexed
check rejected = rejected
check (accepted ts) = if parsing ts then accepted ts else rejected
check out_of_bounds = out_of_bounds

pub read_cut : List ℕ → Lexed
unfolding check
read_cut [] = rejected
read_cut (c ∷ rest) = check (maketoken (c ∷ rest))

-- `accepted` with the tokens handed to `run_cmd`, `rejected` for `continue`, or `out_of_bounds` where
-- the lexer wrote behind an array. `input` is what `fgets` has read: the bytes up to its NUL.
unfoldable pub read_line : List ℕ → Lexed
unfolding read_cut cut_newline
read_line input = read_cut (cut_newline input)
