-- ===== src/Shell/Peek/Numbers.antt =====
-- The numbers of the lines that `print_bytes` prints, and their order.
use osn_mp.Common.{
  ℕ, suc, ◌+◌, List, [], ◌∷◌, ◌++◌, Bool, true, false, ◌==◌, ◌≡◌, ◌≢◌, All, if◌then◌else◌,
}
use osn_mp.Shell.Peek.{PLine, newline}

abbrev pub is_blank : List ℕ → Bool
is_blank [] = true
is_blank (c ∷ r) = false

-- The lines numbered from `n`, where empty lines have the number 0 and are not counted.
abbrev pub number_lines : ℕ → List (List ℕ) → List PLine
number_lines n [] = []
number_lines n (l ∷ ls) =
    let rest = number_lines (if is_blank l then n else n + 1) ls in
    record { text = l; number = if is_blank l then 0 else n } ∷ rest

abbrev pub count_texts : List (List ℕ) → ℕ
count_texts [] = 0
count_texts (l ∷ ls) = if is_blank l then count_texts ls else suc (count_texts ls)

-- Lines, each with its newline.
abbrev pub unlines : List (List ℕ) → List ℕ
unlines [] = []
unlines (l ∷ ls) = l ++ newline ∷ unlines ls

-- Bytes of a line that `printf` prints whole.
abbrev pub IsText : List ℕ → Type 0
IsText l = All (λ c. (c ≢ newline) × (c ≢ 0)) l

-- A line that is printed whole and is numbered just if it is not empty.
abbrev IsNumbered : PLine → Type 0
IsNumbered l = IsText l.text × ((l.number == 0) ≡ is_blank l.text)

module _ (decimal : ℕ → List ℕ) where
  -- A line behind its number, if it has one and numbers are asked for, and a blank; and its newline.
  abbrev pub line_text : Bool → PLine → List ℕ
  line_text true l =
      (if is_blank l.text then [] else decimal l.number ++ 32 ∷ []) ++ (l.text ++ newline ∷ [])
  line_text false l = l.text ++ newline ∷ []

  abbrev pub all_texts : Bool → List PLine → List ℕ
  all_texts nflag [] = []
  all_texts nflag (l ∷ ls) = line_text nflag l ++ all_texts nflag ls
