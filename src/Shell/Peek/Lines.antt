-- ===== src/Shell/Peek/Lines.antt =====
-- `print_bytes` prints the lines of a target, forwards or backwards.
use osn_mp.Common.{
  ℕ, suc, ◌+◌, ◌<◌, List, [], ◌∷◌, ◌++◌, Bool, true, false, ltb, ◌==◌, ◌≡◌, ◌≢◌, refl, arith, ap,
  ap₂, subst, sym, ◌∙◌, length, All, All-append, length-append, Bool-cases, inl, inr, append_assoc,
  if◌then◌else◌,
}
use osn_mp.Shell.Peek.{
  PLine, newline, numbered_line, split_lines, ends_with_newline, until_nul, print_line, print_lines,
  print_bytes,
}

-- A text that is one line and that `printf("%s")` prints whole.
abbrev pub IsText : List ℕ → Type 0
IsText = All (λ c. (c ≢ newline) × (c ≢ 0))

until_nul-IsText : (l : List ℕ) → All (λ c. c ≢ 0) l → until_nul l ≡ l
until_nul-IsText [] h = refl
until_nul-IsText (c ∷ r) h =
    let e : (c == 0) ≡ false = ground (arith, h.0) in
    rw e (ap (λ k. c ∷ k) (until_nul-IsText r h.1))

module _ (decimal : ℕ → List ℕ) where
  print_line-plain :
      (ends : Bool) (text : List ℕ) (n : ℕ)
      → All (λ c. c ≢ 0) text
      → print_line decimal false ends (numbered_line text n).0
        ≡ text ++ (if ends then newline ∷ [] else [])
  print_line-plain ends text n h = elim (Bool-cases (length text == 0)) [
    | inl e ↦ rw e (ap (λ k. k ++ (if ends then newline ∷ [] else [])) (until_nul-IsText text h))
    | inr e ↦ rw e (ap (λ k. k ++ (if ends then newline ∷ [] else [])) (until_nul-IsText text h))
  ]

  pub print_lines-more :
      (nflag trailing : Bool) (l : PLine) (ls : List PLine)
      → 0 < length ls
      → print_lines decimal nflag trailing (l ∷ ls)
        ≡ print_line decimal nflag true l ++ print_lines decimal nflag trailing ls
  unfolding print_lines
  print_lines-more nflag trailing l [] p = absurd (omega arith)
  print_lines-more nflag trailing l (l' ∷ r) p = refl

  split_lines-some :
      (bytes text : List ℕ) (n : ℕ)
      → 0 < length bytes + length text
      → 0 < length (split_lines bytes text n).0
  unfolding split_lines
  split_lines-some [] text n p =
      let e : ltb 0 (length text) ≡ true = ground arith in rw e (omega arith)
  split_lines-some (c ∷ r) text n p = elim (Bool-cases (c == newline)) [
    | inl e ↦ rw e (omega arith)
    | inr e ↦
        rw e (split_lines-some r (text ++ c ∷ []) n (omega (arith, length-append text (c ∷ []))))
  ]

  ends_with_newline-other :
      (c : ℕ) (r : List ℕ)
      → (c == newline) ≡ false
      → ends_with_newline (c ∷ r) ≡ ends_with_newline r
  ends_with_newline-other c [] e = e
  ends_with_newline-other c (d ∷ r) e = refl

  All-snoc :
      (text : List ℕ) (c : ℕ) → All (λ c. c ≢ 0) text → c ≢ 0 → All (λ c. c ≢ 0) (text ++ c ∷ [])
  All-snoc text c h p = All-append (λ c. c ≢ 0) text (c ∷ []) h (p, tt)

  last_line :
      (text : List ℕ) (n : ℕ)
      → All (λ c. c ≢ 0) text
      → print_lines decimal false
          (newline == newline)
          ((numbered_line text n).0 ∷ (split_lines [] [] (numbered_line text n).1).0)
        ≡ text ++ newline ∷ []
  unfolding print_lines split_lines
  last_line text n ht = print_line-plain true text n ht

  -- A line that a newline ends, before lines that are printed as they should.
  printed-ended :
      (c : ℕ) (r text : List ℕ) (n : ℕ)
      → (c == newline) ≡ true
      → All (λ c. c ≢ 0) text
      → print_lines decimal false
          (ends_with_newline r)
          (split_lines r [] (numbered_line text n).1).0
        ≡ r
      → print_lines decimal false
          (ends_with_newline (c ∷ r))
          ((numbered_line text n).0 ∷ (split_lines r [] (numbered_line text n).1).0)
        ≡ text ++ c ∷ r
  printed-ended c [] text n e ht ih =
      let same : c ≡ newline = ground arith in
      subst
        (λ (k : ℕ).
          print_lines decimal false (k == newline)
            ((numbered_line text n).0 ∷ (split_lines [] [] (numbered_line text n).1).0)
          ≡ text ++ k ∷ [])
        (sym same) (last_line text n ht)
  printed-ended c (d ∷ r) text n e ht ih =
      let same : newline ≡ c = ground arith in
      let m : ℕ = (numbered_line text n).1 in
      print_lines-more false (ends_with_newline (d ∷ r)) (numbered_line text n).0
        (split_lines (d ∷ r) [] m).0 (split_lines-some (d ∷ r) [] m (omega arith))
      ∙ ap₂ ◌++◌ (print_line-plain true text n ht) ih
      ∙ append_assoc text (newline ∷ []) (d ∷ r)
      ∙ ap (λ (k : ℕ). text ++ k ∷ d ∷ r) same

  printed-split :
      (bytes text : List ℕ) (n : ℕ)
      → All (λ c. c ≢ 0) bytes
      → All (λ c. c ≢ 0) text
      → print_lines decimal false (ends_with_newline bytes) (split_lines bytes text n).0
        ≡ text ++ bytes
  unfolding split_lines print_lines
  printed-split [] [] n hb ht = refl
  printed-split [] (c ∷ r) n hb ht =
      let e : ltb 0 (suc (length r)) ≡ true = ground arith in
      rw e (print_line-plain false (c ∷ r) n ht)
  printed-split (c ∷ r) text n hb ht = elim (Bool-cases (c == newline)) [
    | inl e ↦
        rw e (printed-ended c r text n e ht (printed-split r [] (numbered_line text n).1 hb.1 tt))
    | inr e ↦
        rw (e, ends_with_newline-other c r e)
          (printed-split r (text ++ c ∷ []) n hb.1 (All-snoc text c ht hb.0)
            ∙ append_assoc text (c ∷ []) r)
  ]

  -- Without flags, and where no byte is 0, what is printed of a target is its bytes: a line that is
  -- not ended stays so, and empty lines stay.
  pub print_bytes-plain :
      (bytes : List ℕ) (n : ℕ)
      → All (λ c. c ≢ 0) bytes
      → (print_bytes decimal false false bytes n).0 ≡ bytes
  unfolding print_bytes
  print_bytes-plain [] n h = refl
  print_bytes-plain (c ∷ r) n h =
      let e : (length (c ∷ r) == 0) ≡ false = ground arith in rw e (printed-split (c ∷ r) [] n h tt)
