-- ===== src/Shell/Peek/Flags.antt =====
-- The arguments that `peeking` accepts: flags, then files.
use osn_mp.Common.{
  ℕ, List, [], ◌∷◌, ◌++◌, Bool, true, false, ◌||◌, none, some, ◌≡◌, ◌↔◌, ◌⊎◌, arith, refl, ap, ap₂,
  subst, sym, ◌∙◌, All, Bool-cases, inl, inr,
}
use osn_mp.Shell.Peek.{
  Request, has_dash, flag_letters, has_letter, letters, with_flags, read_files, read_arguments,
}

abbrev pub IsFlags : List ℕ → Type 0
IsFlags arg = (has_dash arg ≡ true) × (flag_letters (letters arg) ≡ true)

abbrev pub IsFile : List ℕ → Type 0
IsFile arg = has_dash arg ≡ false

-- Whether one of the arguments has the letter.
abbrev pub some_has : ℕ → List (List ℕ) → Bool
some_has x [] = false
some_has x (arg ∷ rest) = has_letter x (letters arg) || some_has x rest

pub record Parsed (args : List (List ℕ)) (q : Request) : Type 0 where
  pub flags : List (List ℕ)
  pub split : args ≡ flags ++ q.files
  pub are_flags : All IsFlags flags
  pub are_files : All IsFile q.files
  pub has_n : q.nflag ≡ some_has 110 flags
  pub has_r : q.rflag ≡ some_has 114 flags

read_files_complete : (fs : List (List ℕ)) → All IsFile fs → read_files fs ≡ some fs
unfolding read_files
read_files_complete [] h = refl
read_files_complete (f ∷ fs) h = rw (h.0, read_files_complete fs h.1) refl

read_arguments_complete :
    (flags files : List (List ℕ))
    → All IsFlags flags
    → All IsFile files
    → read_arguments (flags ++ files)
      ≡ some (record { nflag = some_has 110 flags; rflag = some_has 114 flags; files = files })
unfolding read_arguments
read_arguments_complete [] [] h k = refl
read_arguments_complete [] (f ∷ fs) h k = rw (k.0, read_files_complete fs k.1) refl
read_arguments_complete (g ∷ gs) files h k =
    rw (h.0.0, h.0.1, read_arguments_complete gs files h.1 k) refl

read_files-cases :
    (args : List (List ℕ))
    → ((read_files args ≡ some args) × All IsFile args) ⊎ (read_files args ≡ none)
unfolding read_files
read_files-cases [] = inl (refl, tt)
read_files-cases (f ∷ rest) = elim (Bool-cases (has_dash f)) [
  | inl d ↦ inr (rw d refl)
  | inr d ↦ elim (read_files-cases rest) [
    | inl h ↦ inl (rw (d, h.0) refl, (d, h.1))
    | inr h ↦ inr (rw (d, h) refl)
  ]
]

Parsed-more :
    (arg : List ℕ) (rest : List (List ℕ)) (q : Request)
    → IsFlags arg
    → Parsed rest q
    → Parsed (arg ∷ rest) (with_flags arg q)
Parsed-more arg rest q h p = record {
  flags = arg ∷ p.flags;
  split = ap (λ r. arg ∷ r) p.split;
  are_flags = (h, p.are_flags);
  are_files = p.are_files;
  has_n = ap (λ b. has_letter 110 (letters arg) || b) p.has_n;
  has_r = ap (λ b. has_letter 114 (letters arg) || b) p.has_r;
}

read_arguments-cases :
    (args : List (List ℕ))
    → ((q : Request) × ((read_arguments args ≡ some q) × Parsed args q))
      ⊎ (read_arguments args ≡ none)
unfolding read_arguments
read_arguments-cases [] = inl (
  record { nflag = false; rflag = false; files = [] },
  (
    refl,
    record { flags = []; split = refl; are_flags = tt; are_files = tt; has_n = refl; has_r = refl },
  ),
)
read_arguments-cases (arg ∷ rest) = elim (Bool-cases (has_dash arg)) [
  | inl d ↦ elim (Bool-cases (flag_letters (letters arg))) [
    | inl f ↦ elim (read_arguments-cases rest) [
      | inl h ↦
          inl (with_flags arg h.0, (rw (d, f, h.1.0) refl, Parsed-more arg rest h.0 (d, f) h.1.1))
      | inr h ↦ inr (rw (d, f, h) refl)
    ]
    | inr f ↦ inr (rw (d, f) refl)
  ]
  | inr d ↦ elim (read_files-cases rest) [
    | inl h ↦ inl (
      record { nflag = false; rflag = false; files = arg ∷ rest },
      (
        rw (d, h.0) refl,
        record {
          flags = [];
          split = refl;
          are_flags = tt;
          are_files = (d, h.1);
          has_n = refl;
          has_r = refl;
        },
      ),
    )
    | inr h ↦ inr (rw (d, h) refl)
  ]
]

-- `peeking` accepts the arguments just where they are arguments that begin with `-` and go on with the
-- letters n and r only, followed by files, none of which begins with `-` and is longer; then these are
-- the files, and `-n` and `-r` are on if one of the flags has the letter.
pub read_arguments_iff :
    (args : List (List ℕ)) (q : Request) → (read_arguments args ≡ some q) ↔ Parsed args q
read_arguments_iff args q = (sound, complete)
  where
    sound : read_arguments args ≡ some q → Parsed args q
    sound e = elim (read_arguments-cases args) [
      | inl h ↦ let same : h.0 ≡ q = grind arith in subst (Parsed args) same h.1.1
      | inr h ↦ absurd (grind arith)
    ]

    complete : Parsed args q → read_arguments args ≡ some q
    complete p =
        ap read_arguments p.split
        ∙ read_arguments_complete p.flags q.files p.are_flags p.are_files
        ∙ ap₂ (λ n r. some (record { nflag = n; rflag = r; files = q.files })) (sym p.has_n)
            (sym p.has_r)
