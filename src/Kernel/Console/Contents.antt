-- ===== src/Kernel/Console/Contents.antt =====
-- The two stretches of the console's buffer: what a reader may take, and the line being typed.
use osn_mp.Common.{
  true, false, ◌==◌, ℕ, ◌+◌, ◌^◌, ◌≤◌, ◌<◌, List, [], ◌∷◌, ◌++◌, ◌≡◌, ◌≢◌, arith, ap, ap₂, All, ◌∙◌,
  subst, sym, suc, refl,
}
use osn_mp.Common.Arrays.{update, update_self}
use osn_mp.Common.Window.{window, window-snoc, window-append, window_ext, window-update}
use osn_mp.Kernel.Console.{Cons, cell, input_buf_size, newline, sub32, next32}

pub cell-step : (h g : ℕ) → cell h ≡ cell g → cell (h + 1) ≡ cell (g + 1)
cell-step h g e = omega arith

pub cell-apart : (h d : ℕ) → 0 < d → d < input_buf_size → cell (h + d) ≢ cell h
cell-apart h d p l = omega arith

-- The bytes of the lines that have been ended, and those of the line being typed.
abbrev pub ended : Cons → List ℕ
ended s = window cell s.buf s.r (sub32 s.w s.r)

abbrev pub line : Cons → List ℕ
line s = window cell s.buf s.w (sub32 s.e s.w)

pub record IsValid (s : Cons) : Type 0 where
  pub r_fits : s.r < 2 ^ 32
  pub w_fits : s.w < 2 ^ 32
  pub e_fits : s.e < 2 ^ 32
  pub bounded : sub32 s.w s.r + sub32 s.e s.w ≤ input_buf_size
  pub one_line : All (λ c. c ≢ newline) (line s)

module _ (s : Cons) (v : IsValid s) where
  pub in_all : sub32 s.e s.r ≡ sub32 s.w s.r + sub32 s.e s.w
  in_all = omega (arith, v.r_fits, v.w_fits, v.e_fits, v.bounded)

  -- A byte stored behind the line touches neither stretch before it.
  module _ (c : ℕ) (room : sub32 s.e s.r < input_buf_size) where
    pub stored-ended : window cell (update s.buf (cell s.e) c) s.r (sub32 s.w s.r) ≡ ended s
    stored-ended =
        let at : cell s.e ≡ cell (s.r + sub32 s.e s.r) = omega (arith, v.r_fits, v.e_fits) in
        subst (λ (k : ℕ). window cell (update s.buf k c) s.r (sub32 s.w s.r) ≡ ended s) (sym at)
          (window-update cell input_buf_size cell-step cell-apart s.buf s.r (sub32 s.w s.r)
            (sub32 s.e s.r) c (omega (arith, in_all)) room)

    pub stored-line :
        window cell (update s.buf (cell s.e) c) s.w (sub32 (next32 s.e) s.w) ≡ line s ++ c ∷ []
    stored-line =
        let at : cell s.e ≡ cell (s.w + sub32 s.e s.w) = omega (arith, v.w_fits, v.e_fits) in
        let longer : sub32 (next32 s.e) s.w ≡ sub32 s.e s.w + 1 =
          omega (arith, v.w_fits, v.e_fits, v.bounded, in_all) in
        rw longer (
          window-snoc cell (update s.buf (cell s.e) c) s.w (sub32 s.e s.w)
          ∙ ap₂ (λ l x. l ++ x ∷ [])
              (subst (λ (k : ℕ). window cell (update s.buf k c) s.w (sub32 s.e s.w) ≡ line s)
                (sym at)
                (window-update cell input_buf_size cell-step cell-apart s.buf s.w (sub32 s.e s.w)
                  (sub32 s.e s.w) c (omega arith) (omega (arith, in_all))))
              (subst (λ (k : ℕ). update s.buf (cell s.e) c k ≡ c) at
                (update_self s.buf (cell s.e) c)))

    -- The whole of it: the ended lines, the line and the new byte.
    pub stored-all :
        window cell (update s.buf (cell s.e) c) s.r (sub32 (next32 s.e) s.r)
        ≡ ended s ++ (line s ++ c ∷ [])
    stored-all =
        let sum : sub32 (next32 s.e) s.r ≡ sub32 s.w s.r + sub32 (next32 s.e) s.w =
          omega (arith, v.r_fits, v.w_fits, v.e_fits, v.bounded, in_all) in
        let same : cell (s.r + sub32 s.w s.r) ≡ cell s.w = omega (arith, v.r_fits, v.w_fits) in
        rw sum (
          window-append cell (update s.buf (cell s.e) c) s.r (sub32 s.w s.r)
            (sub32 (next32 s.e) s.w)
          ∙ ap₂ ◌++◌ stored-ended (
              window_ext cell input_buf_size cell-step cell-apart (update s.buf (cell s.e) c)
                (s.r + sub32 s.w s.r) s.w (sub32 (next32 s.e) s.w) same
              ∙ stored-line))

-- The state behind `cons.r++`.
abbrev pub advanced : Cons → Cons
advanced s = record s { r = next32 s.r }

pub advanced-ended :
    (s : Cons) → IsValid s → (s.r == s.w) ≡ false → ended s ≡ s.buf (cell s.r) ∷ ended (advanced s)
advanced-ended s v ne =
    let more : sub32 s.w s.r ≡ suc (sub32 s.w (next32 s.r)) = ground (arith, v.r_fits, v.w_fits) in
    let cells : window cell s.buf (s.r + 1) (sub32 s.w (next32 s.r)) ≡ ended (advanced s) =
      window_ext cell input_buf_size cell-step cell-apart s.buf (s.r + 1) (next32 s.r)
        (sub32 s.w (next32 s.r)) (omega arith) in
    subst (λ (k : ℕ). window cell s.buf s.r k ≡ s.buf (cell s.r) ∷ ended (advanced s)) (sym more)
      (ap (λ l. s.buf (cell s.r) ∷ l) cells)

pub advanced-IsValid : (s : Cons) → IsValid s → (s.r == s.w) ≡ false → IsValid (advanced s)
advanced-IsValid s v ne = record {
  r_fits = omega arith;
  w_fits = v.w_fits;
  e_fits = v.e_fits;
  bounded = ground (arith, v.r_fits, v.w_fits, v.e_fits, v.bounded);
  one_line = v.one_line;
}

pub none-ended : (s : Cons) → IsValid s → (s.r == s.w) ≡ true → ended s ≡ []
none-ended s v e =
    let z : sub32 s.w s.r ≡ 0 = ground (arith, v.r_fits, v.w_fits) in
    subst (λ (k : ℕ). window cell s.buf s.r k ≡ []) (sym z) refl
