-- ===== src/Kernel/Console/Terminal.antt =====
-- A terminal that keeps the ended lines and the line being typed as two lists, and the loop of
-- `consoleintr` (xv6/kernel/console.c) that kills a line.
use osn_mp.Common.{
  ℕ, zero, suc, ◌+◌, ◌^◌, ◌≤◌, ◌<◌, List, [], ◌∷◌, ◌++◌, Bool, true, false, ◌&&◌, ◌||◌, not, ltb,
  ◌==◌, ◌≡◌, ◌≢◌, refl, arith, ap, length, All, ◌∙◌, subst, sym, replicate, if◌then◌else◌,
}
use osn_mp.Common.Window.{window, window-snoc}
use osn_mp.Kernel.Console.{
  Cons, Typing, cell, input_buf_size, newline, backspace, control_h, control_p, control_u,
  delete_key, sub32, echoed, kill_line, line_byte, ends_line,
}
use osn_mp.Kernel.Console.Contents.{ended, line, IsValid}

pub record Terminal : Type 0 where
  pub done : List ℕ
  pub line : List ℕ
  pub echo : List ℕ
  pub woken : Bool

abbrev pub drop_last : List ℕ → List ℕ
drop_last [] = []
drop_last (x ∷ []) = []
drop_last (x ∷ y ∷ r) = x ∷ drop_last (y ∷ r)

-- A byte that is stored ends the line, by itself or because the buffer is full, or adds to it.
abbrev pub put : ℕ → List ℕ → List ℕ → Terminal
put c done line =
    if ends_line c || length done + length line + 1 == input_buf_size
    then record { done = done ++ (line ++ c ∷ []); line = []; echo = c ∷ []; woken = true }
    else record { done = done; line = line ++ c ∷ []; echo = c ∷ []; woken = false }

abbrev pub typed : ℕ → List ℕ → List ℕ → Terminal
typed c done line =
    if c == control_p
    then record { done = done; line = line; echo = []; woken = false }
    else if c == control_u
    then record { done = done; line = []; echo = replicate (length line) backspace; woken = false }
    else if c == control_h || c == delete_key
    then record {
      done = done;
      line = drop_last line;
      echo = if length line == 0 then [] else backspace ∷ [];
      woken = false;
    }
    else if not (c == 0) && ltb (length done + length line) input_buf_size
    then put (line_byte c) done line
    else record { done = done; line = line; echo = []; woken = false }

pub drop_last-snoc : (xs : List ℕ) (x : ℕ) → drop_last (xs ++ x ∷ []) ≡ xs
drop_last-snoc [] x = refl
drop_last-snoc (y ∷ []) x = refl
drop_last-snoc (y ∷ z ∷ r) x = ap (λ l. y ∷ l) (drop_last-snoc (z ∷ r) x)

pub All-snoc :
    (xs : List ℕ) (x : ℕ)
    → All (λ c. c ≢ newline) (xs ++ x ∷ [])
    → All (λ c. c ≢ newline) xs × (x ≢ newline)
All-snoc [] x h = (tt, h.0)
All-snoc (y ∷ ys) x h = let (a, b) = All-snoc ys x h.1 in ((h.0, a), b)

-- One byte less in the line.
module _ (s : Cons) (k : ℕ) (w_fits : s.w < 2 ^ 32) (e_fits : s.e < 2 ^ 32)
    (size : sub32 s.e s.w ≡ suc k) where
  pub size_less : sub32 (sub32 s.e 1) s.w ≡ k
  size_less = omega arith

  pub last_cell : cell (sub32 s.e 1) ≡ cell (s.w + k)
  last_cell = omega arith

  pub line_snoc :
      window cell s.buf s.w (suc k) ≡ window cell s.buf s.w k ++ s.buf (cell (sub32 s.e 1)) ∷ []
  line_snoc =
      let one_up : suc k ≡ k + 1 = omega arith in
      ap (window cell s.buf s.w) one_up
      ∙ (window-snoc cell s.buf s.w k
          ∙ ap (λ c. window cell s.buf s.w k ++ s.buf c ∷ []) (sym last_cell))

pub kill_line_lem :
    (fuel k : ℕ) (s : Cons)
    → s.w < 2 ^ 32
    → s.e < 2 ^ 32
    → sub32 s.e s.w ≡ k
    → k ≤ fuel
    → All (λ c. c ≢ newline) (window cell s.buf s.w k)
    → kill_line fuel s
      ≡ record { state = record s { e = s.w }; echo = replicate k backspace; woken = false }
unfolding kill_line
kill_line_lem zero zero s w e size le h =
    let same : s.e ≡ s.w = omega arith in
    ap (λ (x : ℕ). record { state = record s { e = x }; echo = []; woken = false }) same
kill_line_lem (suc fuel) zero s w e size le h =
    let same : s.e ≡ s.w = omega arith in
    let stops : (not (s.e == s.w) && not (s.buf (cell (sub32 s.e 1)) == newline)) ≡ false =
      ground arith in
    rw stops (ap (λ (x : ℕ). record { state = record s { e = x }; echo = []; woken = false }) same)
kill_line_lem zero (suc k) s w e size le h = absurd (omega arith)
kill_line_lem (suc fuel) (suc k) s w e size le h =
    let (h', n) =
      All-snoc (window cell s.buf s.w k) (s.buf (cell (sub32 s.e 1)))
        (subst (All (λ c. c ≢ newline)) (line_snoc s k w e size) h) in
    let rest =
      kill_line_lem fuel k (record s { e = sub32 s.e 1 }) w (omega arith) (size_less s k w e size)
        (omega arith) h' in
    let goes_on : (not (s.e == s.w) && not (s.buf (cell (sub32 s.e 1)) == newline)) ≡ true =
      ground (arith, n) in
    rw goes_on (ap (echoed backspace) rest)

-- What a key comes to: the state is valid and shows what the terminal has, with its echo.
pub record Agrees (t : Typing) (x : Terminal) : Type 0 where
  pub valid : IsValid t.state
  pub done : ended t.state ≡ x.done
  pub line : line t.state ≡ x.line
  pub echo : t.echo ≡ x.echo
  pub woken : t.woken ≡ x.woken
