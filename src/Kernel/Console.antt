-- ===== src/Kernel/Console.antt =====
-- xv6/kernel/console.c: `consoleintr`, which edits the line being typed, and `consoleread`, up to its
-- `sleep`, each under `cons.lock`. `r`, `w` and `e` are `uint`. What `consputc` is called with is part
-- of the result of `consoleintr`, and so is whether it calls `wakeup(&cons.r)`; `procdump` only prints.
pub mod Contents
pub mod Terminal
pub mod Typed
pub mod Taken
mod Tests
use osn_mp.Common.{
  ℕ, zero, suc, ◌+◌, ◌-◌, ◌%◌, ◌^◌, List, [], ◌∷◌, Bool, true, false, ◌&&◌, ◌||◌, not, ltb, ◌==◌,
  if◌then◌else◌,
}
use osn_mp.Common.Int.{ℤ, pos, minus_one}
use osn_mp.Common.Arrays.{update}

abbrev pub input_buf_size : ℕ
input_buf_size = 128

-- `C('D')`, `C('H')`, `C('P')`, `C('U')`, the delete key and BACKSPACE
abbrev pub control_d : ℕ
control_d = 4

abbrev pub control_h : ℕ
control_h = 8

abbrev pub control_p : ℕ
control_p = 16

abbrev pub control_u : ℕ
control_u = 21

abbrev pub delete_key : ℕ
delete_key = 127

abbrev pub newline : ℕ
newline = 10

abbrev pub backspace : ℕ
backspace = 0x100

-- `cons`
pub record Cons : Type 0 where
  pub buf : ℕ → ℕ
  pub r : ℕ
  pub w : ℕ
  pub e : ℕ

-- `a - b` and `a + 1` on `uint`
abbrev pub sub32 : ℕ → ℕ → ℕ
sub32 a b = (a + 2 ^ 32 - b) % 2 ^ 32

abbrev pub next32 : ℕ → ℕ
next32 a = (a + 1) % 2 ^ 32

abbrev pub cell : ℕ → ℕ
cell a = a % input_buf_size

-- The state, what is echoed and whether the reader is woken.
pub record Typing : Type 0 where
  pub state : Cons
  pub echo : List ℕ
  pub woken : Bool

abbrev pub echoed : ℕ → Typing → Typing
echoed c t = record t { echo = c ∷ t.echo }

-- The loop behind `C('U')`, with at most `fuel` rounds.
unfoldable pub kill_line : ℕ → Cons → Typing
kill_line zero s = record { state = s; echo = []; woken = false }
kill_line (suc fuel) s =
    let rest = echoed backspace (kill_line fuel (record s { e = sub32 s.e 1 })) in
    if not (s.e == s.w) && not (s.buf (cell (sub32 s.e 1)) == newline)
    then rest
    else record { state = s; echo = []; woken = false }

abbrev pub erase : Cons → Typing
erase s =
    if s.e == s.w
    then record { state = s; echo = []; woken = false }
    else record { state = record s { e = sub32 s.e 1 }; echo = backspace ∷ []; woken = false }

-- A byte that is stored: `\r` is `\n`.
abbrev pub line_byte : ℕ → ℕ
line_byte c = if c == 13 then newline else c

abbrev pub ends_line : ℕ → Bool
ends_line c = c == newline || c == control_d

abbrev pub store : ℕ → Cons → Typing
store c s =
    let s' = record s { buf = update s.buf (cell s.e) c; e = next32 s.e } in
    if ends_line c || sub32 (next32 s.e) s.r == input_buf_size
    then record { state = record s' { w = next32 s.e }; echo = c ∷ []; woken = true }
    else record { state = s'; echo = c ∷ []; woken = false }

unfoldable pub consoleintr : ℕ → Cons → Typing
consoleintr c s =
    if c == control_p
    then record { state = s; echo = []; woken = false }
    else if c == control_u
    then kill_line input_buf_size s
    else if c == control_h || c == delete_key
    then erase s
    else if not (c == 0) && ltb (sub32 s.e s.r) input_buf_size
    then store (line_byte c) s
    else record { state = s; echo = []; woken = false }

-- How a stretch of `consoleread` ends: with its return value, or asleep with `n` bytes to go.
pub data ReadEnd : Type 0 where
  returned : ℤ → ReadEnd
  waiting : ℕ → ReadEnd

-- The bytes that reached the reader, the end and the state.
pub record Reading : Type 0 where
  pub bytes : List ℕ
  pub end : ReadEnd
  pub state : Cons

abbrev pub deliver : ℕ → Reading → Reading
deliver c t = record t { bytes = c ∷ t.bytes }

module _ (killed : Bool) (copyout : ℕ → ℕ → Bool) (target : ℕ) where
  -- The loop of `consoleread` with `n` bytes to go.
  unfoldable pub consoleread : ℕ → ℕ → Cons → Reading
  consoleread zero dst s = record { bytes = []; end = ReadEnd.returned (pos target); state = s }
  consoleread (suc m) dst s =
      let c = s.buf (cell s.r) in
      let s' = record s { r = next32 s.r } in
      let got = ReadEnd.returned (pos (target - suc m)) in
      let rest = deliver c (consoleread m (dst + 1) s') in
      if s.r == s.w
      then record {
        bytes = [];
        end = if killed then ReadEnd.returned minus_one else ReadEnd.waiting (suc m);
        state = s;
      }
      else if c == control_d
      then record { bytes = []; end = got; state = if ltb (suc m) target then s else s' }
      else if not (copyout dst c)
      then record { bytes = []; end = got; state = s' }
      else if c == newline
      then record { bytes = c ∷ []; end = ReadEnd.returned (pos (target - m)); state = s' }
      else rest
