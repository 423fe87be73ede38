-- ===== src/Kernel/Console/Tests.antt =====
-- Runs of the console, and the theorems at them.
use osn_mp.Common.{ℕ, ◌-◌, [], ◌∷◌, Bool, true, false, ◌==◌, ◌≡◌, refl, arith, if◌then◌else◌, ◌^◌}
use osn_mp.Common.Int.{pos}
use osn_mp.Kernel.Console.{
  Cons, newline, control_d, control_h, control_u, backspace, consoleintr, consoleread, kill_line,
  ReadEnd,
}
use osn_mp.Kernel.Console.Contents.{ended, line, IsValid}
use osn_mp.Kernel.Console.Terminal.{Agrees, typed}
use osn_mp.Kernel.Console.Typed.{consoleintr-Agrees}

-- "hi\n" is ended and "xy" is being typed; the counters have wrapped behind the first byte.
abbrev busy : Cons
busy = record {
  buf = λ i.
      if i == 127
      then 104
      else if i == 0
      then 105
      else if i == 1
      then newline
      else if i == 2
      then 120
      else 121;
  r = 2 ^ 32 - 1;
  w = 2;
  e = 4;
}

busy-ended : ended busy ≡ 104 ∷ 105 ∷ newline ∷ []
busy-ended = refl

busy-line : line busy ≡ 120 ∷ 121 ∷ []
busy-line = refl

busy-IsValid : IsValid busy
busy-IsValid = record {
  r_fits = omega arith;
  w_fits = omega arith;
  e_fits = omega arith;
  bounded = omega arith;
  one_line = ((λ e. ground arith), ((λ e. ground arith), tt));
}

killed_line : (consoleintr control_u busy).echo ≡ backspace ∷ backspace ∷ []
unfolding consoleintr kill_line
killed_line = refl

erased : line (consoleintr control_h busy).state ≡ 120 ∷ []
unfolding consoleintr
erased = refl

abbrev writable : ℕ → ℕ → Bool
writable a c = true

one_line_at_a_time : (consoleread false writable 100 100 0 busy).bytes ≡ 104 ∷ 105 ∷ newline ∷ []
unfolding consoleread
one_line_at_a_time = refl

bytes_counted : (consoleread false writable 100 100 0 busy).end ≡ ReadEnd.returned (pos 3)
unfolding consoleread
bytes_counted = refl

-- A ^D behind two bytes stays for the next call.
abbrev ending : Cons
ending = record busy { buf = λ i. if i == 1 then control_d else busy.buf i }

kept_for_later : ended (consoleread false writable 100 100 0 ending).state ≡ control_d ∷ []
unfolding consoleread
kept_for_later = refl

consoleintr-Agrees_example :
    Agrees (consoleintr newline busy) (typed newline (ended busy) (line busy))
consoleintr-Agrees_example = consoleintr-Agrees newline busy busy-IsValid
