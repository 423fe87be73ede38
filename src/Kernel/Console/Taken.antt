-- ===== src/Kernel/Console/Taken.antt =====
-- `consoleread` takes from the ended lines.
use osn_mp.Common.{
  ℕ, ◌+◌, ◌-◌, ◌<◌, List, [], ◌∷◌, ◌++◌, Bool, false, ltb, ◌≡◌, ◌≢◌, length, All, if◌then◌else◌,
}
use osn_mp.Common.Int.{pos, minus_one}
use osn_mp.Kernel.Console.{Cons, newline, control_d, ReadEnd, Reading}
use osn_mp.Kernel.Console.Contents.{ended, line, IsValid}

-- A byte that does not end a read.
abbrev pub IsPlain : ℕ → Type 0
IsPlain c = (c ≢ newline) × (c ≢ control_d)

module _ (killed : Bool) (copyout : ℕ → ℕ → Bool) (target : ℕ) where
  -- What a stretch with `n` bytes to go, for the address `dst`, makes of the ended bytes `held`:
  -- how it stops, by its end, the bytes it delivers and the ended bytes it leaves. `more` is the
  -- number of bytes still to go then.
  pub data Taken (n dst : ℕ) (held : List ℕ) : ReadEnd → List ℕ → List ℕ → Type 0 where
    full :
        (bytes left : List ℕ)
        → All IsPlain bytes
        → length bytes ≡ n
        → held ≡ bytes ++ left
        → Taken n dst held (ReadEnd.returned (pos target)) bytes left
    whole_line :
        (bytes left : List ℕ) (more : ℕ)
        → All IsPlain bytes
        → more + 1 + length bytes ≡ n
        → held ≡ bytes ++ newline ∷ left
        → Taken n dst held (ReadEnd.returned (pos (target - more))) (bytes ++ newline ∷ []) left
    end_of_file :
        (bytes left : List ℕ) (more : ℕ)
        → All IsPlain bytes
        → 0 < more
        → more + length bytes ≡ n
        → held ≡ bytes ++ control_d ∷ left
        → Taken n dst held
            (ReadEnd.returned (pos (target - more)))
            bytes
            (if ltb more target then control_d ∷ left else left)
    fault :
        (bytes : List ℕ) (c : ℕ) (left : List ℕ) (more : ℕ)
        → All IsPlain bytes
        → 0 < more
        → more + length bytes ≡ n
        → c ≢ control_d
        → copyout (dst + length bytes) c ≡ false
        → held ≡ bytes ++ c ∷ left
        → Taken n dst held (ReadEnd.returned (pos (target - more))) bytes left
    no_more :
        (bytes : List ℕ) (more : ℕ)
        → All IsPlain bytes
        → 0 < more
        → more + length bytes ≡ n
        → held ≡ bytes
        → Taken n dst held
            (if killed then ReadEnd.returned minus_one else ReadEnd.waiting more)
            bytes
            []

  -- What holds behind a stretch, begun in `s`.
  pub record IsTaken (n dst : ℕ) (s : Cons) (t : Reading) : Type 0 where
    pub outcome : Taken n dst (ended s) t.end t.bytes (ended t.state)
    pub same_line : line t.state ≡ line s
    pub valid : IsValid t.state
