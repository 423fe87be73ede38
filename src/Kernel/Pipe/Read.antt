-- ===== src/Kernel/Pipe/Read.antt =====
-- `piperead` takes bytes from the front of the queue, in order.
use osn_mp.Common.{ℕ, ◌+◌, ◌≤◌, ◌<◌, List, ◌++◌, Bool, false, ◌≡◌, ◌⊎◌, length}
use osn_mp.Common.Int.{pos}
use osn_mp.Kernel.Pipe.{Pipe, oldest, ReadEnd, broken_off}
use osn_mp.Kernel.Pipe.Contents.{len, contents, IsValid}

module _ (killed : Bool) (copyout : ℕ → ℕ → Bool) (addr : ℕ) where
  -- How the copying loop may end, begun with `i` bytes copied, `m` more asked for, and `held` in
  -- the pipe.
  pub data Copied (i m : ℕ) (held : List ℕ) (r : ReadEnd) : Type 0 where
    took :
        (bytes : List ℕ) (pi : Pipe)
        → length bytes ≤ m
        → (length bytes ≡ m) ⊎ (len pi ≡ 0)
        → IsValid pi
        → held ≡ bytes ++ contents pi
        → r ≡ ReadEnd.returned (pos (i + length bytes)) bytes pi
        → Copied i m held r
    fault :
        (bytes : List ℕ) (pi : Pipe)
        → length bytes < m
        → copyout (addr + (i + length bytes)) (oldest pi) ≡ false
        → IsValid pi
        → held ≡ bytes ++ contents pi
        → r ≡ ReadEnd.returned (broken_off (i + length bytes)) bytes pi
        → Copied i m held r
