-- ===== src/Kernel/Pipe/Write.antt =====
-- `pipewrite` appends bytes of user memory, in order.
use osn_mp.Common.{
  ℕ, suc, ◌+◌, ◌<◌, List, [], ◌∷◌, ◌++◌, Bool, true, false, Option, none, some, ◌≡◌, ◌⊎◌,
}
use osn_mp.Common.Int.{pos}
use osn_mp.Kernel.Pipe.{Pipe, pipe_size, WriteEnd, broken_off}
use osn_mp.Kernel.Pipe.Contents.{len, contents, IsValid}

module _ (killed : ℕ → Bool) (copyin : ℕ → Option ℕ) (addr : ℕ) where
  -- The bytes at `addr + i` and on, `k` of them, all readable, as a list.
  pub data Bytes : ℕ → ℕ → List ℕ → Type 0 where
    nothing : {i : ℕ} → Bytes i 0 []
    more :
        {i k ch : ℕ} {bytes : List ℕ}
        → copyin (addr + i) ≡ some ch
        → Bytes (i + 1) k bytes
        → Bytes i (suc k) (ch ∷ bytes)

  -- How a stretch that began with `i` of `i + m` bytes written, the pipe then holding `held`, may
  -- end with `k` more of them written: `bytes`.
  pub data Written (i m : ℕ) (held : List ℕ) (w : WriteEnd) : Type 0 where
    all :
        (bytes : List ℕ) (pi : Pipe)
        → Bytes i m bytes
        → IsValid pi
        → contents pi ≡ held ++ bytes
        → w ≡ WriteEnd.returned (pos (i + m)) pi
        → Written i m held w
    fault :
        (k : ℕ) (bytes : List ℕ) (pi : Pipe)
        → k < m
        → Bytes i k bytes
        → copyin (addr + (i + k)) ≡ none
        → IsValid pi
        → contents pi ≡ held ++ bytes
        → w ≡ WriteEnd.returned (broken_off (i + k)) pi
        → Written i m held w
    refused :
        (k : ℕ) (bytes : List ℕ) (pi : Pipe)
        → k < m
        → Bytes i k bytes
        → (pi.readopen ≡ false) ⊎ (killed (i + k) ≡ true)
        → IsValid pi
        → contents pi ≡ held ++ bytes
        → w ≡ WriteEnd.refused pi
        → Written i m held w
    full :
        (k : ℕ) (bytes : List ℕ) (pi : Pipe)
        → k < m
        → Bytes i k bytes
        → len pi ≡ pipe_size
        → IsValid pi
        → contents pi ≡ held ++ bytes
        → w ≡ WriteEnd.waiting (i + k) pi
        → Written i m held w
