-- ===== src/Kernel/Memory/Compared.antt =====
-- `strncmp` and `memcmp`: they return 0 exactly where the two blocks agree.
use osn_mp.Common.{ℕ, zero, suc, ◌+◌, ◌≡◌, ◌≢◌, ◌↔◌, arith}
use osn_mp.Common.Int.{pos}
use osn_mp.Kernel.Memory.{memcmp, strncmp, difference}

-- The strings from `p` and `q` on agree in their first `n` bytes, or up to their end.
abbrev pub IsSameString : ℕ → ℕ → ℕ → (ℕ → ℕ) → Type 0
IsSameString p q zero mem = Unit
IsSameString p q (suc n) mem = (mem p ≡ mem q) × (mem p ≢ 0 → IsSameString (p + 1) (q + 1) n mem)

difference-zero : (a b : ℕ) → (difference a b ≡ pos 0) ↔ (a ≡ b)
difference-zero a b = ground arith

-- `strncmp` returns 0 exactly if the strings agree in their first `n` bytes or up to the NUL that
-- ends both.
pub strncmp_iff : (p q n : ℕ) (mem : ℕ → ℕ) → (strncmp p q n mem ≡ pos 0) ↔ IsSameString p q n mem
unfolding strncmp
strncmp_iff p q zero mem = ground arith
strncmp_iff p q (suc n) mem =
    let rest = strncmp_iff (p + 1) (q + 1) n mem in
    let zero_iff = difference-zero (mem p) (mem q) in ground arith

-- The blocks of `n` bytes from `p` and `q` on agree.
abbrev pub IsSameBlock : ℕ → ℕ → ℕ → (ℕ → ℕ) → Type 0
IsSameBlock p q zero mem = Unit
IsSameBlock p q (suc n) mem = (mem p ≡ mem q) × IsSameBlock (p + 1) (q + 1) n mem

-- `memcmp` returns 0 exactly if the two blocks agree.
pub memcmp_iff : (p q n : ℕ) (mem : ℕ → ℕ) → (memcmp p q n mem ≡ pos 0) ↔ IsSameBlock p q n mem
unfolding memcmp
memcmp_iff p q zero mem = ground arith
memcmp_iff p q (suc n) mem =
    let rest = memcmp_iff (p + 1) (q + 1) n mem in
    let zero_iff = difference-zero (mem p) (mem q) in ground arith
