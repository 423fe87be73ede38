-- ===== src/Kernel/Memory/Tests.antt =====
-- Runs of the functions of xv6/kernel/string.c, and the theorems on them at concrete memories.
use osn_mp.Common.{ℕ, ◌≡◌, List, [], ◌∷◌, some, refl, get_or, map}
use osn_mp.Common.Int.{pos, negsuc}
use osn_mp.Kernel.Memory.{memset, memcmp, memmove, memcpy, strncmp, strncpy, safestrcpy, strlen}
use osn_mp.Kernel.Memory.Moved.{IsMoved, memmove-IsMoved}

-- "init" and a NUL at 0, "inode" and a NUL at 8
abbrev memory : ℕ → ℕ
memory i =
    get_or (b'i' ∷ b'n' ∷ b'i' ∷ b't' ∷ 0 ∷ 7 ∷ 7 ∷ 7 ∷ b'i' ∷ b'n' ∷ b'o' ∷ b'd' ∷ b'e' ∷ 0 ∷ []) i
      9

abbrev shown : (ℕ → ℕ) → List ℕ
shown mem = map mem (0 ∷ 1 ∷ 2 ∷ 3 ∷ 4 ∷ 5 ∷ 6 ∷ [])

moved_up : shown (memmove 2 0 4 memory) ≡ b'i' ∷ b'n' ∷ b'i' ∷ b'n' ∷ b'i' ∷ b't' ∷ 7 ∷ []
unfolding memmove
moved_up = refl

copied_down : shown (memcpy 0 2 4 memory) ≡ b'i' ∷ b't' ∷ 0 ∷ 7 ∷ 0 ∷ 7 ∷ 7 ∷ []
unfolding memcpy memmove
copied_down = refl

filled : shown (memset 1 257 3 memory) ≡ b'i' ∷ 1 ∷ 1 ∷ 1 ∷ 0 ∷ 7 ∷ 7 ∷ []
unfolding memset
filled = refl

padded : shown (strncpy 0 11 6 memory) ≡ b'd' ∷ b'e' ∷ 0 ∷ 0 ∷ 0 ∷ 0 ∷ 7 ∷ []
unfolding strncpy
padded = refl

cut_off : shown (safestrcpy 0 8 4 memory) ≡ b'i' ∷ b'n' ∷ b'o' ∷ 0 ∷ 0 ∷ 7 ∷ 7 ∷ []
unfolding safestrcpy
cut_off = refl

compared : strncmp 0 8 5 memory ≡ negsuc 5
unfolding strncmp
compared = refl

same_start : memcmp 0 8 2 memory ≡ pos 0
unfolding memcmp
same_start = refl

measured : strlen 9 8 memory ≡ some 5
unfolding strlen
measured = refl

memmove-IsMoved_example : IsMoved 2 0 4 memory (memmove 2 0 4 memory)
memmove-IsMoved_example = memmove-IsMoved 2 0 4 memory
