-- ===== src/Kernel/Memory.antt =====
-- xv6/kernel/string.c. Memory is a function from addresses to bytes; a function returns the memory
-- that it leaves. What it returns besides, its first argument, is left out.
pub mod Moved
pub mod Compared
pub mod Copied
mod Tests
use osn_mp.Common.{
  ℕ, zero, suc, ◌+◌, ◌-◌, ◌%◌, Bool, ◌&&◌, not, Option, none, some, ltb, leb, ◌==◌, if◌then◌else◌,
}
use osn_mp.Common.Int.{ℤ, pos, negsuc}
use osn_mp.Common.Arrays.{update}

-- The loop of `memset` from `i` on, with `m` rounds left; the byte is `c`, cut to a `char`.
unfoldable pub set_from : ℕ → ℕ → ℕ → ℕ → (ℕ → ℕ) → ℕ → ℕ
set_from zero i dst c mem = mem
set_from (suc m) i dst c mem = set_from m (i + 1) dst c (update mem (dst + i) (c % 256))

unfoldable pub memset : ℕ → ℕ → ℕ → (ℕ → ℕ) → ℕ → ℕ
unfolding set_from
memset dst c n mem = set_from n 0 dst c mem

-- The difference of two bytes, as an `int`.
abbrev pub difference : ℕ → ℕ → ℤ
difference a b = if leb b a then pos (a - b) else negsuc (b - a - 1)

unfoldable pub memcmp : ℕ → ℕ → ℕ → (ℕ → ℕ) → ℤ
memcmp v1 v2 zero mem = pos 0
memcmp v1 v2 (suc n) mem =
    let rest = memcmp (v1 + 1) (v2 + 1) n mem in
    if mem v1 == mem v2 then rest else difference (mem v1) (mem v2)

-- `while (n-- > 0) *--d = *--s;` where `d` and `s` are the starts of the two blocks.
unfoldable pub copy_down : ℕ → ℕ → ℕ → (ℕ → ℕ) → ℕ → ℕ
copy_down d s zero mem = mem
copy_down d s (suc n) mem = copy_down d s n (update mem (d + n) (mem (s + n)))

-- `while (n-- > 0) *d++ = *s++;`
unfoldable pub copy_up : ℕ → ℕ → ℕ → (ℕ → ℕ) → ℕ → ℕ
copy_up d s zero mem = mem
copy_up d s (suc n) mem = copy_up (d + 1) (s + 1) n (update mem d (mem s))

unfoldable pub memmove : ℕ → ℕ → ℕ → (ℕ → ℕ) → ℕ → ℕ
unfolding copy_down copy_up
memmove dst src n mem =
    if n == 0
    then mem
    else if ltb src dst && ltb dst (src + n)
    then copy_down dst src n mem
    else copy_up dst src n mem

unfoldable pub memcpy : ℕ → ℕ → ℕ → (ℕ → ℕ) → ℕ → ℕ
unfolding memmove
memcpy dst src n mem = memmove dst src n mem

unfoldable pub strncmp : ℕ → ℕ → ℕ → (ℕ → ℕ) → ℤ
strncmp p q zero mem = pos 0
strncmp p q (suc n) mem =
    let rest = strncmp (p + 1) (q + 1) n mem in
    if not (mem p == 0) && mem p == mem q then rest else difference (mem p) (mem q)

-- The second loop of `strncpy`.
unfoldable pub pad : ℕ → ℕ → (ℕ → ℕ) → ℕ → ℕ
pad s zero mem = mem
pad s (suc n) mem = pad (s + 1) n (update mem s 0)

unfoldable pub strncpy : ℕ → ℕ → ℕ → (ℕ → ℕ) → ℕ → ℕ
unfolding pad
strncpy s t zero mem = mem
strncpy s t (suc n) mem =
    let mem' = update mem s (mem t) in
    let rest = strncpy (s + 1) (t + 1) n mem' in if mem t == 0 then pad (s + 1) n mem' else rest

-- The loop of `safestrcpy` and its last store, with at most `m` bytes to copy.
unfoldable pub copy_string : ℕ → ℕ → ℕ → (ℕ → ℕ) → ℕ → ℕ
copy_string s t zero mem = update mem s 0
copy_string s t (suc m) mem =
    let mem' = update mem s (mem t) in
    let rest = copy_string (s + 1) (t + 1) m mem' in
    if mem t == 0 then update mem' (s + 1) 0 else rest

unfoldable pub safestrcpy : ℕ → ℕ → ℕ → (ℕ → ℕ) → ℕ → ℕ
unfolding copy_string
safestrcpy s t zero mem = mem
safestrcpy s t (suc n) mem = copy_string s t n mem

-- `strlen`, at the count `n`, with at most `fuel` bytes to look at.
unfoldable pub strlen_from : ℕ → ℕ → ℕ → (ℕ → ℕ) → Option ℕ
strlen_from zero n s mem = none
strlen_from (suc fuel) n s mem =
    let rest = strlen_from fuel (n + 1) s mem in if mem (s + n) == 0 then some n else rest

unfoldable pub strlen : ℕ → ℕ → (ℕ → ℕ) → Option ℕ
unfolding strlen_from
strlen fuel s mem = strlen_from fuel 0 s mem
