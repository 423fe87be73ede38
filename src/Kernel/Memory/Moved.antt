-- ===== src/Kernel/Memory/Moved.antt =====
-- `memmove`: the block arrives whole however the two blocks overlap, and nothing else changes.
use osn_mp.Common.{
  ℕ, zero, suc, ◌+◌, ◌≤◌, ◌<◌, ◌≡◌, refl, ◌⊎◌, inl, inr, Bool-cases, ltb, ◌==◌, ◌&&◌, sym, ◌∙◌,
  arith, lt-suc-cases,
}
use osn_mp.Common.Arrays.{update, update_self, update_ne}
use osn_mp.Kernel.Memory.{copy_down, copy_up, memmove}

-- `mem'` is `mem` with the `n` bytes from `s` on copied to `d`.
abbrev pub IsMoved : ℕ → ℕ → ℕ → (ℕ → ℕ) → (ℕ → ℕ) → Type 0
IsMoved d s n mem mem' =
    ((i : ℕ) → i < n → mem' (d + i) ≡ mem (s + i)) × ((a : ℕ) → a < d ⊎ d + n ≤ a → mem' a ≡ mem a)

plus_zero : (a : ℕ) → a + 0 ≡ a
plus_zero a = omega arith

plus_one : (a k : ℕ) → a + 1 + k ≡ a + suc k
plus_one a k = omega arith

zero-pred-cases : (i : ℕ) → (i ≡ 0) ⊎ ((k : ℕ) × (i ≡ suc k))
zero-pred-cases zero = inl refl
zero-pred-cases (suc k) = inr (k, refl)

copy_up-outside :
    (d s n : ℕ) (mem : ℕ → ℕ) (a : ℕ) → a < d ⊎ d + n ≤ a → copy_up d s n mem a ≡ mem a
unfolding copy_up
copy_up-outside d s zero mem a h = refl
copy_up-outside d s (suc n) mem a h =
    copy_up-outside (d + 1) (s + 1) n (update mem d (mem s)) a (omega arith)
    ∙ update_ne mem d a (mem s) (omega arith)

copy_up-inside :
    (d s n : ℕ) (mem : ℕ → ℕ)
    → d ≤ s ⊎ s + n ≤ d
    → (i : ℕ) → i < n
    → copy_up d s n mem (d + i) ≡ mem (s + i)
unfolding copy_up
copy_up-inside d s zero mem h i l = omega arith
copy_up-inside d s (suc n) mem h i l =
    let mem' = update mem d (mem s) in
    let last = copy_up-outside (d + 1) (s + 1) n mem' d (omega arith) in
    let first = update_self mem d (mem s) in
    elim (zero-pred-cases i) [
      | inl e ↦ rw (e, plus_zero d, plus_zero s, last) first
      | inr (k, e) ↦
          rw (e, sym (plus_one d k), sym (plus_one s k))
            (copy_up-inside (d + 1) (s + 1) n mem' (omega arith) k (omega arith)
              ∙ update_ne mem d (s + 1 + k) (mem s) (omega arith))
    ]

copy_down-outside :
    (d s n : ℕ) (mem : ℕ → ℕ) (a : ℕ) → a < d ⊎ d + n ≤ a → copy_down d s n mem a ≡ mem a
unfolding copy_down
copy_down-outside d s zero mem a h = refl
copy_down-outside d s (suc n) mem a h =
    copy_down-outside d s n (update mem (d + n) (mem (s + n))) a (omega arith)
    ∙ update_ne mem (d + n) a (mem (s + n)) (omega arith)

copy_down-inside :
    (d s n : ℕ) (mem : ℕ → ℕ) → s ≤ d → (i : ℕ) → i < n → copy_down d s n mem (d + i) ≡ mem (s + i)
unfolding copy_down
copy_down-inside d s zero mem h i l = omega arith
copy_down-inside d s (suc n) mem h i l =
    let mem' = update mem (d + n) (mem (s + n)) in
    elim (lt-suc-cases i n (omega arith)) [
      | inl e ↦
          rw (e, copy_down-outside d s n mem' (d + n) (omega arith))
            (update_self mem (d + n) (mem (s + n)))
      | inr l' ↦
          copy_down-inside d s n mem' h i l'
          ∙ update_ne mem (d + n) (s + i) (mem (s + n)) (omega arith)
    ]

-- `memmove` copies the `n` bytes from `src` on to `dst`, however the two blocks overlap, and
-- changes no other byte.
pub memmove-IsMoved : (dst src n : ℕ) (mem : ℕ → ℕ) → IsMoved dst src n mem (memmove dst src n mem)
unfolding memmove
memmove-IsMoved dst src n mem = elim (Bool-cases (n == 0)) [
  | inl e ↦ rw e (let z : n ≡ 0 = ground arith in (λ i l. omega arith, λ a h. refl))
  | inr e ↦ rw e elim (Bool-cases (ltb src dst && ltb dst (src + n))) [
    | inl o ↦ rw o (copy_down-inside dst src n mem (ground arith), copy_down-outside dst src n mem)
    | inr o ↦ rw o (copy_up-inside dst src n mem (ground arith), copy_up-outside dst src n mem)
  ]
]
