-- ===== src/Kernel/Memory/Copied.antt =====
-- `safestrcpy`: the copy is the string or its first `n - 1` bytes, always ended by a NUL, and
-- nothing outside the `n` bytes is written.
use osn_mp.Common.{
  ℕ, zero, suc, ◌+◌, ◌-◌, ◌≤◌, ◌<◌, ◌≡◌, ◌≢◌, ◌⊎◌, inl, inr, Bool-cases, ◌==◌, ◌∙◌, arith,
}
use osn_mp.Common.Arrays.{update, update_self, update_ne}
use osn_mp.Kernel.Memory.{copy_string, safestrcpy}

-- From `s` on, `mem'` has the string that `mem` has from `t` on, or its first `n` bytes and a NUL.
abbrev pub IsCopied : ℕ → ℕ → ℕ → (ℕ → ℕ) → (ℕ → ℕ) → Type 0
IsCopied s t zero mem mem' = mem' s ≡ 0
IsCopied s t (suc n) mem mem' = (mem' s ≡ mem t) × (mem t ≢ 0 → IsCopied (s + 1) (t + 1) n mem mem')

IsCopied-update :
    (s t n : ℕ) (mem mem' : ℕ → ℕ) (a v : ℕ)
    → a < t ⊎ t + n ≤ a
    → IsCopied s t n (update mem a v) mem'
    → IsCopied s t n mem mem'
IsCopied-update s t zero mem mem' a v h c = c
IsCopied-update s t (suc n) mem mem' a v h c =
    let same = update_ne mem a t v (omega arith) in
    (
      c.0 ∙ same,
      λ z. IsCopied-update (s + 1) (t + 1) n mem mem' a v (omega arith) (c.1 (rw same z)),
    )

pred_suc : (n : ℕ) → suc n - 1 ≡ n
pred_suc n = omega arith

copy_string-outside :
    (s t m : ℕ) (mem : ℕ → ℕ) (a : ℕ) → a < s ⊎ s + m < a → copy_string s t m mem a ≡ mem a
unfolding copy_string
copy_string-outside s t zero mem a h = update_ne mem s a 0 (omega arith)
copy_string-outside s t (suc m) mem a h = elim (Bool-cases (mem t == 0)) [
  | inl e ↦ rw e (
      update_ne (update mem s (mem t)) (s + 1) a 0 (omega arith)
      ∙ update_ne mem s a (mem t) (omega arith))
  | inr e ↦ rw e (
      copy_string-outside (s + 1) (t + 1) m (update mem s (mem t)) a (omega arith)
      ∙ update_ne mem s a (mem t) (omega arith))
]

copy_string-IsCopied :
    (s t m : ℕ) (mem : ℕ → ℕ) → t + m < s ⊎ s + m < t → IsCopied s t m mem (copy_string s t m mem)
unfolding copy_string
copy_string-IsCopied s t zero mem h = update_self mem s 0
copy_string-IsCopied s t (suc m) mem h = elim (Bool-cases (mem t == 0)) [
  | inl e ↦
      let z : mem t ≡ 0 = ground arith in
      rw e (
        update_ne (update mem s (mem t)) (s + 1) s 0 (omega arith) ∙ update_self mem s (mem t),
        λ n. absurd (n z),
      )
  | inr e ↦ rw e (
    copy_string-outside (s + 1) (t + 1) m (update mem s (mem t)) s (omega arith)
        ∙ update_self mem s (mem t),
    λ n.
        IsCopied-update (s + 1) (t + 1) m mem (copy_string (s + 1) (t + 1) m (update mem s (mem t)))
          s (mem t) (omega arith)
          (copy_string-IsCopied (s + 1) (t + 1) m (update mem s (mem t)) (omega arith)),
  )
]

-- For blocks of `n` bytes that do not overlap, with `n` not 0, `safestrcpy` leaves at `s` the string
-- at `t`, or its first `n - 1` bytes and a NUL, and changes nothing outside the `n` bytes at `s`.
pub safestrcpy-IsCopied :
    (s t n : ℕ) (mem : ℕ → ℕ)
    → 0 < n
    → t + n ≤ s ⊎ s + n ≤ t
    → IsCopied s t (n - 1) mem (safestrcpy s t n mem)
      × ((a : ℕ) → a < s ⊎ s + n ≤ a → safestrcpy s t n mem a ≡ mem a)
unfolding safestrcpy
safestrcpy-IsCopied s t zero mem p h = omega arith
safestrcpy-IsCopied s t (suc n) mem p h = (
  rw (pred_suc n) (copy_string-IsCopied s t n mem (omega arith)),
  λ a o. copy_string-outside s t n mem a (omega arith),
)
