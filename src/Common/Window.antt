-- ===== src/Common/Window.antt =====
-- A stretch of a circular buffer: the values that `n` counters from `h` on name, by the cell of each.
use Prim.Native.Nat.{ℕ, zero, suc, ◌+◌, ◌≤◌, ◌<◌}
use mathlib.Core.Path.{◌≡◌, refl, ap, ap₂, subst, ◌∙◌}
use mathlib.Core.Logic.{◌≢◌}
use mathlib.Core.List.{List, [], ◌∷◌, ◌++◌}
use native.Mathlib.Omega.{arith}
use osn_mp.Common.Lists.{length}
use osn_mp.Common.Arrays.{update, update_ne}

abbrev pub window : (ℕ → ℕ) → (ℕ → ℕ) → ℕ → ℕ → List ℕ
window cell b h zero = []
window cell b h (suc n) = b (cell h) ∷ window cell b (h + 1) n

pub length-window : (cell b : ℕ → ℕ) (h n : ℕ) → length (window cell b h n) ≡ n
length-window cell b h zero = refl
length-window cell b h (suc n) = ap suc (length-window cell b (h + 1) n)

pub window-append :
    (cell b : ℕ → ℕ) (h n m : ℕ)
    → window cell b h (n + m) ≡ window cell b h n ++ window cell b (h + n) m
window-append cell b h zero m = ap₂ (window cell b) (omega arith) (omega arith)
window-append cell b h (suc n) m =
    let longer : suc (n + m) ≡ suc n + m = omega arith in
    let next : h + 1 + n ≡ h + suc n = omega arith in
    subst
      (λ (k : ℕ).
        window cell b h k ≡ b (cell h) ∷ (window cell b (h + 1) n ++ window cell b (h + suc n) m))
      longer
      (ap (λ r. b (cell h) ∷ r)
        (window-append cell b (h + 1) n m
          ∙ ap (λ k. window cell b (h + 1) n ++ window cell b k m) next))

pub window-snoc :
    (cell b : ℕ → ℕ) (h n : ℕ)
    → window cell b h (n + 1) ≡ window cell b h n ++ b (cell (h + n)) ∷ []
window-snoc cell b h n = window-append cell b h n 1

module _ (cell : ℕ → ℕ) (size : ℕ)
    (step : (h g : ℕ) → cell h ≡ cell g → cell (h + 1) ≡ cell (g + 1))
    (apart : (h d : ℕ) → 0 < d → d < size → cell (h + d) ≢ cell h) where
  -- Counters that name the same cell name the same values behind it.
  pub window_ext : (b : ℕ → ℕ) (h g n : ℕ) → cell h ≡ cell g → window cell b h n ≡ window cell b g n
  window_ext b h g zero e = refl
  window_ext b h g (suc n) e = ap₂ ◌∷◌ (ap b e) (window_ext b (h + 1) (g + 1) n (step h g e))

  -- A store at a cell that is not in the stretch.
  pub window-update :
      (b : ℕ → ℕ) (h n d v : ℕ)
      → n ≤ d
      → d < size
      → window cell (update b (cell (h + d)) v) h n ≡ window cell b h n
  window-update b h zero d v le lt = refl
  window-update b h (suc n) zero v le lt = absurd (omega arith)
  window-update b h (suc n) (suc d) v le lt =
      ap₂ ◌∷◌ (update_ne b (cell (h + suc d)) (cell h) v (apart h (suc d) (omega arith) lt)) (
        subst (λ (k : ℕ). window cell (update b (cell k) v) (h + 1) n ≡ window cell b (h + 1) n)
          (omega arith) (window-update b (h + 1) n d v (omega arith) (omega arith)))
