-- ===== src/Kernel/Pipe/Contents.antt =====
-- The bytes that a pipe holds, oldest first: a queue of at most `PIPESIZE` bytes.
use osn_mp.Common.{
  ℕ, zero, suc, ◌+◌, ◌-◌, ◌%◌, ◌^◌, ◌≤◌, ◌<◌, List, [], ◌∷◌, ◌++◌, true, false, ◌≡◌, ◌≢◌, refl,
  arith, ap, ap₂, length, ◌↔◌, ◌∙◌, subst,
}
use osn_mp.Common.Arrays.{update, update_ne, update_self}
use osn_mp.Kernel.Pipe.{Pipe, pipe_size, is_empty, is_full, store_byte, drop_byte, oldest}

-- The `n` bytes from the counter `h` on.
abbrev pub window : (ℕ → ℕ) → ℕ → ℕ → List ℕ
window b h zero = []
window b h (suc n) = b (h % pipe_size) ∷ window b (h + 1) n

-- `nwrite - nread`, as a `uint`.
abbrev pub len : Pipe → ℕ
len pi = (pi.nwrite + 2 ^ 32 - pi.nread) % 2 ^ 32

abbrev pub contents : Pipe → List ℕ
contents pi = window pi.buffer pi.nread (len pi)

pub record IsValid (pi : Pipe) : Type 0 where
  pub read_fits : pi.nread < 2 ^ 32
  pub write_fits : pi.nwrite < 2 ^ 32
  pub bounded : len pi ≤ pipe_size

pub length-window : (b : ℕ → ℕ) (h n : ℕ) → length (window b h n) ≡ n
length-window b h zero = refl
length-window b h (suc n) = ap suc (length-window b (h + 1) n)

-- Counters that name the same cell name the same bytes behind it.
window-mod : (b : ℕ → ℕ) (h g n : ℕ) → h % pipe_size ≡ g % pipe_size → window b h n ≡ window b g n
window-mod b h g zero e = refl
window-mod b h g (suc n) e = ap₂ ◌∷◌ (ap b e) (window-mod b (h + 1) (g + 1) n (omega arith))

window-snoc :
    (b : ℕ → ℕ) (h n : ℕ) → window b h (suc n) ≡ window b h n ++ b ((h + n) % pipe_size) ∷ []
window-snoc b h zero = ap (λ k. b (k % pipe_size) ∷ []) (omega arith)
window-snoc b h (suc n) =
    ap (λ r. b (h % pipe_size) ∷ r)
      (window-snoc b (h + 1) n
        ∙ ap (λ k. window b (h + 1) n ++ b (k % pipe_size) ∷ []) (omega arith))

window-update :
    (b : ℕ → ℕ) (h n d v : ℕ)
    → n ≤ d
    → d < pipe_size
    → window (update b ((h + d) % pipe_size) v) h n ≡ window b h n
window-update b h zero d v le lt = refl
window-update b h (suc n) (zero) v le lt = absurd (omega arith)
window-update b h (suc n) (suc d) v le lt =
    ap₂ ◌∷◌ (update_ne b ((h + suc d) % pipe_size) (h % pipe_size) v (omega arith)) (
      subst (λ (k : ℕ). window (update b (k % pipe_size) v) (h + 1) n ≡ window b (h + 1) n)
        (omega arith) (window-update b (h + 1) n d v (omega arith) (omega arith)))

-- What a queue of bytes promises for the two steps on the counters: storing a byte in a pipe that
-- is not full appends it, and keeps the pipe valid.
pub store_byte-contents :
    (ch : ℕ) (pi : Pipe)
    → IsValid pi
    → len pi < pipe_size
    → (contents (store_byte ch pi) ≡ contents pi ++ ch ∷ []) × IsValid (store_byte ch pi)
unfolding store_byte
store_byte-contents ch pi v h = (appended, omega (arith, v.read_fits, v.write_fits))
  where
    longer : len (store_byte ch pi) ≡ suc (len pi)
    longer = omega (arith, v.read_fits, v.write_fits)

    cell : pi.nwrite % pipe_size ≡ (pi.nread + len pi) % pipe_size
    cell = omega (arith, v.read_fits, v.write_fits)

    appended : contents (store_byte ch pi) ≡ contents pi ++ ch ∷ []
    appended =
        ap (λ n. window (update pi.buffer (pi.nwrite % pipe_size) ch) pi.nread n) longer
        ∙ ap (λ c. window (update pi.buffer c ch) pi.nread (suc (len pi))) cell
        ∙ (window-snoc (update pi.buffer ((pi.nread + len pi) % pipe_size) ch) pi.nread (len pi)
            ∙ ap₂ (λ r c. r ++ c ∷ [])
                (window-update pi.buffer pi.nread (len pi) (len pi) ch (omega arith) h)
                (update_self pi.buffer ((pi.nread + len pi) % pipe_size) ch))

-- Dropping a byte from a pipe that is not empty removes the oldest one.
pub drop_byte-contents :
    (pi : Pipe)
    → IsValid pi
    → is_empty pi ≡ false
    → (contents pi ≡ oldest pi ∷ contents (drop_byte pi)) × IsValid (drop_byte pi)
unfolding drop_byte
drop_byte-contents pi v h = (removed, omega (arith, v.read_fits, v.write_fits, shorter))
  where
    differ : pi.nread ≢ pi.nwrite
    differ = ground arith

    shorter : len pi ≡ suc (len (drop_byte pi))
    shorter = omega (arith, v.read_fits, v.write_fits, differ)

    removed : contents pi ≡ oldest pi ∷ contents (drop_byte pi)
    removed = rw shorter (
        ap (λ r. oldest pi ∷ r)
          (window-mod pi.buffer (pi.nread + 1) ((pi.nread + 1) % 2 ^ 32) (len (drop_byte pi))
            (omega arith)))

-- The two tests of the code say that the queue is empty and that it is full.
pub is_full_iff : (pi : Pipe) → IsValid pi → (is_full pi ≡ true) ↔ (len pi ≡ pipe_size)
is_full_iff pi v = ground (arith, v.read_fits, v.write_fits)

pub is_empty_iff : (pi : Pipe) → IsValid pi → (is_empty pi ≡ true) ↔ (len pi ≡ 0)
is_empty_iff pi v = ground (arith, v.read_fits, v.write_fits)
