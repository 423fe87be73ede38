-- ===== src/Kernel/Proc/Exit/Reaped.antt =====
-- How a round of `kwait` ends.
use osn_mp.Common.{ℕ, ◌+◌, ◌≤◌, ◌<◌, Bool, true, false, none, ◌≡◌, ◌≢◌, ◌⊎◌}
use osn_mp.Kernel.Proc.{unused, Table, Kernel, nproc, is_zombie}
use osn_mp.Kernel.Proc.Sleep.{sleep_prepare}
use osn_mp.Kernel.Proc.Exit.{is_child, Scan, found, ended, Wait, reaped, failed, blocked}

abbrev IsZombieChild : ℕ → Table → ℕ → Type 0
IsZombieChild p t c = (is_child p (t c).parent ≡ true) × (is_zombie (t c).state ≡ true)

-- What the scan says of the `n` slots from `i` on.
abbrev Scanned : ℕ → ℕ → ℕ → Bool → Table → Scan → Type 0
Scanned n i p b t (found c) = (c < i + n) × IsZombieChild p t c
Scanned n i p b t (ended havekids) =
    ((j : ℕ) → i ≤ j → j < i + n → is_child p (t j).parent ≡ true → is_zombie (t j).state ≡ false)
    × (havekids ≡ false
        → (b ≡ false) × ((j : ℕ) → i ≤ j → j < i + n → is_child p (t j).parent ≡ false))
    × (havekids ≡ true → (b ≡ true) ⊎ ((c : ℕ) × (c < i + n) × (is_child p (t c).parent ≡ true)))

-- The ways in which a round of `kwait(addr)` of the process `p` may end.
pub data Outcome (address : ℕ → ℕ) (p addr : ℕ) (copied : Bool) (k : Kernel) (w : Wait)
    : Type 0 where
  reaps :
      (c : ℕ) (k' : Kernel)
      → c < nproc
      → IsZombieChild p k.proc c
      → w ≡ reaped (k.proc c).pid k'
      → (k'.proc c).state ≡ unused
      → (k'.proc c).parent ≡ none
      → ((j : ℕ) → c ≢ j → k'.proc j ≡ k.proc j)
      → Outcome address p addr copied k w
  no_copy :
      (c : ℕ)
      → c < nproc
      → IsZombieChild p k.proc c
      → addr ≢ 0
      → copied ≡ false
      → w ≡ failed
      → Outcome address p addr copied k w
  gives_up :
      ((j : ℕ)
        → j < nproc
        → is_child p (k.proc j).parent ≡ true
        → is_zombie (k.proc j).state ≡ false)
      → (((j : ℕ) → j < nproc → is_child p (k.proc j).parent ≡ false) ⊎ ((k.proc p).killed ≢ 0))
      → w ≡ failed
      → Outcome address p addr copied k w
  sleeps :
      (c : ℕ)
      → c < nproc
      → is_child p (k.proc c).parent ≡ true
      → ((j : ℕ)
          → j < nproc
          → is_child p (k.proc j).parent ≡ true
          → is_zombie (k.proc j).state ≡ false)
      → (k.proc p).killed ≡ 0
      → w ≡ blocked (sleep_prepare p (address p) k.proc)
      → Outcome address p addr copied k w
