-- ===== src/Kernel/Proc/RoundRobin/Served.antt =====
-- One pass of the round-robin scheduler serves every process that stays runnable, once.
use osn_mp.Common.{
  ℕ, zero, suc, ◌+◌, ◌≤◌, ◌<◌, true, ◌≡◌, ◌≢◌, refl, arith, if◌then◌else◌, count, Bool-cases, inl,
  inr, ℕ_discrete,
}
use osn_mp.Common.Arrays.{update, update_ne}
use osn_mp.Kernel.Proc.{Table, nproc, is_runnable}
use osn_mp.Kernel.Proc.Mlfq.{dispatch}
use osn_mp.Kernel.Proc.RoundRobin.{pass_from, pass}

module _ (now : ℕ → ℕ) (run : ℕ → Table → Table) where
  -- What a slot leaves behind for the next ones.
  abbrev after : ℕ → Table → Table
  after i t = if is_runnable (t i).state then run i (update t i (dispatch (now i) (t i))) else t

  count-pass_from_of_lt : (n i j : ℕ) (t : Table) → j < i → count j (pass_from now run n i t).0 ≡ 0
  unfolding pass_from
  count-pass_from_of_lt zero i j t h = refl
  count-pass_from_of_lt (suc n) i j t h =
      ground (arith, count-pass_from_of_lt n (i + 1) j (after i t))

  -- No slot is served twice.
  pub count-pass_from-le : (n i j : ℕ) (t : Table) → count j (pass_from now run n i t).0 ≤ 1
  unfolding pass_from
  count-pass_from-le zero i j t = omega arith
  count-pass_from-le (suc n) i j t = elim (ℕ_discrete i j) [
    | yes e ↦ ground (arith, count-pass_from_of_lt n (i + 1) j (after i t))
    | no ne ↦ ground (arith, count-pass_from-le n (i + 1) j (after i t))
  ]

  module _ (j : ℕ)
      (keeps : (i : ℕ) (t : Table)
        → i ≢ j
        → is_runnable (t j).state ≡ true
        → is_runnable (run i t j).state ≡ true) where
    after-runnable :
        (i : ℕ) (t : Table)
        → i ≢ j
        → is_runnable (t j).state ≡ true
        → is_runnable (after i t j).state ≡ true
    after-runnable i t ne r = elim (Bool-cases (is_runnable (t i).state)) [
      | inl e ↦ rw e (keeps i _ ne (rw (update_ne t i j (dispatch (now i) (t i)) ne) r))
      | inr e ↦ rw e r
    ]

    count-pass_from :
        (n i : ℕ) (t : Table)
        → i ≤ j
        → j < i + n
        → is_runnable (t j).state ≡ true
        → count j (pass_from now run n i t).0 ≡ 1
    unfolding pass_from
    count-pass_from zero i t a b r = absurd (omega arith)
    count-pass_from (suc n) i t a b r = elim (ℕ_discrete i j) [
      | yes e ↦ ground (arith, count-pass_from_of_lt n (i + 1) j (after i t))
      | no ne ↦ ground (arith, count-pass_from n (i + 1) (after i t), after-runnable i t ne r)
    ]

    -- Whatever the processes that run do to the table, if they leave `j` runnable, one pass serves
    -- `j`, if it is runnable at the start, exactly once.
    pub count-pass :
        (t : Table) → j < nproc → is_runnable (t j).state ≡ true → count j (pass now run t).0 ≡ 1
    unfolding pass
    count-pass t h r = count-pass_from nproc 0 t (omega arith) h r
