-- ===== src/Kernel/Proc/Sleep/Kill.antt =====
-- Whom `kkill` reaches, and what it does with the identifier 0.
use osn_mp.Common.{
  ℕ, ◌<◌, Bool, false, Option, none, some, ◌≡◌, ◌≢◌, ◌⊎◌, refl, arith, ◌==◌, Bool-cases, inl, inr,
  sym, ◌∙◌,
}
use osn_mp.Common.Int.{ℤ, pos, minus_one}
use osn_mp.Common.Arrays.{update}
use osn_mp.Kernel.Proc.{Proc, Table, Kernel, nproc, is_unused, is_sleeping, find_from}
use osn_mp.Kernel.Proc.Loops.{find_from-some, find_from-none, find_from_ext}
use osn_mp.Kernel.Proc.Alloc.{allocproc}
use osn_mp.Kernel.Proc.Alloc.Pids.{PidsValid}
use osn_mp.Kernel.Proc.Alloc.Exits.{killed-allocproc}
use osn_mp.Kernel.Proc.Sleep.{kill, kill_found, kkill}

-- What `kkill` has done when it returns.
pub record Killed (pid : ℕ) (t : Table) (i : ℕ) (r : Table × ℤ) : Type 0 where
  pub target : (t i).pid ≡ pid
  pub in_table : i < nproc
  pub returns : r.1 ≡ pos 0
  pub marked : (r.0 i).killed ≡ 1
  pub awake : is_sleeping (r.0 i).state ≡ false
  pub others : (j : ℕ) → i ≢ j → r.0 j ≡ t j

-- `kkill` returns 0 exactly if some process of the table has the identifier; then one such process
-- is marked as killed and does not sleep, and no other process changes. If none has it, `kkill`
-- returns -1 and changes nothing.
pub kkill-Killed :
    (pid : ℕ) (t : Table)
    → ((i : ℕ) × Killed pid t i (kkill pid t))
      ⊎ (((j : ℕ) → j < nproc → (t j).pid ≢ pid) × (kkill pid t ≡ (t, minus_one)))
unfolding kkill
kkill-Killed pid t = of_found (find_from nproc 0 test t) refl
  where
    test : Proc → Bool
    test = λ p. p.pid == pid

    of_found :
        (o : Option ℕ)
        → find_from nproc 0 test t ≡ o
        → ((i : ℕ) × Killed pid t i (kill_found t o))
          ⊎ (((j : ℕ) → j < nproc → (t j).pid ≢ pid) × (kill_found t o ≡ (t, minus_one)))
    of_found none e = inr (λ j h. ground (arith, find_from-none nproc 0 test t j e), refl)
    of_found (some i) e =
        let (low, high, same) = find_from-some nproc 0 test t i e in
        inl (
          i,
          record {
            target = ground arith;
            in_table = high;
            returns = refl;
            marked = ground arith;
            awake = ground arith;
            others = λ j n. ground arith;
          },
        )

-- Where identifiers are valid, the first slot that is not in use is the first with identifier 0.
find-unused-zero :
    (k : Kernel)
    → PidsValid k
    → find_from nproc 0 (λ p. is_unused p.state) k.proc ≡ find_from nproc 0 (λ p. p.pid == 0) k.proc
find-unused-zero k v =
    find_from_ext nproc 0 (λ p. is_unused p.state) (λ p. p.pid == 0) k.proc k.proc same
  where
    same : (j : ℕ) → is_unused (k.proc j).state ≡ ((k.proc j).pid == 0)
    same j = elim (Bool-cases (is_unused (k.proc j).state)) [
      | inl e ↦ ground (arith, v.free j e)
      | inr e ↦ ground (arith, v.live j e)
    ]

-- Where identifiers are valid and some slot is not in use, `kkill(0)` returns 0, and the next
-- process that `allocproc` makes, its allocations succeeding, is born with the mark of a kill.
pub kkill_zero_marks_next :
    (f t : ℕ) (k : Kernel) (i : ℕ)
    → PidsValid k
    → find_from nproc 0 (λ p. is_unused p.state) k.proc ≡ some i
    → let r = allocproc (some f) (some t) (record k { proc = (kkill 0 k.proc).0 }) in
      ((kkill 0 k.proc).1 ≡ pos 0) × (r.0 ≡ some i) × ((r.1.proc i).killed ≡ 1)
unfolding kkill
kkill_zero_marks_next f t k i v h = rw hit (
    let (a, b) =
      killed-allocproc f t (record k { proc = update k.proc i (kill (k.proc i)) }) i still in
    (refl, a, b ∙ ground arith))
  where
    hit : find_from nproc 0 (λ p. p.pid == 0) k.proc ≡ some i
    hit = sym (find-unused-zero k v) ∙ h

    still : find_from nproc 0 (λ p. is_unused p.state) (update k.proc i (kill (k.proc i))) ≡ some i
    still =
        find_from_ext nproc 0 (λ p. is_unused p.state) (λ p. is_unused p.state) _ k.proc
          (λ j. ground arith)
        ∙ h
