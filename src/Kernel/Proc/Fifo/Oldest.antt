-- ===== src/Kernel/Proc/Fifo/Oldest.antt =====
-- The FIFO scheduler runs the runnable process with the least identifier.
use osn_mp.Common.{
  ℕ, zero, suc, ◌+◌, ◌≤◌, ◌<◌, true, false, ◌&&◌, ◌^◌, ltb, Option, none, some, ◌≡◌, ◌≢◌, inl, inr,
  refl, arith, if◌then◌else◌, Bool-cases, lt-suc-cases, subst,
}
use osn_mp.Kernel.Proc.{running, Table, nproc, is_runnable}
use osn_mp.Common.Arrays.{update}
use osn_mp.Kernel.Proc.Mlfq.{dispatch}
use osn_mp.Kernel.Proc.Fifo.{int_ltb, is_older, choose, run_chosen, fifo_round}

-- The identifiers of the runnable processes are not negative.
abbrev pub ArePositive : Table → Type 0
ArePositive t = (j : ℕ) → j < nproc → is_runnable (t j).state ≡ true → (t j).pid < 2 ^ 31

int_ltb-ltb : (a b : ℕ) → a < 2 ^ 31 → b < 2 ^ 31 → int_ltb a b ≡ ltb a b
int_ltb-ltb a b h k = ground arith

-- What is known of `chosen` when the slots below `i` were looked at.
abbrev IsOldest : ℕ → Option ℕ → Table → Type 0
IsOldest i none t = (j : ℕ) → j < i → is_runnable (t j).state ≡ false
IsOldest i (some c) t =
    (c < i)
    × (is_runnable (t c).state ≡ true)
    × ((j : ℕ) → j < i → is_runnable (t j).state ≡ true → (t c).pid ≤ (t j).pid)

IsOldest-next :
    (i : ℕ) (chosen : Option ℕ) (t : Table)
    → ArePositive t
    → i < nproc
    → IsOldest i chosen t
    → IsOldest (i + 1) (if is_runnable (t i).state && is_older chosen i t then some i else chosen) t
IsOldest-next i none t p m h = elim (Bool-cases (is_runnable (t i).state)) [
  | inl e ↦ rw e (omega arith, e, λ j l r. ground (arith, h j, lt-suc-cases j i l))
  | inr e ↦ rw e (λ j l. ground (arith, h j, lt-suc-cases j i l))
]
IsOldest-next i (some c) t p m h = elim (Bool-cases (is_runnable (t i).state)) [
  | inr e ↦ rw e (omega (arith, h.0), h.1, λ j l r. ground (arith, h.2 j, lt-suc-cases j i l))
  | inl e ↦
      let q : int_ltb (t i).pid (t c).pid ≡ ltb (t i).pid (t c).pid =
        int_ltb-ltb (t i).pid (t c).pid (p i m e) (p c (omega (arith, h.0)) h.1) in
      elim (Bool-cases (ltb (t i).pid (t c).pid)) [
        | inl k ↦ rw (e, q, k) (omega arith, e, λ j l r. ground (arith, h.2 j, lt-suc-cases j i l))
        | inr k ↦
            rw (e, q, k)
              (omega (arith, h.0), h.1, λ j l r. ground (arith, h.2 j, lt-suc-cases j i l))
      ]
]

choose-IsOldest :
    (n i : ℕ) (chosen : Option ℕ) (t : Table)
    → ArePositive t
    → i + n ≡ nproc
    → IsOldest i chosen t
    → IsOldest nproc (choose n i chosen t) t
unfolding choose
choose-IsOldest zero i chosen t p e h = subst (λ k. IsOldest k chosen t) (omega arith) h
choose-IsOldest (suc n) i chosen t p e h =
    choose-IsOldest n (i + 1) _ t p (omega arith) (IsOldest-next i chosen t p (omega arith) h)

-- A runnable process whose identifier is the least of all runnable ones.
pub record Oldest (t : Table) (i : ℕ) : Type 0 where
  pub in_table : i < nproc
  pub was_runnable : is_runnable (t i).state ≡ true
  pub least : (j : ℕ) → j < nproc → is_runnable (t j).state ≡ true → (t i).pid ≤ (t j).pid

-- What the FIFO scheduler does in one round, in the table `t` that its loop sees and the table `t'`
-- that it finds behind it.
pub data Round (t t' : Table) : Option ℕ × Table → Type 0 where
  ran :
      (i : ℕ) (t2 : Table)
      → Oldest t i
      → is_runnable (t' i).state ≡ true
      → (t2 i).state ≡ running
      → (t2 i).pid ≡ (t' i).pid
      → ((j : ℕ) → i ≢ j → t2 j ≡ t' j)
      → Round t t' (some i, t2)
  lost : (i : ℕ) → Oldest t i → is_runnable (t' i).state ≡ false → Round t t' (none, t')
  idle : ((j : ℕ) → j < nproc → is_runnable (t j).state ≡ false) → Round t t' (none, t')

run_chosen-Round :
    (now : ℕ) (o : Option ℕ) (t t' : Table) → IsOldest nproc o t → Round t t' (run_chosen now o t')
run_chosen-Round now none t t' h = idle h
run_chosen-Round now (some i) t t' (lt, r, least) =
    let old : Oldest t i = record { in_table = lt; was_runnable = r; least = least } in
    elim (Bool-cases (is_runnable (t' i).state)) [
      | inl e ↦ rw e (
          ran i (update t' i (dispatch now (t' i))) old e (ground arith) (ground arith)
            (λ j n. ground arith))
      | inr e ↦ rw e (lost i old e)
    ]

-- Where no runnable process has a negative identifier, and whatever others do between the loop and the
-- lock: the FIFO scheduler runs the runnable process with the least identifier of all runnable ones, if
-- it is runnable still, and changes no other process; if it is not any more, or none was runnable, it
-- runs none and changes none.
pub fifo_round-Oldest :
    (now : ℕ) (meanwhile : Table → Table) (t : Table)
    → ArePositive t
    → Round t (meanwhile t) (fifo_round now meanwhile t)
unfolding fifo_round
fifo_round-Oldest now meanwhile t p =
    run_chosen-Round now (choose nproc 0 none t) t (meanwhile t)
      (choose-IsOldest nproc 0 none t p refl (λ j h. absurd (omega arith)))
