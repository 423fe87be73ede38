-- ===== src/Kernel/Proc/Fifo.antt =====
-- xv6/kernel/proc.c under `FIFO`: the scheduler that runs the oldest runnable process, one round of
-- its loop up to `swtch`.
pub mod Oldest
use osn_mp.Common.{
  ℕ, zero, suc, ◌+◌, Bool, true, false, ◌&&◌, ◌%◌, ◌^◌, Option, none, some, ltb, if◌then◌else◌,
}
use osn_mp.Common.Arrays.{update}
use osn_mp.Kernel.Proc.{Proc, Table, nproc, is_runnable}
use osn_mp.Kernel.Proc.Mlfq.{dispatch}

-- `<` on two `int`s, given as their 32 bits.
abbrev pub int_ltb : ℕ → ℕ → Bool
int_ltb a b = ltb ((a + 2 ^ 31) % 2 ^ 32) ((b + 2 ^ 31) % 2 ^ 32)

-- `chosen == 0 || p->pid < chosen->pid`
abbrev pub is_older : Option ℕ → ℕ → Table → Bool
is_older none i t = true
is_older (some c) i t = int_ltb (t i).pid (t c).pid

-- The loop, with `n` slots left, from `i` on.
unfoldable pub choose : ℕ → ℕ → Option ℕ → Table → Option ℕ
choose zero i chosen t = chosen
choose (suc n) i chosen t =
    choose n (i + 1) (if is_runnable (t i).state && is_older chosen i t then some i else chosen) t

-- The process that is switched to, in the table that is found when its lock is taken again: its state is
-- read again.
abbrev pub run_chosen : ℕ → Option ℕ → Table → Option ℕ × Table
run_chosen now none t = (none, t)
run_chosen now (some i) t =
    if is_runnable (t i).state then (some i, update t i (dispatch now (t i))) else (none, t)

-- `meanwhile` is what others do to the table between the loop and the lock of the chosen process.
unfoldable pub fifo_round : ℕ → (Table → Table) → Table → Option ℕ × Table
fifo_round now meanwhile t = run_chosen now (choose nproc 0 none t) (meanwhile t)
