-- ===== src/Kernel/Proc/Sleep.antt =====
-- xv6/kernel/proc.c: `sleep_prepare`, `sleep`, `wakeup`, `kkill`, `setkilled`, `killed`, `yield`.
pub mod Wakeups
pub mod Kill
use osn_mp.Common.{ℕ, Bool, true, false, Option, none, some, ◌==◌, if◌then◌else◌}
use osn_mp.Common.Int.{ℤ, pos, minus_one}
use osn_mp.Common.Arrays.{update}
use osn_mp.Kernel.Proc.{
  Proc, ProcState, runnable, sleeping, Table, Kernel, nproc, put, is_sleeping, for_each, find_from,
}

-- `sleep_prepare(chan)` of the process `i`; `none` is the panic on a null channel.
unfoldable pub sleep_prepare : ℕ → ℕ → Table → Option Table
sleep_prepare i chan t =
    if chan == 0 then none else some (update t i (record (t i) { chan = chan }))

-- What `sleep` writes before it calls `sched`. The flag is `#ifdef MLFQ`.
abbrev pub fall_asleep : Bool → Proc → Proc
fall_asleep mlfq p = record p { ticks_used = if mlfq then 0 else p.ticks_used; state = sleeping }

-- `sleep` of the process `i`: it gives up the CPU only if its channel is still set.
unfoldable pub sleep : Bool → ℕ → Table → Table
sleep mlfq i t = if (t i).chan == 0 then t else update t i (fall_asleep mlfq (t i))

abbrev pub awake : ProcState → ProcState
awake s = if is_sleeping s then runnable else s

abbrev pub wake : ℕ → Proc → Proc
wake chan p = if p.chan == chan then record p { chan = 0; state = awake p.state } else p

unfoldable pub wakeup : ℕ → Table → Table
wakeup chan t = for_each nproc (wake chan) t

abbrev pub kill : Proc → Proc
kill p = record p { killed = 1; state = awake p.state }

abbrev kill_found : Table → Option ℕ → Table × ℤ
kill_found t none = (t, minus_one)
kill_found t (some i) = (update t i (kill (t i)), pos 0)

-- `kkill(pid)`, with its return value.
unfoldable pub kkill : ℕ → Table → Table × ℤ
kkill pid t = kill_found t (find_from nproc 0 (λ p. p.pid == pid) t)

unfoldable pub setkilled : ℕ → Table → Table
setkilled i t = update t i (record (t i) { killed = 1 })

unfoldable pub killed : ℕ → Table → ℕ
killed i t = (t i).killed

-- `yield` up to its call of `sched`.
unfoldable pub yield : ℕ → Table → Table
yield i t = update t i (record (t i) { state = runnable })
