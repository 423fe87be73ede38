-- ===== src/Kernel/Proc/Tests.antt =====
-- The functions of xv6/kernel/proc.c on small tables, and the theorems about them there.
use osn_mp.Common.{
  ℕ, zero, suc, ◌+◌, ◌<◌, [], ◌∷◌, true, false, ◌||◌, not, Option, none, some, ◌≡◌, ◌⊎◌, refl,
  arith, count,
}
use osn_mp.Common.Int.{pos, minus_one}
use osn_mp.Common.Arrays.{update}
use osn_mp.Kernel.Proc.{
  Proc, ProcState, unused, runnable, running, zombie, Table, Kernel, nproc, is_sleeping, is_unused,
  find_from,
}
use osn_mp.Kernel.Proc.Alloc.{allocproc}
use osn_mp.Kernel.Proc.Alloc.Pids.{PidsValid, allocproc-PidsValid}
use osn_mp.Kernel.Proc.Alloc.Exits
use osn_mp.Kernel.Proc.Sleep.{sleep_prepare, sleep}
use osn_mp.Kernel.Proc.Sleep.Wakeups.{
  wakes, kills, all_happen, has_wake, has_kill, HasOwnPid, sleep-sleep_prepare,
}
use osn_mp.Kernel.Proc.Mlfq.{Scheduler, scan, search_from, pick}
use osn_mp.Kernel.Proc.Mlfq.Pick.{Picked, IsIdle, pick-outcome}
use osn_mp.Kernel.Proc.Mlfq.Fair.{Waiting, done, passed, Waiting-bounded}
use osn_mp.Kernel.Proc.Fifo.{choose, fifo_round}
use osn_mp.Kernel.Proc.Fifo.Oldest.{ArePositive, Round, fifo_round-Oldest}
use osn_mp.Kernel.Proc.RoundRobin.{pass_from, pass}
use osn_mp.Kernel.Proc.RoundRobin.Served.{count-pass}
use osn_mp.Kernel.Proc.Sleep.{wakeup}
use osn_mp.Kernel.Proc.Exit.{kexit, reparent, parent_channel, exited}
use osn_mp.Kernel.Proc.Exit.Orphans.{Exited, kexit-Exited}
use osn_mp.Kernel.Proc.Exit.Reaped

-- A process in the given state, with the given identifier, queue and parent.
abbrev proc_with : ProcState → ℕ → ℕ → Option ℕ → Proc
proc_with s pid q parent = record {
  state = s;
  chan = 0;
  killed = 0;
  xstate = pos 0;
  pid = pid;
  parent = parent;
  sz = 0;
  pagetable = none;
  trapframe = none;
  name = [];
  creation_time = 0;
  first_run_time = minus_one;
  end_time = 0;
  cpu_ticks = 0;
  queue = q;
  ticks_used = 0;
}

-- Slots 0, 1 and 2 are runnable, in the queues 2, 1 and 1; slot 0 is the parent of the others.
abbrev three : Table
three zero = proc_with runnable 5 2 none
three (suc zero) = proc_with runnable 9 1 (some 0)
three (suc (suc zero)) = proc_with runnable 7 1 (some 0)
three (suc (suc (suc i))) = proc_with unused 0 0 none

abbrev kernel_of : Table → Kernel
kernel_of t = record { proc = t; nextpid = 10; ticks = 30; freed = [] }

abbrev scheduler_of : Table → Scheduler
scheduler_of t = record { table = t; last = λ q. 0; last_boost = 0 }

pick_runs : (pick (scheduler_of three)).0 ≡ some (1, 1)
unfolding pick search_from scan
pick_runs = refl

fifo_runs : (fifo_round 30 (λ t. t) three).0 ≡ some 0
unfolding fifo_round choose
fifo_runs = refl

pass_runs : (pass (λ i. 30) (λ i t. t) three).0 ≡ 0 ∷ 1 ∷ 2 ∷ []
unfolding pass pass_from
pass_runs = refl

alloc_runs : (allocproc (some 4096) (some 8192) (kernel_of three)).0 ≡ some 3
unfolding allocproc find_from
alloc_runs = refl

-- Slot 2 runs and has an identifier of its own.
abbrev with_runner : Table
with_runner = update three 2 (proc_with running 7 1 (some 0))

abbrev prepared : Table
prepared = update with_runner 2 (record (with_runner 2) { chan = 100 })

runner-HasOwnPid : HasOwnPid with_runner 2
runner-HasOwnPid zero h e = absurd (omega arith)
runner-HasOwnPid (suc zero) h e = absurd (omega arith)
runner-HasOwnPid (suc (suc zero)) h e = refl
runner-HasOwnPid (suc (suc (suc j))) h e = ground arith

sleep-sleep_prepare_example :
    is_sleeping
      (all_happen (wakes 100 ∷ []) (sleep true 2 (all_happen (kills 7 ∷ []) prepared)) 2).state
    ≡ not (
        has_wake 100 (kills 7 ∷ [])
        || (has_wake 100 (wakes 100 ∷ []) || has_kill 7 (wakes 100 ∷ [])))
unfolding sleep_prepare
sleep-sleep_prepare_example =
    sleep-sleep_prepare true 2 100 with_runner (kills 7 ∷ []) (wakes 100 ∷ []) (omega arith)
      runner-HasOwnPid refl refl

pick-outcome_example :
    ((idx level : ℕ) × ((pick (scheduler_of three)).0 ≡ some (idx, level))
      × Picked (scheduler_of three) idx level (pick (scheduler_of three)).1)
    ⊎ ((pick (scheduler_of three) ≡ (none, scheduler_of three)) × IsIdle (scheduler_of three))
pick-outcome_example = pick-outcome (scheduler_of three)

-- Slot 2 waits in queue 1 while slot 1 is served.
slot_waits : Waiting 2 1 (scheduler_of three) 1
unfolding pick search_from scan
slot_waits =
    passed {s = scheduler_of three} {s' = (pick (scheduler_of three)).1} 1 refl refl (omega arith)
      refl done

Waiting-bounded_example : 1 < nproc
Waiting-bounded_example =
    Waiting-bounded {j = 2} {q = 1} {s = scheduler_of three} {n = 1} (omega arith) slot_waits

-- The oldest process is killed off between the loop and its lock.
fifo_skips : (fifo_round 30 (λ t. update t 0 (proc_with zombie 5 0 none)) three).0 ≡ none
unfolding fifo_round choose
fifo_skips = refl

three-ArePositive : ArePositive three
three-ArePositive j l r = ground arith

fifo_round-Oldest_example : Round three three (fifo_round 30 (λ t. t) three)
fifo_round-Oldest_example = fifo_round-Oldest 30 (λ t. t) three three-ArePositive

count-pass_example : count 2 (pass (λ i. 30) (λ i t. t) three).0 ≡ 1
count-pass_example = count-pass (λ i. 30) (λ i t. t) 2 (λ i t ne r. r) three (omega arith) refl

abbrev ticking : Proc
ticking = record (proc_with running 7 1 none) { ticks_used = 3 }

-- Slot 0 alone is in use.
abbrev one : Table
one zero = proc_with runnable 5 0 none
one (suc i) = proc_with unused 0 0 none

one-PidsValid : PidsValid (kernel_of one)
one-PidsValid = record {
  next_pos = omega arith;
  not_negative = omega arith;
  below = below;
  live = live;
  free = free;
  distinct = distinct;
}
  where
    below : (i : ℕ) → (one i).pid < 10
    below zero = omega arith
    below (suc i) = omega arith

    live : (i : ℕ) → is_unused (one i).state ≡ false → 0 < (one i).pid
    live zero h = omega arith
    live (suc i) h = cc

    free : (i : ℕ) → is_unused (one i).state ≡ true → (one i).pid ≡ 0
    free zero h = cc
    free (suc i) h = refl

    distinct :
        (i j : ℕ)
        → is_unused (one i).state ≡ false
        → is_unused (one j).state ≡ false
        → (one i).pid ≡ (one j).pid
        → i ≡ j
    distinct zero zero a b e = refl
    distinct zero (suc j) a b e = cc
    distinct (suc i) j a b e = cc

one-clean : (i : ℕ) → is_unused (one i).state ≡ true → (one i).pagetable ≡ none
one-clean zero h = refl
one-clean (suc i) h = refl

allocproc-PidsValid_example : PidsValid (allocproc (some 4096) none (kernel_of one)).1
allocproc-PidsValid_example =
    allocproc-PidsValid (some 4096) none (kernel_of one) (omega arith) one-PidsValid

allocproc-Outcome_example :
    Exits.Outcome (some 4096) none (kernel_of one) (allocproc (some 4096) none (kernel_of one))
allocproc-Outcome_example = Exits.allocproc-Outcome (some 4096) none (kernel_of one) one-clean

-- Slot 1 exits, and slot 0 waits for it.
abbrev address : ℕ → ℕ
address i = 1000 + i

abbrev adopted : Table
adopted = reparent address 0 1 three

abbrev parent_woken : Table
parent_woken = wakeup (parent_channel address 0 (adopted 1).parent) adopted

kexit-Exited_example :
    Exited address 0 1
      (pos 3)
      40
      three
      (update parent_woken 1 (exited address 0 (pos 3) 40 (parent_woken 1)))
unfolding kexit
kexit-Exited_example = kexit-Exited address 0 1 (pos 3) 40 three (omega arith) refl

abbrev with_zombie : Table
with_zombie = update three 1 (proc_with zombie 9 1 (some 0))
