-- ===== src/Kernel/Proc/Mlfq.antt =====
-- xv6/kernel/proc.c under `#ifdef MLFQ`: `mlfq_boost`, `mlfq_timer_tick` and the MLFQ loop of
-- `scheduler`, up to its call of `swtch`. `mlfq_last` is a function from queue numbers.
pub mod Tick
pub mod Pick
pub mod Fair
use osn_mp.Common.{
  ℕ, zero, suc, ◌+◌, ◌-◌, ◌%◌, ◌^◌, Bool, true, false, ◌&&◌, not, Option, none, some, ltb, leb,
  ◌==◌, if◌then◌else◌,
}
use osn_mp.Common.Int.{ℤ, pos, negsuc}
use osn_mp.Common.Arrays.{update}
use osn_mp.Kernel.Proc.{
  Proc, ProcState, runnable, running, Table, nproc, is_unused, is_runnable, is_zombie, for_each,
}

abbrev pub nmlfq : ℕ
nmlfq = 4

abbrev pub boost_ticks : ℕ
boost_ticks = 48

-- `mlfq_slice`; queue numbers past the array are not used (`Tick.InQueues`).
abbrev pub slice : ℕ → ℕ
slice zero = 1
slice (suc zero) = 4
slice (suc (suc zero)) = 8
slice (suc (suc (suc q))) = 16

abbrev pub boost : Proc → Proc
boost p =
    if not (is_unused p.state) && not (is_zombie p.state)
    then record p { queue = 0; ticks_used = 0 }
    else p

unfoldable pub mlfq_boost : Table → Table
mlfq_boost t = for_each nproc boost t

-- The counters of a tick, and the test against the slice.
abbrev count_tick : Proc → Proc
count_tick p = record p { cpu_ticks = p.cpu_ticks + 1; ticks_used = p.ticks_used + 1 }

abbrev demote : Proc → Proc
demote p = record p {
  queue = if ltb p.queue (nmlfq - 1) then p.queue + 1 else p.queue;
  ticks_used = 0;
}

unfoldable pub tick : Proc → Proc
tick p = let p' = count_tick p in if leb (slice p'.queue) p'.ticks_used then demote p' else p'

-- `mlfq_timer_tick`; the argument is `myproc()`, `none` for a null pointer.
unfoldable pub mlfq_timer_tick : Option ℕ → Table → Table
unfolding tick
mlfq_timer_tick none t = t
mlfq_timer_tick (some i) t = update t i (tick (t i))

-- The variables of the loop: `mlfq_last`, `last_boost_tick`, and the process table.
pub record Scheduler : Type 0 where
  pub table : Table
  pub last : ℕ → ℕ
  pub last_boost : ℕ

-- `cur != 0 && cur - last_boost_tick >= BOOST_TICKS`, where both are `uint`.
abbrev pub boost_due : ℕ → ℕ → Bool
boost_due cur last = not (cur == 0) && leb boost_ticks ((cur + 2 ^ 32 - last) % 2 ^ 32)

unfoldable pub boost_step : ℕ → Scheduler → Scheduler
boost_step cur s =
    if boost_due cur s.last_boost
    then record s { table = mlfq_boost s.table; last_boost = cur }
    else s

abbrev pub is_candidate : ℕ → Proc → Bool
is_candidate q p = is_runnable p.state && p.queue == q

-- The inner loop, with `n` rounds left, from `i` on: `idx = (start + i) % NPROC`.
unfoldable pub scan : ℕ → ℕ → ℕ → ℕ → Table → Option ℕ
scan zero i start q t = none
scan (suc n) i start q t =
    let rest = scan n (i + 1) start q t in
    if is_candidate q (t ((start + i) % nproc)) then some ((start + i) % nproc) else rest

-- The outer loop, with `n` queues left, from `q` on: the process chosen, and its queue.
unfoldable pub search_from : ℕ → ℕ → Scheduler → Option (ℕ × ℕ)
search_from zero q s = none
search_from (suc n) q s =
    let rest = search_from n (q + 1) s in
    elim (scan nproc 1 (s.last q) q s.table) [ some idx ↦ some (idx, q) | none ↦ rest ]

-- `mlfq_last[q] = idx` for what was found.
abbrev pub remember : Option (ℕ × ℕ) → Scheduler → Scheduler
remember none s = s
remember (some (idx, q)) s = record s { last = update s.last q idx }

unfoldable pub pick : Scheduler → Option (ℕ × ℕ) × Scheduler
unfolding search_from
pick s = let c = search_from nmlfq 0 s in (c, remember c s)

abbrev pub is_unset : ℤ → Bool
is_unset (negsuc zero) = true
is_unset _ = false

-- What is written before `swtch`; `now` is the value of `ticks`.
abbrev pub dispatch : ℕ → Proc → Proc
dispatch now p = record p {
  first_run_time = if is_unset p.first_run_time then pos now else p.first_run_time;
  state = running;
}

abbrev dispatch_chosen : ℕ → Option (ℕ × ℕ) → Scheduler → Scheduler
dispatch_chosen now none s = s
dispatch_chosen now (some (idx, q)) s = record s {
  table = update s.table idx (dispatch now (s.table idx));
}

-- One round of `for(;;)`, up to `swtch` or `wfi`: the process that is switched to, if there is one.
-- `cur` and `now` are the values of `ticks` when the round reads it first and when it dispatches.
unfoldable pub schedule : ℕ → ℕ → Scheduler → Option (ℕ × ℕ) × Scheduler
unfolding pick boost_step
schedule cur now s = let (c, s') = pick (boost_step cur s) in (c, dispatch_chosen now c s')
