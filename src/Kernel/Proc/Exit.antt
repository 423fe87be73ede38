-- ===== src/Kernel/Proc/Exit.antt =====
-- xv6/kernel/proc.c: `reparent`, `kexit` and `kwait`, as far as they act on the process table.
-- `address i` is the address of `proc[i]`, which serves as a sleep channel, and `init` the index of
-- `initproc`. The closing of files and of the working directory in `kexit` acts on other parts of
-- the kernel; `kexit` here is what it does from `acquire(&wait_lock)` to its call of `sched`.
pub mod Orphans
pub mod Reaped
use osn_mp.Common.{
  ℕ, zero, suc, ◌+◌, Bool, true, false, ◌&&◌, ◌||◌, not, Option, none, some, ◌==◌, if◌then◌else◌,
}
use osn_mp.Common.Int.{ℤ, pos}
use osn_mp.Common.Arrays.{update}
use osn_mp.Kernel.Proc.{Proc, ProcState, zombie, Table, Kernel, nproc, is_zombie}
use osn_mp.Kernel.Proc.Sleep.{wakeup, sleep_prepare}
use osn_mp.Kernel.Proc.Alloc.{freeproc}

-- `p->parent == q` for a pointer `q` that is not null
abbrev pub is_child : ℕ → Option ℕ → Bool
is_child q none = false
is_child q (some i) = i == q

module _ (address : ℕ → ℕ) (init : ℕ) where
  -- The body of the loop of `reparent`.
  abbrev pub adopt : ℕ → ℕ → Table → Table
  adopt p i t =
      if is_child p (t i).parent
      then wakeup (address init) (update t i (record (t i) { parent = some init }))
      else t

  unfoldable pub reparent_first : ℕ → ℕ → Table → Table
  reparent_first zero p t = t
  reparent_first (suc n) p t = adopt p n (reparent_first n p t)

  unfoldable pub reparent : ℕ → Table → Table
  reparent p t = reparent_first nproc p t

  -- The channel that `wakeup(p->parent)` names; it is 0 for a null pointer.
  abbrev pub parent_channel : Option ℕ → ℕ
  parent_channel none = 0
  parent_channel (some q) = address q

  abbrev pub exited : ℤ → ℕ → Proc → Proc
  exited status now p = record p { xstate = status; end_time = now; state = zombie }

  -- `none` is the panic "init exiting".
  unfoldable pub kexit : ℕ → ℤ → ℕ → Table → Option Table
  kexit i status now t =
      let t' = reparent i t in
      let t'' = wakeup (parent_channel (t' i).parent) t' in
      if i == init then none else some (update t'' i (exited status now (t'' i)))

-- What the scan of `kwait` comes to: a zombie child, or the value of `havekids` at the end.
pub data Scan : Type 0 where
  found : ℕ → Scan
  ended : Bool → Scan

-- The inner loop, with `n` slots left, from `i` on.
unfoldable pub scan_children : ℕ → ℕ → ℕ → Bool → Table → Scan
scan_children zero i p havekids t = ended havekids
scan_children (suc n) i p havekids t =
    let rest = scan_children n (i + 1) p (havekids || is_child p (t i).parent) t in
    if is_child p (t i).parent && is_zombie (t i).state then found i else rest

-- How a round of `for(;;)` ends: a return value, or the process goes to sleep.
pub data Wait : Type 0 where
  reaped : ℕ → Kernel → Wait
  failed : Wait
  blocked : Option Table → Wait

-- `pp->parent = 0; freeproc(pp);`
abbrev pub reap : Kernel → ℕ → Kernel
reap k c = freeproc (record k { proc = update k.proc c (record (k.proc c) { parent = none }) }) c

-- The copy of the exit state is asked for if `addr` is not 0; `copied` is whether it succeeds.
abbrev pub finish_scan : (ℕ → ℕ) → ℕ → ℕ → Bool → Kernel → Scan → Wait
finish_scan address p addr copied k (found c) =
    if not (addr == 0) && not copied then failed else reaped (k.proc c).pid (reap k c)
finish_scan address p addr copied k (ended havekids) =
    if not havekids || not ((k.proc p).killed == 0)
    then failed
    else blocked (sleep_prepare p (address p) k.proc)

-- One round of `kwait(addr)` of the process `p`, up to its `sleep`.
unfoldable pub kwait_round : (ℕ → ℕ) → ℕ → ℕ → Bool → Kernel → Wait
kwait_round address p addr copied k =
    finish_scan address p addr copied k (scan_children nproc 0 p false k.proc)
