-- ===== src/Kernel/Proc.antt =====
-- xv6/kernel/proc.h and the tables of xv6/kernel/proc.c: the process table and what surrounds it.
-- `proc[NPROC]` is a function from indices, and a pointer into it is an index. A lock is held
-- across each of the functions below, so each is one step on this state; `context`, `kstack` and
-- the locks themselves are not part of it.
pub mod Loops
pub mod Alloc
pub mod Sleep
pub mod Mlfq
pub mod Fifo
pub mod RoundRobin
pub mod Exit
mod Tests
use osn_mp.Common.{ℕ, zero, suc, List, [], ◌∷◌, Bool, true, false, Option, none, some}
use osn_mp.Common.Int.{ℤ}
use osn_mp.Common.Arrays.{update}

-- `enum procstate`
pub data ProcState : Type 0 where
  unused used sleeping runnable running zombie : ProcState

-- `struct proc`. A null pointer is `none`; `chan` is an address, and 0 is the null pointer.
pub record Proc : Type 0 where
  pub state : ProcState
  pub chan : ℕ
  pub killed : ℕ
  pub xstate : ℤ
  pub pid : ℕ
  pub parent : Option ℕ
  pub sz : ℕ
  pub pagetable : Option ℕ
  pub trapframe : Option ℕ
  pub name : List ℕ
  pub creation_time : ℕ
  pub first_run_time : ℤ
  pub end_time : ℕ
  pub cpu_ticks : ℕ
  pub queue : ℕ
  pub ticks_used : ℕ

-- `NPROC` of xv6/kernel/param.h
abbrev pub nproc : ℕ
nproc = 64

abbrev pub Table : Type 0
Table = ℕ → Proc

-- What `freeproc` gives back: a page to `kfree`, a page table of a size to `proc_freepagetable`.
pub data Resource : Type 0 where
  frame : ℕ → Resource
  page_table : ℕ → ℕ → Resource

pub record Kernel : Type 0 where
  pub proc : Table
  pub nextpid : ℕ
  pub ticks : ℕ
  pub freed : List Resource

abbrev pub put : Kernel → ℕ → Proc → Kernel
put k i p = record k { proc = update k.proc i p }

abbrev pub is_unused : ProcState → Bool
is_unused unused = true
is_unused _ = false

abbrev pub is_sleeping : ProcState → Bool
is_sleeping sleeping = true
is_sleeping _ = false

abbrev pub is_runnable : ProcState → Bool
is_runnable runnable = true
is_runnable _ = false

abbrev pub is_zombie : ProcState → Bool
is_zombie zombie = true
is_zombie _ = false

-- `for(p = proc; p < &proc[n]; p++) *p = body(*p)`, in order of the indices.
unfoldable pub for_each : ℕ → (Proc → Proc) → Table → Table
for_each zero body t = t
for_each (suc n) body t = let t' = for_each n body t in update t' n (body (t' n))

-- The first index from `i` on, of `n` that are left, whose process passes the test.
unfoldable pub find_from : ℕ → ℕ → (Proc → Bool) → Table → Option ℕ
find_from zero i test t = none
find_from (suc n) i test t =
    let rest = find_from n (suc i) test t in elim (test (t i)) [ true ↦ some i | false ↦ rest ]
