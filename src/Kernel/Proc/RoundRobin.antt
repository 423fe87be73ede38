-- ===== src/Kernel/Proc/RoundRobin.antt =====
-- xv6/kernel/proc.c, the default scheduler: one pass of its `for(;;)` over the process table.
-- `run i t` stands for what happens between the two halves of `swtch`: the process `i` runs, and the
-- table is what it is when that process gives the CPU up. `now i` is `ticks` when slot `i` is served.
pub mod Served
use osn_mp.Common.{ℕ, zero, suc, ◌+◌, List, [], ◌∷◌, Bool, true, false, if◌then◌else◌}
use osn_mp.Common.Arrays.{update}
use osn_mp.Kernel.Proc.{Table, nproc, is_runnable}
use osn_mp.Kernel.Proc.Mlfq.{dispatch}

-- The slots that were served, in order, and the table behind the last of the `n` slots from `i` on.
unfoldable pub pass_from : (ℕ → ℕ) → (ℕ → Table → Table) → ℕ → ℕ → Table → List ℕ × Table
pass_from now run zero i t = ([], t)
pass_from now run (suc n) i t =
    let t' = if is_runnable (t i).state then run i (update t i (dispatch (now i) (t i))) else t in
    let (served, u) = pass_from now run n (i + 1) t' in
    (if is_runnable (t i).state then i ∷ served else served, u)

-- `found` of the source is whether the list is not empty.
unfoldable pub pass : (ℕ → ℕ) → (ℕ → Table → Table) → Table → List ℕ × Table
pass now run t = pass_from now run nproc 0 t
