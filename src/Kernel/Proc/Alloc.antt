-- ===== src/Kernel/Proc/Alloc.antt =====
-- xv6/kernel/proc.c: `allocpid`, `allocproc`, `freeproc`. The results of `kalloc` and of
-- `proc_pagetable` are arguments, `none` where the callee returns 0.
pub mod Pids
pub mod Exits
use osn_mp.Common.{ℕ, ◌+◌, ◌%◌, ◌^◌, List, [], ◌∷◌, ◌++◌, Option, none, some}
use osn_mp.Common.Int.{pos, minus_one}
use osn_mp.Common.Arrays.{update}
use osn_mp.Kernel.Proc.{
  Proc, unused, used, Resource, frame, page_table, Kernel, nproc, put, is_unused, find_from,
}

-- `allocpid`: the pid, and the state with the next one. An `int` is its 32 bits: behind the largest one
-- come the negative ones.
pub allocpid : Kernel → ℕ × Kernel
allocpid k = (k.nextpid, record k { nextpid = (k.nextpid + 1) % 2 ^ 32 })

abbrev frame_of : Option ℕ → List Resource
frame_of none = []
frame_of (some f) = frame f ∷ []

abbrev page_table_of : Option ℕ → ℕ → List Resource
page_table_of none sz = []
page_table_of (some t) sz = page_table t sz ∷ []

abbrev cleared : Proc → Proc
cleared p = record p {
  trapframe = none;
  pagetable = none;
  sz = 0;
  pid = 0;
  name = [];
  chan = 0;
  killed = 0;
  xstate = pos 0;
  state = unused;
}

-- `freeproc(&proc[i])`
unfoldable pub freeproc : Kernel → ℕ → Kernel
freeproc k i =
    let p = k.proc i in
    record (put k i (cleared p)) {
      freed = k.freed ++ (frame_of p.trapframe ++ page_table_of p.pagetable p.sz);
    }

-- The fields that `allocproc` sets last.
abbrev pub fresh : ℕ → Proc → Proc
fresh now p = record p {
  creation_time = now;
  first_run_time = minus_one;
  end_time = 0;
  cpu_ticks = 0;
  queue = 0;
  ticks_used = 0;
}

-- `p->pagetable` and `p->trapframe` are written before they are tested.
abbrev test_table : ℕ → Kernel → Option ℕ → Option ℕ × Kernel
test_table i k none = (none, freeproc k i)
test_table i k (some t) = (some i, put k i (fresh k.ticks (k.proc i)))

abbrev set_table : ℕ → Option ℕ → Kernel → Option ℕ × Kernel
set_table i table k = test_table i (put k i (record (k.proc i) { pagetable = table })) table

abbrev test_frame : ℕ → Option ℕ → Kernel → Option ℕ → Option ℕ × Kernel
test_frame i table k none = (none, freeproc k i)
test_frame i table k (some f) = set_table i table k

abbrev set_frame : ℕ → Option ℕ → Option ℕ → Kernel → Option ℕ × Kernel
set_frame i page table k =
    test_frame i table (put k i (record (k.proc i) { trapframe = page })) page

-- The code behind the label `found`.
pub found : Option ℕ → Option ℕ → ℕ → Kernel → Option ℕ × Kernel
found page table i k =
    let (pid, k') = allocpid k in
    set_frame i page table (put k' i (record (k'.proc i) { pid = pid; state = used }))

abbrev found_in : Option ℕ → Option ℕ → Kernel → Option ℕ → Option ℕ × Kernel
found_in page table k none = (none, k)
found_in page table k (some i) = found page table i k

unfoldable pub allocproc : Option ℕ → Option ℕ → Kernel → Option ℕ × Kernel
unfolding found allocpid
allocproc page table k = found_in page table k (find_from nproc 0 (λ p. is_unused p.state) k.proc)
