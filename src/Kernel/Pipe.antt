-- ===== src/Kernel/Pipe.antt =====
-- xv6/kernel/pipe.c. The functions run under `pi->lock`, which they give up only to sleep: each is
-- modelled up to its return or its `sleep`, behind which its loop is entered again.
-- User memory is an argument: `copyin a` is the byte at the address `a`, and `copyout a c` says
-- whether the byte can be stored there. `killed` says what `killed(pr)` returns at each round.
pub mod Contents
pub mod Write
pub mod Read
mod Tests
use osn_mp.Common.{
  ℕ, zero, suc, ◌+◌, ◌%◌, ◌^◌, List, [], ◌∷◌, Bool, true, false, ◌&&◌, ◌||◌, not, Option, none,
  some, ◌==◌, if◌then◌else◌,
}
use osn_mp.Common.Int.{ℤ, pos, minus_one}
use osn_mp.Common.Arrays.{update}

abbrev pub pipe_size : ℕ
pipe_size = 512

-- `struct pipe`; `nread` and `nwrite` are `uint`.
pub record Pipe : Type 0 where
  pub buffer : ℕ → ℕ
  pub nread : ℕ
  pub nwrite : ℕ
  pub readopen : Bool
  pub writeopen : Bool

-- What `pipealloc` makes of a page.
unfoldable pub pipealloc : (ℕ → ℕ) → Pipe
pipealloc page = record { buffer = page; nread = 0; nwrite = 0; readopen = true; writeopen = true }

-- `pipeclose`, and whether it frees the page.
unfoldable pub pipeclose : Bool → Pipe → Pipe × Bool
pipeclose writable pi =
    let pi' =
      if writable then record pi { writeopen = false } else record pi { readopen = false } in
    (pi', not pi'.readopen && not pi'.writeopen)

abbrev pub is_empty : Pipe → Bool
is_empty pi = pi.nread == pi.nwrite

abbrev pub is_full : Pipe → Bool
is_full pi = pi.nwrite == (pi.nread + pipe_size) % 2 ^ 32

-- `pi->data[pi->nwrite++ % PIPESIZE] = ch`
unfoldable pub store_byte : ℕ → Pipe → Pipe
store_byte ch pi = record pi {
  buffer = update pi.buffer (pi.nwrite % pipe_size) ch;
  nwrite = (pi.nwrite + 1) % 2 ^ 32;
}

abbrev pub oldest : Pipe → ℕ
oldest pi = pi.buffer (pi.nread % pipe_size)

unfoldable pub drop_byte : Pipe → Pipe
drop_byte pi = record pi { nread = (pi.nread + 1) % 2 ^ 32 }

-- How a stretch of `pipewrite` ends: it returns what it has written or -1 behind the last
-- `wakeup(&pi->nread)`, it returns -1 at once, or it sleeps with `i` bytes written.
pub data WriteEnd : Type 0 where
  returned : ℤ → Pipe → WriteEnd
  refused : Pipe → WriteEnd
  waiting : ℕ → Pipe → WriteEnd

-- `if (i == 0) i = -1; break;`
abbrev pub broken_off : ℕ → ℤ
broken_off i = if i == 0 then minus_one else pos i

module _ (killed : ℕ → Bool) (copyin : ℕ → Option ℕ) (addr : ℕ) where
  -- The loop with `m` bytes left, of which `i` are written.
  unfoldable pub write_from : ℕ → ℕ → Pipe → WriteEnd
  write_from zero i pi = returned (pos i) pi
  write_from (suc m) i pi =
      let rest = λ (ch : ℕ). write_from m (i + 1) (store_byte ch pi) in
      if not pi.readopen || killed i
      then refused pi
      else if is_full pi
      then waiting i pi
      else elim (copyin (addr + i)) [ none ↦ returned (broken_off i) pi | some ch ↦ rest ch ]

  -- A call for `n` bytes, up to its first sleep.
  unfoldable pub pipewrite : ℕ → Pipe → WriteEnd
  pipewrite n pi = write_from n 0 pi

-- How a stretch of `piperead` ends. `delivered` are the bytes stored in user memory, in order.
pub data ReadEnd : Type 0 where
  returned : ℤ → List ℕ → Pipe → ReadEnd
  refused : ReadEnd
  waiting : ReadEnd

abbrev pub deliver : ℕ → ReadEnd → ReadEnd
deliver ch (returned r bytes pi) = returned r (ch ∷ bytes) pi
deliver ch refused = refused
deliver ch waiting = waiting

module _ (killed : Bool) (copyout : ℕ → ℕ → Bool) (addr : ℕ) where
  -- The copying loop with `m` bytes left, of which `i` are copied.
  unfoldable pub read_from : ℕ → ℕ → Pipe → ReadEnd
  read_from zero i pi = returned (pos i) [] pi
  read_from (suc m) i pi =
      let rest = deliver (oldest pi) (read_from m (i + 1) (drop_byte pi)) in
      if is_empty pi
      then returned (pos i) [] pi
      else if copyout (addr + i) (oldest pi)
      then rest
      else returned (broken_off i) [] pi

  unfoldable pub piperead : ℕ → Pipe → ReadEnd
  piperead n pi =
      if is_empty pi && pi.writeopen
      then (if killed then refused else waiting)
      else read_from n 0 pi
