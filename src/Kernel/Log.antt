-- ===== src/Kernel/Log.antt =====
-- xv6/kernel/log.c. A block is its 32-bit words, so the header block holds `n` in word 0 and
-- `block[i]` in word `i + 1`. `content b` is what `bread` finds in the block `b`: the cached copy, or
-- the disk's where none is cached. `bwrite` writes one block as a whole, and a function returns the
-- writes that it makes, in order, since a crash may come between any two. `pins b` counts the
-- references that `bpin` has taken on the buffer of `b`. The functions on `struct log` run under
-- `log.lock`; a call that sleeps is modelled as a round of its loop. Their calls `wakeup(&log)` only
-- make such rounds run again and are left out.
pub mod Loops
pub mod Phases
pub mod Crash
pub mod Steps
pub mod Space
pub mod Absorb
mod Tests
use osn_mp.Common.{
  ℕ, zero, suc, ◌+◌, ◌-◌, ◌*◌, List, [], ◌∷◌, ◌++◌, Bool, true, false, ◌||◌, Option, none, some,
  ltb, leb, ◌==◌, if◌then◌else◌,
}
use osn_mp.Common.Arrays.{update}

-- `MAXOPBLOCKS` and `LOGBLOCKS` of xv6/kernel/param.h
abbrev pub max_op_blocks : ℕ
max_op_blocks = 10

abbrev pub log_blocks : ℕ
log_blocks = max_op_blocks * 3

abbrev pub Words : Type 0
Words = ℕ → ℕ

abbrev pub Disk : Type 0
Disk = ℕ → Words

-- A call of `bwrite`: the block's number and its words.
abbrev pub Write : Type 0
Write = ℕ × Words

-- `struct log` with the fields of its `struct logheader`
pub record Log : Type 0 where
  pub start : ℕ
  pub outstanding : ℕ
  pub committing : Bool
  pub ncommit : ℕ
  pub n : ℕ
  pub block : ℕ → ℕ

pub record Cache : Type 0 where
  pub content : Disk
  pub pins : ℕ → ℕ

abbrev pub modify : Cache → ℕ → Words → Cache
modify c b w = record c { content = update c.content b w }

abbrev pub bpin : Cache → ℕ → Cache
bpin c b = record c { pins = update c.pins b (c.pins b + 1) }

abbrev pub bunpin : Cache → ℕ → Cache
bunpin c b = record c { pins = update c.pins b (c.pins b - 1) }

abbrev pub after : Write → Cache × List Write → Cache × List Write
after w (c, ws) = (c, w ∷ ws)

-- The loop of `install_trans` with `m` rounds left.
unfoldable pub install_from : Bool → ℕ → ℕ → Log → Cache → Cache × List Write
install_from recovering zero tail log c = (c, [])
install_from recovering (suc m) tail log c =
    let dst = log.block tail in
    let data_block = c.content (log.start + tail + 1) in
    let c' = modify c dst data_block in
    after (dst, data_block)
      (install_from recovering m (tail + 1) log (if recovering then c' else bunpin c' dst))

unfoldable pub install_trans : Bool → Log → Cache → Cache × List Write
unfolding install_from
install_trans recovering log c = install_from recovering log.n 0 log c

-- The loop of `read_head`, from the words of the header block.
unfoldable pub read_blocks : ℕ → ℕ → Words → (ℕ → ℕ) → ℕ → ℕ
read_blocks zero i hb block = block
read_blocks (suc m) i hb block = read_blocks m (i + 1) hb (update block i (hb (i + 1)))

unfoldable pub read_head : Log → Cache → Log
unfolding read_blocks
read_head log c =
    let hb = c.content log.start in
    record log { n = hb 0; block = read_blocks (hb 0) 0 hb log.block }

-- The loop of `write_head`.
unfoldable pub write_blocks : ℕ → ℕ → (ℕ → ℕ) → Words → ℕ → ℕ
write_blocks zero i block hb = hb
write_blocks (suc m) i block hb = write_blocks m (i + 1) block (update hb (i + 1) (block i))

-- The header block as `write_head` fills it.
unfoldable pub head_of : Log → Words → Words
unfolding write_blocks
head_of log hb = write_blocks log.n 0 log.block (update hb 0 log.n)

unfoldable pub write_head : Log → Cache → Cache × List Write
unfolding head_of
write_head log c =
    let hb = head_of log (c.content log.start) in (modify c log.start hb, (log.start, hb) ∷ [])

-- One part of a call and then another, with the writes of both.
infixl 5 ◌⨾◌
abbrev pub ◌⨾◌ : Cache × List Write → (Cache → Cache × List Write) → Cache × List Write
(c, ws) ⨾ f = let (c', vs) = f c in (c', ws ++ vs)

abbrev pub cleared : Log → Log
cleared log = record log { n = 0 }

-- `recover_from_log` with the log that it leaves.
unfoldable pub recover_from_log : Log → Cache → Log × Cache × List Write
unfolding read_head install_trans write_head
recover_from_log log c =
    let read = read_head log c in
    let (c', ws) = install_trans true read c ⨾ write_head (cleared read) in (cleared read, c', ws)

-- `initlog` at boot, when `struct log` is zero but for `start` and no block is cached.
abbrev pub zero_log : ℕ → Log
zero_log start = record {
  start = start;
  outstanding = 0;
  committing = false;
  ncommit = 0;
  n = 0;
  block = λ _. 0;
}

abbrev pub uncached : Disk → Cache
uncached disk = record { content = disk; pins = λ _. 0 }

unfoldable pub initlog : ℕ → Disk → Log × Cache × List Write
unfolding recover_from_log
initlog start disk = recover_from_log (zero_log start) (uncached disk)

-- The loop of `write_log` with `m` rounds left.
unfoldable pub write_log_from : ℕ → ℕ → Log → Cache → Cache × List Write
write_log_from zero tail log c = (c, [])
write_log_from (suc m) tail log c =
    let to = log.start + tail + 1 in
    let from = c.content (log.block tail) in
    after (to, from) (write_log_from m (tail + 1) log (modify c to from))

unfoldable pub write_log : Log → Cache → Cache × List Write
unfolding write_log_from
write_log log c = write_log_from log.n 0 log c

unfoldable pub commit : Log → Cache → Log × Cache × List Write
unfolding write_log write_head install_trans
commit log c =
    let (c', ws) =
      write_log log c ⨾ write_head log ⨾ install_trans false log ⨾ write_head (cleared log) in
    if ltb 0 log.n then (cleared log, c', ws) else (log, c, [])

-- A round of the loop of `begin_op`: `none` where it sleeps on `&log`.
unfoldable pub begin_op : Log → Option Log
begin_op log =
    if log.committing
    then none
    else if ltb log_blocks (log.n + (log.outstanding + 1) * max_op_blocks)
    then none
    else some (record log { outstanding = log.outstanding + 1 })

-- What `end_op` comes to before it lets go of the lock: the panic, or the log with `do_commit`. It is
-- for an operation that `begin_op` let in, so that `outstanding` is not 0.
pub data End : Type 0 where
  panic : End
  ended : Bool → Log → End

unfoldable pub end_op : Log → End
end_op log =
    let outstanding = log.outstanding - 1 in
    if log.committing
    then panic
    else if outstanding == 0
    then ended true (record log { outstanding = outstanding; committing = true })
    else ended false (record log { outstanding = outstanding })

-- `end_op` behind its call of `commit`, where `do_commit` is set.
unfoldable pub end_commit : Log → Log
end_commit log = record log { committing = false; ncommit = log.ncommit + 1 }

-- The loop of `log_write`: the first slot from `i` on, of `m` left, that holds `b`, or the end.
unfoldable pub find_slot : ℕ → ℕ → ℕ → (ℕ → ℕ) → ℕ
find_slot zero i b block = i
find_slot (suc m) i b block =
    let rest = find_slot m (i + 1) b block in if block i == b then i else rest

-- `log_write` of the buffer of `b`; `none` is one of its two panics.
unfoldable pub log_write : ℕ → Log → Cache → Option (Log × Cache)
unfolding find_slot
log_write b log c =
    let i = find_slot log.n 0 b log.block in
    let log' = record log { block = update log.block i b } in
    if leb log_blocks log.n || ltb log.outstanding 1
    then none
    else if i == log.n
    then some (record log' { n = log.n + 1 }, bpin c b)
    else some (log', c)

-- `sys_sync` begins: the number of commits that it waits for, if it waits.
unfoldable pub sync_target : Log → Option ℕ
sync_target log = if log.committing || ltb 0 log.outstanding then some (log.ncommit + 1) else none
