-- ===== src/Kernel/Buffers.antt =====
-- xv6/kernel/bio.c. A pointer to `bcache.buf[i]` is the index `i`, and `&bcache.head` is NBUF; the
-- fields `next` and `prev` of all buffers and of the head are two functions. The functions run under
-- `bcache.lock`; the sleeping lock of a buffer, which `bget` takes behind that, is left out.
-- `disk dev blockno` are the words that the device holds.
pub mod Ring
pub mod Recency
pub mod Lookup
pub mod Coherent
mod Tests
use osn_mp.Common.{
  ℕ, zero, suc, ◌+◌, ◌-◌, ◌*◌, Bool, true, false, ◌&&◌, Option, none, some, ◌==◌, if◌then◌else◌,
}
use osn_mp.Common.Arrays.{update}
use osn_mp.Kernel.Log.{max_op_blocks}

-- `NBUF` of xv6/kernel/param.h
abbrev pub nbuf : ℕ
nbuf = max_op_blocks * 3

abbrev pub head : ℕ
head = nbuf

-- `struct buf` without its links
pub record Buf : Type 0 where
  pub valid : Bool
  pub dev : ℕ
  pub blockno : ℕ
  pub refcnt : ℕ
  pub words : ℕ → ℕ

-- `bcache`
pub record Cache : Type 0 where
  pub buf : ℕ → Buf
  pub next : ℕ → ℕ
  pub prev : ℕ → ℕ

abbrev pub put : Cache → ℕ → Buf → Cache
put c b x = record c { buf = update c.buf b x }

-- The four stores that put `b` behind the head, in `binit` and in `brelse`.
unfoldable pub link_front : ℕ → Cache → Cache
link_front b c =
    let next = update c.next b (c.next head) in
    let prev = update c.prev b head in
    record c { next = update next head b; prev = update prev (next head) b }

-- `b->next->prev = b->prev; b->prev->next = b->next;`
unfoldable pub unlink : ℕ → Cache → Cache
unlink b c =
    let prev = update c.prev (c.next b) (c.prev b) in
    record c { next = update c.next (prev b) (c.next b); prev = prev }

-- The loop of `binit` with `m` rounds left.
unfoldable pub link_from : ℕ → ℕ → Cache → Cache
link_from zero b c = c
link_from (suc m) b c = link_from m (b + 1) (link_front b c)

unfoldable pub binit : Cache → Cache
unfolding link_from link_front
binit c =
    link_from nbuf 0 (record c { next = update c.next head head; prev = update c.prev head head })

-- A loop along `next` or `prev`, from `b` on: the first buffer that passes the test.
unfoldable pub walk : (ℕ → ℕ) → (ℕ → Bool) → ℕ → ℕ → Option ℕ
walk step test zero b = none
walk step test (suc fuel) b =
    let rest = walk step test fuel (step b) in
    if b == head then none else if test b then some b else rest

abbrev pub holds : ℕ → ℕ → Buf → Bool
holds dev blockno x = x.dev == dev && x.blockno == blockno

abbrev pub is_free : Buf → Bool
is_free x = x.refcnt == 0

abbrev pub taken : ℕ → ℕ → Buf → Buf
taken dev blockno x = record x { dev = dev; blockno = blockno; valid = false; refcnt = 1 }

-- The second loop of `bget`; `none` is its panic.
abbrev pub recycle : ℕ → ℕ → Cache → Option ℕ → Option (ℕ × Cache)
recycle dev blockno c none = none
recycle dev blockno c (some b) = some (b, put c b (taken dev blockno (c.buf b)))

abbrev pub found_or_recycle : ℕ → ℕ → Cache → Option ℕ → Option (ℕ × Cache)
found_or_recycle dev blockno c (some b) =
    some (b, put c b (record (c.buf b) { refcnt = (c.buf b).refcnt + 1 }))
found_or_recycle dev blockno c none =
    recycle dev blockno c (walk c.prev (λ b. is_free (c.buf b)) (suc nbuf) (c.prev head))

-- `bget`. One round more than there are buffers brings each loop back to the head.
unfoldable pub bget : ℕ → ℕ → Cache → Option (ℕ × Cache)
bget dev blockno c =
    found_or_recycle dev blockno c
      (walk c.next (λ b. holds dev blockno (c.buf b)) (suc nbuf) (c.next head))

-- `if(!b->valid)` of `bread`
abbrev pub fill : (ℕ → ℕ → ℕ → ℕ) → ℕ → Cache → Cache
fill disk b c =
    let x = c.buf b in
    if x.valid then c else put c b (record x { words = disk x.dev x.blockno; valid = true })

abbrev pub filled : (ℕ → ℕ → ℕ → ℕ) → Option (ℕ × Cache) → Option (ℕ × Cache)
filled disk none = none
filled disk (some (b, c)) = some (b, fill disk b c)

unfoldable pub bread : (ℕ → ℕ → ℕ → ℕ) → ℕ → ℕ → Cache → Option (ℕ × Cache)
unfolding bget
bread disk dev blockno c = filled disk (bget dev blockno c)

-- `brelse` of a buffer that the caller has locked, so that its count is not 0.
unfoldable pub brelse : ℕ → Cache → Cache
unfolding unlink link_front
brelse b c =
    let x = c.buf b in
    let c' = put c b (record x { refcnt = x.refcnt - 1 }) in
    if x.refcnt - 1 == 0 then link_front b (unlink b c') else c'
