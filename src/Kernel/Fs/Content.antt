-- ===== src/Kernel/Fs/Content.antt =====
-- `readi` and `writei` of xv6/kernel/fs.c, with `either_copyin` and `either_copyout` as arguments: of
-- the `m` bytes at the address `a`, `ready a m` are copied before an address that cannot be used, and
-- the copy returns -1 just if they are fewer than `m`; `memory` is what is copied in. None is a panic.
pub mod Kept
pub mod Reached
pub mod Copied
pub mod Written
pub mod Updated
pub mod Slices
pub mod Read
pub mod RoundTrip
mod Tests
use osn_mp.Common.{
  ℕ, zero, suc, ◌+◌, ◌-◌, ◌*◌, ◌/◌, ◌%◌, ◌^◌, Bool, true, false, ◌&&◌, ◌||◌, List, [], ◌∷◌, ◌++◌,
  Option, none, some, ltb, leb, ◌==◌, if◌then◌else◌,
}
use osn_mp.Common.Int.{ℤ, pos, minus_one}
use osn_mp.Kernel.Fs.{Block, Store, Superblock, bsize, write_block}
use osn_mp.Kernel.Fs.Inode.{Inode, bmap}
use osn_mp.Kernel.Fs.Inode.Mapped.{maxfile}
use osn_mp.Kernel.Fs.Dinode.{iupdate}

-- `min` of xv6/kernel/fs.c
abbrev pub min : ℕ → ℕ → ℕ
min a b = if ltb a b then a else b

-- `m` bytes of a block, from `a` on.
unfoldable pub stretch : ℕ → ℕ → Block → List ℕ
stretch zero a block = []
stretch (suc m) a block = block a ∷ stretch m (a + 1) block

-- A block with `c` bytes of memory from `a` on.
abbrev pub copied_in : (ℕ → ℕ) → ℕ → ℕ → ℕ → Block → Block
copied_in memory src a c block i =
    if leb a i && ltb i (a + c) then memory (src + (i - a)) else block i

-- The end of a loop: `tot` and `off`.
pub record Transfer : Type 0 where
  pub total : ℕ
  pub off : ℕ
  pub inode : Inode
  pub store : Store

-- What `readi` returns, and the bytes at its destination.
pub record Reading : Type 0 where
  pub value : ℤ
  pub bytes : List ℕ
  pub inode : Inode
  pub store : Store

module _ (sb : Superblock) (ready : ℕ → ℕ → ℕ) where
  -- The loop of `readi`, with at most `fuel` rounds.
  unfoldable pub read_rounds : ℕ → ℕ → ℕ → ℕ → ℕ → Inode → Store → List ℕ → Option Reading
  read_rounds zero tot off dst n ip st out =
      some (record { value = pos tot; bytes = out; inode = ip; store = st })
  read_rounds (suc fuel) tot off dst n ip st out =
      let m = min (n - tot) (bsize - off % bsize) in
      if ltb tot n
      then elim (bmap sb ip (off / bsize) st) [
        | none ↦ none
        | some r ↦
            let block = r.store.content r.addr in
            let rest =
              read_rounds fuel (tot + m) (off + m) (dst + m) n r.inode r.store
                (out ++ stretch m (off % bsize) block) in
            if r.addr == 0
            then some (record { value = pos tot; bytes = out; inode = r.inode; store = r.store })
            else if ltb (ready dst m) m
            then some (record {
              value = minus_one;
              bytes = out ++ stretch (ready dst m) (off % bsize) block;
              inode = r.inode;
              store = r.store;
            })
            else rest
      ]
      else some (record { value = pos tot; bytes = out; inode = ip; store = st })

  -- One round for each block that is reached ends the loop.
  unfoldable pub readi : ℕ → ℕ → ℕ → Inode → Store → Option Reading
  readi dst off n ip st =
      let m = if ltb ip.size ((off + n) % 2 ^ 32) then ip.size - off else n in
      if ltb ip.size off || ltb ((off + n) % 2 ^ 32) off
      then some (record { value = pos 0; bytes = []; inode = ip; store = st })
      else read_rounds (m / bsize + 2) 0 off dst m ip st []

  module _ (memory : ℕ → ℕ) where
    -- The loop of `writei`.
    unfoldable pub write_rounds : ℕ → ℕ → ℕ → ℕ → ℕ → Inode → Store → Option Transfer
    write_rounds zero tot off src n ip st =
        some (record { total = tot; off = off; inode = ip; store = st })
    write_rounds (suc fuel) tot off src n ip st =
        let m = min (n - tot) (bsize - off % bsize) in
        if ltb tot n
        then elim (bmap sb ip (off / bsize) st) [
          | none ↦ none
          | some r ↦
              let with_bytes : ℕ → Store = λ c.
                write_block r.addr (copied_in memory src (off % bsize) c (r.store.content r.addr))
                  r.store in
              let rest = write_rounds fuel (tot + m) (off + m) (src + m) n r.inode (with_bytes m) in
              if r.addr == 0
              then some (record { total = tot; off = off; inode = r.inode; store = r.store })
              else if ltb (ready src m) m
              then some (record {
                total = tot;
                off = off;
                inode = r.inode;
                store = with_bytes (ready src m);
              })
              else rest
        ]
        else some (record { total = tot; off = off; inode = ip; store = st })

    unfoldable pub writei : ℕ → ℕ → ℕ → ℕ → Inode → Store → Option (ℤ × Inode × Store)
    writei inum src off n ip st =
        if ltb ip.size off || ltb ((off + n) % 2 ^ 32) off
        then some (minus_one, ip, st)
        else if ltb (maxfile * bsize) ((off + n) % 2 ^ 32)
        then some (minus_one, ip, st)
        else elim (write_rounds (n / bsize + 2) 0 off src n ip st) [
          | none ↦ none
          | some t ↦
              let ip' : Inode =
                if ltb t.inode.size t.off then record t.inode { size = t.off } else t.inode in
              some (pos t.total, ip', iupdate sb inum ip' t.store)
        ]
