-- ===== src/Kernel/Fs/Table.antt =====
-- The table of inodes in memory: `iget`, `idup` and `iput` of xv6/kernel/fs.c. A pointer into the table
-- is an index. None is a panic. `iput` is one step: what others do to the table while it truncates is
-- not in it.
pub mod Counts
pub mod Given
pub mod Dropped
mod Tests
use osn_mp.Common.{
  ℕ, zero, suc, ◌+◌, ◌-◌, Bool, true, false, ◌&&◌, Option, none, some, ltb, ◌==◌, if◌then◌else◌,
}
use osn_mp.Common.Arrays.{update}
use osn_mp.Kernel.Fs.{Store, Superblock}
use osn_mp.Kernel.Fs.Inode.{Inode}
use osn_mp.Kernel.Fs.Dinode.{ifree}
use osn_mp.Kernel.Fs.Trunc.{itrunc}

-- `struct inode`, with what is on disk of it.
pub record TableInode : Type 0 where
  pub dev : ℕ
  pub inum : ℕ
  pub ref : ℕ
  pub valid : Bool
  pub inode : Inode

abbrev pub ninode : ℕ
ninode = 50

abbrev pub Itable : Type 0
Itable = ℕ → TableInode

abbrev pub holds_inode : TableInode → ℕ → ℕ → Bool
holds_inode e dev inum = ltb 0 e.ref && e.dev == dev && e.inum == inum

pub data Search : Type 0 where
  found : ℕ → Search
  ended : Option ℕ → Search

-- The loop of `iget` at `i`, with `m` entries left.
unfoldable pub scan_inodes : ℕ → ℕ → ℕ → ℕ → Option ℕ → Itable → Search
scan_inodes zero i dev inum empty t = ended empty
scan_inodes (suc m) i dev inum empty t =
    let empty' : Option ℕ = elim empty [
      | none ↦ (if (t i).ref == 0 then some i else none)
      | some k ↦ some k
    ] in
    let rest = scan_inodes m (i + 1) dev inum empty' t in
    if holds_inode (t i) dev inum then found i else rest

unfoldable pub iget : ℕ → ℕ → Itable → Option (ℕ × Itable)
iget dev inum t = elim (scan_inodes ninode 0 dev inum none t) [
  | found i ↦ some (i, update t i (record (t i) { ref = (t i).ref + 1 }))
  | ended none ↦ none
  | ended (some i) ↦
      some (i, update t i (record (t i) { dev = dev; inum = inum; ref = 1; valid = false }))
]

unfoldable pub idup : ℕ → Itable → Itable
idup i t = update t i (record (t i) { ref = (t i).ref + 1 })

-- `last` of `iput`
abbrev pub is_last : TableInode → Bool
is_last e = e.ref == 1 && e.valid && e.inode.nlink == 0

unfoldable pub iput : Superblock → ℕ → Itable → Store → Option (Itable × Store)
iput sb i t st =
    let e = t i in
    if is_last e
    then elim (itrunc sb e.inum e.inode st) [
      | none ↦ none
      | some (ip, st') ↦ some (
        update t i (record e { ref = e.ref - 1; valid = false; inode = ip }),
        ifree sb e.inum st',
      )
    ]
    else some (update t i (record e { ref = e.ref - 1 }), st)
