-- ===== src/Kernel/Fs/Trunc.antt =====
-- `itrunc` of xv6/kernel/fs.c. None is the panic of `bfree`.
pub mod Freeing
pub mod Emptied
pub mod Truncated
mod Tests
use osn_mp.Common.{ℕ, zero, suc, ◌+◌, Option, none, some, ◌==◌, if◌then◌else◌}
use osn_mp.Common.Arrays.{update}
use osn_mp.Kernel.Fs.{Store, Superblock}
use osn_mp.Kernel.Fs.Words.{word}
use osn_mp.Kernel.Fs.Bitmap.{bfree}
use osn_mp.Kernel.Fs.Inode.{Inode, ndirect, nindirect}
use osn_mp.Kernel.Fs.Dinode.{iupdate}

module _ (sb : Superblock) where
  -- The loop over the direct addresses, at `i` with `m` rounds left.
  unfoldable pub free_slots : ℕ → ℕ → (ℕ → ℕ) → Store → Option ((ℕ → ℕ) × Store)
  free_slots zero i addrs st = some (addrs, st)
  free_slots (suc m) i addrs st =
      let skipped = free_slots m (i + 1) addrs st in
      if addrs i == 0 then skipped else elim (bfree sb (addrs i) st) [
        | none ↦ none
        | some st' ↦ free_slots m (i + 1) (update addrs i 0) st'
      ]

  -- The loop over the words of the indirect block.
  unfoldable pub free_words : ℕ → ℕ → ℕ → Store → Option Store
  free_words zero j ind st = some st
  free_words (suc m) j ind st =
      let skipped = free_words m (j + 1) ind st in
      if word (st.content ind) j == 0
      then skipped
      else elim (bfree sb (word (st.content ind) j) st) [
        | none ↦ none
        | some st' ↦ free_words m (j + 1) ind st'
      ]

  unfoldable pub free_indirect : (ℕ → ℕ) → Store → Option ((ℕ → ℕ) × Store)
  free_indirect addrs st =
      if addrs ndirect == 0
      then some (addrs, st)
      else elim (free_words nindirect 0 (addrs ndirect) st) [
        | none ↦ none
        | some st' ↦ elim (bfree sb (addrs ndirect) st') [
          | none ↦ none
          | some st2 ↦ some (update addrs ndirect 0, st2)
        ]
      ]

  unfoldable pub itrunc : ℕ → Inode → Store → Option (Inode × Store)
  itrunc inum ip st = elim (free_slots ndirect 0 ip.addrs st) [
    | none ↦ none
    | some (a, st1) ↦ elim (free_indirect a st1) [
      | none ↦ none
      | some (a', st2) ↦
          let ip' : Inode = record ip { addrs = a'; size = 0 } in
          some (ip', iupdate sb inum ip' st2)
    ]
  ]
