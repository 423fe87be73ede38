-- ===== src/Kernel/Fs/Bitmap.antt =====
-- `bzero`, `balloc` and `bfree` of xv6/kernel/fs.c.
pub mod Blocks
pub mod Allocated
pub mod Outcomes
mod Tests
use osn_mp.Common.{
  ℕ, zero, suc, ◌+◌, ◌/◌, ◌%◌, Bool, true, false, not, Option, none, some, ltb, if◌then◌else◌,
}
use osn_mp.Common.Arrays.{update}
use osn_mp.Common.Bits.{has_bit, with_bit, without_bit}
use osn_mp.Kernel.Fs.{Block, Store, Superblock, write_block, bpb, bblock}

unfoldable pub bzero : ℕ → Store → Store
bzero bno st = write_block bno (λ i. 0) st

-- The loop over the bits of one block of the map, at `bi` with `fuel` bits left: the first free one.
unfoldable pub scan_bits : ℕ → ℕ → ℕ → ℕ → Block → Option ℕ
scan_bits zero bi b size block = none
scan_bits (suc fuel) bi b size block =
    let rest = scan_bits fuel (bi + 1) b size block in
    if ltb (b + bi) size
    then (if has_bit (block (bi / 8)) (bi % 8) then rest else some bi)
    else none

-- A byte of the map with the bit of `bi` set or cleared.
unfoldable pub mark_used : ℕ → Block → Block
mark_used bi block = update block (bi / 8) (with_bit (block (bi / 8)) (bi % 8))

unfoldable pub mark_free : ℕ → Block → Block
mark_free bi block = update block (bi / 8) (without_bit (block (bi / 8)) (bi % 8))

module _ (sb : Superblock) where
  -- The loop over the blocks of the map, with at most `fuel` rounds. 0 is out of blocks.
  unfoldable pub scan_blocks : ℕ → ℕ → Store → ℕ × Store
  scan_blocks zero b st = (0, st)
  scan_blocks (suc fuel) b st =
      let block = st.content (bblock sb b) in
      let rest = scan_blocks fuel (b + bpb) st in
      let found : ℕ → ℕ × Store =
        λ bi. (b + bi, bzero (b + bi) (write_block (bblock sb b) (mark_used bi block) st)) in
      if ltb b sb.size
      then elim (scan_bits bpb 0 b sb.size block) [ none ↦ rest | some bi ↦ found bi ]
      else (0, st)

  -- One round for each block of the map, and one more, end the loop.
  unfoldable pub balloc : Store → ℕ × Store
  unfolding bzero mark_used scan_blocks
  balloc st = scan_blocks (sb.size / bpb + 2) 0 st

  unfoldable pub bfree : ℕ → Store → Option Store
  unfolding mark_free
  bfree b st =
      let block = st.content (bblock sb b) in
      let bi = b % bpb in
      if has_bit (block (bi / 8)) (bi % 8)
      then some (write_block (bblock sb b) (mark_free bi block) st)
      else none
