-- ===== src/Kernel/Fs/Dinode.antt =====
-- `struct dinode` on disk: `iupdate`, `ifree`, `ialloc` and what `ilock` reads, of xv6/kernel/fs.c.
-- A dinode has 64 bytes: four `short`s, the size and 13 addresses.
pub mod Fields
pub mod Written
pub mod Given
pub mod Found
mod Tests
use osn_mp.Common.{
  ℕ, zero, suc, ◌+◌, ◌-◌, ◌*◌, ◌/◌, ◌%◌, Bool, true, false, Option, none, some, ltb, leb, ◌&&◌,
  ◌==◌, if◌then◌else◌,
}
use osn_mp.Kernel.Fs.{Block, Store, Superblock, write_block}
use osn_mp.Kernel.Fs.Words.{word, set_word}
use osn_mp.Kernel.Fs.Inode.{Inode}

-- `IPB` and `IBLOCK`
abbrev pub ipb : ℕ
ipb = 16

abbrev pub iblock : Superblock → ℕ → ℕ
iblock sb i = i / ipb + sb.inodestart

-- A `short` of a block, and a write of one.
unfoldable pub half : Block → ℕ → ℕ
half block h = block (h * 2) + 0x100 * block (h * 2 + 1)

unfoldable pub set_half : Block → ℕ → ℕ → Block
set_half block h v a =
    if a / 2 == h then (if a % 2 == 0 then v % 0x100 else v / 0x100 % 0x100) else block a

-- `memmove` of `n` addresses, to the words from `w` on.
unfoldable pub set_words : ℕ → ℕ → (ℕ → ℕ) → Block → Block
set_words zero w from block = block
set_words (suc n) w from block = set_word (set_words n w from block) (w + n) (from n)

-- `*dip` for the dinode `k` of the block.
unfoldable pub put_dinode : ℕ → Inode → Block → Block
put_dinode k ip block =
    let b1 = set_half block (k * 32) ip.type in
    let b2 = set_half b1 (k * 32 + 1) ip.major in
    let b3 = set_half b2 (k * 32 + 2) ip.minor in
    let b4 = set_half b3 (k * 32 + 3) ip.nlink in
    let b5 = set_word b4 (k * 16 + 2) ip.size in set_words 13 (k * 16 + 3) ip.addrs b5

-- What `ilock` reads of it; the inode has 13 addresses.
unfoldable pub get_dinode : ℕ → Block → Inode
get_dinode k block = record {
  type = half block (k * 32);
  major = half block (k * 32 + 1);
  minor = half block (k * 32 + 2);
  nlink = half block (k * 32 + 3);
  size = word block (k * 16 + 2);
  addrs = λ i. word block (k * 16 + 3 + i);
}

-- `memset(dip, 0, sizeof(*dip))`
unfoldable pub zero_dinode : ℕ → Block → Block
zero_dinode k block a = if a / 64 == k then 0 else block a

module _ (sb : Superblock) where
  unfoldable pub iupdate : ℕ → Inode → Store → Store
  iupdate inum ip st =
      write_block (iblock sb inum) (put_dinode (inum % ipb) ip (st.content (iblock sb inum))) st

  -- The inode behind `ilock` where it was not valid; none is the panic "no type".
  unfoldable pub read_inode : ℕ → Store → Option Inode
  read_inode inum st =
      let ip = get_dinode (inum % ipb) (st.content (iblock sb inum)) in
      if ip.type == 0 then none else some ip

  unfoldable pub ifree : ℕ → Store → Store
  ifree inum st =
      write_block (iblock sb inum) (set_half (st.content (iblock sb inum)) (inum % ipb * 32) 0) st

  abbrev pub disk_type : Store → ℕ → ℕ
  disk_type st inum = half (st.content (iblock sb inum)) (inum % ipb * 32)

  -- The loop of `ialloc` at `inum`, with at most `fuel` rounds: the number for `iget`, or 0 for none.
  unfoldable pub ialloc_from : ℕ → ℕ → ℕ → Store → ℕ × Store
  ialloc_from zero inum type st = (0, st)
  ialloc_from (suc fuel) inum type st =
      let rest = ialloc_from fuel (inum + 1) type st in
      let block = st.content (iblock sb inum) in
      let found : ℕ × Store = (
        inum,
        write_block (iblock sb inum)
            (set_half (zero_dinode (inum % ipb) block) (inum % ipb * 32) type) st,
      ) in
      if ltb inum sb.ninodes then (if disk_type st inum == 0 then found else rest) else (0, st)

  unfoldable pub ialloc : ℕ → Store → ℕ × Store
  ialloc type st = ialloc_from sb.ninodes 1 type st
