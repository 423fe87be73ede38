-- ===== src/Kernel/Fs/Inode.antt =====
-- `bmap` of xv6/kernel/fs.c: the blocks of an inode's content. `struct inode` as far as it is on disk;
-- a `short` is its 16 bits.
pub mod Mapped
pub mod Grown
pub mod Indirect
pub mod Bmap
pub mod Total
mod Tests
use osn_mp.Common.{
  ℕ, ◌+◌, ◌-◌, Bool, true, false, not, Option, none, some, ltb, ◌==◌, if◌then◌else◌,
}
use osn_mp.Common.Arrays.{update}
use osn_mp.Kernel.Fs.{Store, Superblock, write_block}
use osn_mp.Kernel.Fs.Words.{word, set_word}
use osn_mp.Kernel.Fs.Bitmap.{balloc}

pub record Inode : Type 0 where
  pub type : ℕ
  pub major : ℕ
  pub minor : ℕ
  pub nlink : ℕ
  pub size : ℕ
  pub addrs : ℕ → ℕ

-- `NDIRECT` and `NINDIRECT`
abbrev pub ndirect : ℕ
ndirect = 12

abbrev pub nindirect : ℕ
nindirect = 256

-- An address, or 0, with the inode and the store.
pub record Addressed : Type 0 where
  pub addr : ℕ
  pub inode : Inode
  pub store : Store

module _ (sb : Superblock) where
  -- The address in `ip->addrs[slot]`, allocated if it is 0.
  unfoldable pub slot_addr : ℕ → Inode → Store → Addressed
  slot_addr slot ip st =
      let (addr, st') = balloc sb st in
      if not (ip.addrs slot == 0)
      then record { addr = ip.addrs slot; inode = ip; store = st }
      else if addr == 0
      then record { addr = 0; inode = ip; store = st' }
      else record {
        addr = addr;
        inode = record ip { addrs = update ip.addrs slot addr };
        store = st';
      }

  -- The address in `a[i]` of the indirect block `ind`, allocated if it is 0.
  unfoldable pub word_addr : ℕ → ℕ → Store → ℕ × Store
  word_addr ind i st =
      let (addr, st') = balloc sb st in
      if not (word (st.content ind) i == 0)
      then (word (st.content ind) i, st)
      else if addr == 0
      then (0, st')
      else (addr, write_block ind (set_word (st'.content ind) i addr) st')

  unfoldable pub bmap : Inode → ℕ → Store → Option Addressed
  bmap ip bn st =
      let i = bn - ndirect in
      let indirect = slot_addr ndirect ip st in
      let (addr, st') = word_addr indirect.addr i indirect.store in
      if ltb bn ndirect
      then some (slot_addr bn ip st)
      else if ltb i nindirect
      then (if indirect.addr == 0
          then some indirect
          else some (record { addr = addr; inode = indirect.inode; store = st' }))
      else none
