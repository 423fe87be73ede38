-- ===== src/Kernel/Fs.antt =====
-- xv6/kernel/fs.c and fs.h on one device. A block is its bytes. `content b` is what `bread` finds in the
-- block `b`, and `logged` are the blocks given to `log_write` in this operation, in order: what the log
-- and the buffer cache do with them is the subject of Kernel.Log and Kernel.Buffers. A panic is none.
pub mod Bitmap
pub mod Words
pub mod Inode
pub mod Dinode
pub mod Trunc
pub mod Content
pub mod Table
pub mod Path
mod Sample
use osn_mp.Common.{ℕ, ◌+◌, ◌/◌, ◌%◌, List, [], ◌∷◌, ◌++◌}
use osn_mp.Common.Arrays.{update}

abbrev pub bsize : ℕ
bsize = 1024

abbrev pub Block : Type 0
Block = ℕ → ℕ

pub record Store : Type 0 where
  pub content : ℕ → Block
  pub logged : List ℕ

-- A block that is changed and given to `log_write`.
abbrev pub write_block : ℕ → Block → Store → Store
write_block b block st = record {
  content = update st.content b block;
  logged = st.logged ++ b ∷ [];
}

-- `struct superblock`, as far as it is read.
pub record Superblock : Type 0 where
  pub size : ℕ
  pub ninodes : ℕ
  pub inodestart : ℕ
  pub bmapstart : ℕ

-- `BPB` and `BBLOCK`
abbrev pub bpb : ℕ
bpb = 8192

abbrev pub bblock : Superblock → ℕ → ℕ
bblock sb b = b / bpb + sb.bmapstart
