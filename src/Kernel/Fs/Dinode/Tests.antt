-- ===== src/Kernel/Fs/Dinode/Tests.antt =====
-- Runs of the inode allocator, and the theorems at them.
use osn_mp.Common.{◌+◌, [], ◌&&◌, ◌||◌, some, none, ◌==◌, ◌≡◌, refl, arith, if◌then◌else◌}
use osn_mp.Kernel.Fs.{Store, Superblock}
use osn_mp.Kernel.Fs.Words.{word, set_word}
use osn_mp.Kernel.Fs.Inode.{Inode}
use osn_mp.Kernel.Fs.Dinode.{
  ialloc, ialloc_from, iupdate, read_inode, get_dinode, put_dinode, half, set_half, set_words,
}
use osn_mp.Kernel.Fs.Dinode.Written.{IsSame, IsFit}
use osn_mp.Kernel.Fs.Dinode.Given.{disk_inode, Changed, iupdate-Changed}
use osn_mp.Kernel.Fs.Dinode.Found.{Ialloc, ialloc-Ialloc}

abbrev disk : Superblock
disk = record { size = 20; ninodes = 20; inodestart = 2; bmapstart = 4 }

-- The inodes 0 and 1 have a type.
abbrev start : Store
start = record { content = λ b i. if b == 2 && (i == 0 || i == 64) then 1 else 0; logged = [] }

abbrev file : Inode
file = record { type = 2; major = 1; minor = 3; nlink = 1; size = 70000; addrs = λ i. 600 + i }

next_inode : (ialloc disk 2 start).0 ≡ 2
unfolding ialloc ialloc_from half
next_inode = refl

second_block : (disk_inode disk (iupdate disk 17 file start) 17).size ≡ 70000
unfolding iupdate get_dinode put_dinode word set_word set_words set_half
second_block = refl

no_type : read_inode disk 5 start ≡ none
unfolding read_inode get_dinode half
no_type = refl

file-IsFit : IsFit file
file-IsFit = record {
  type = omega arith;
  major = omega arith;
  minor = omega arith;
  nlink = omega arith;
  size = omega arith;
  addrs = λ i l. omega arith;
}

iupdate-Changed_example :
    Changed disk 17 file start (iupdate disk 17 file start)
    × ((jp : Inode) × (read_inode disk 17 (iupdate disk 17 file start) ≡ some jp) × IsSame jp file)
iupdate-Changed_example = iupdate-Changed disk 17 file start file-IsFit (λ e. omega arith)

ialloc-Ialloc_example : Ialloc disk 2 start (ialloc disk 2 start)
ialloc-Ialloc_example = ialloc-Ialloc disk 2 (omega arith) start
