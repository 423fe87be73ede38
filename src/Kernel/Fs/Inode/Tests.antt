-- ===== src/Kernel/Fs/Inode/Tests.antt =====
-- Runs of `bmap`, and the theorem at one.
use osn_mp.Common.{ℕ, none, some, ◌≡◌, refl, arith}
use mathlib.Core.Option
use osn_mp.Common.Bits.{has_bit}
use osn_mp.Kernel.Fs.Bitmap.{balloc, scan_blocks, scan_bits, bzero, mark_used}
use osn_mp.Common.Bits.{with_bit}
use osn_mp.Kernel.Fs.Words.{word, set_word}
use osn_mp.Kernel.Fs.Inode.{Addressed, bmap, slot_addr, word_addr}
use osn_mp.Kernel.Fs.Inode.Total.{Bmap, bmap-Bmap}
use osn_mp.Kernel.Fs.Sample.{disk, start, file, start-IsFormatted, file-IsFile}

present_block : Option.map (λ (r : Addressed). r.addr) (bmap disk file 0 start) ≡ some 4
unfolding bmap slot_addr
present_block = refl

-- The indirect block is block 5, and the block of the content block 6.
indirect_block :
    Option.map {B = ℕ × ℕ × ℕ}
      (λ (r : Addressed). (r.addr, r.inode.addrs 12, word (r.store.content 5) 8))
      (bmap disk file 20 start)
    ≡ some (6, 5, 6)
unfolding bmap slot_addr word_addr balloc scan_blocks scan_bits has_bit bzero mark_used with_bit
    word set_word
indirect_block = refl

too_large : bmap disk file 268 start ≡ none
unfolding bmap
too_large = refl

bmap-Bmap_example : Bmap disk 20 file start (bmap disk file 20 start)
bmap-Bmap_example = bmap-Bmap disk file start start-IsFormatted file-IsFile (omega arith) 20
