-- ===== src/Kernel/Fs/Trunc/Tests.antt =====
-- Runs of `itrunc`, and the theorem at one.
use osn_mp.Common.{ℕ, [], Bool, false, none, some, ◌≡◌, refl, arith}
use mathlib.Core.Option
use osn_mp.Common.Bits.{has_bit, without_bit}
use osn_mp.Kernel.Fs.{Store}
use osn_mp.Kernel.Fs.Bitmap.{bfree, mark_free}
use osn_mp.Kernel.Fs.Bitmap.Blocks.{used}
use osn_mp.Kernel.Fs.Inode.{Inode}
use osn_mp.Kernel.Fs.Dinode.{iupdate}
use osn_mp.Kernel.Fs.Trunc.{itrunc, free_slots, free_indirect}
use osn_mp.Kernel.Fs.Trunc.Truncated.{Truncated, itrunc-Truncated}
use osn_mp.Kernel.Fs.Sample.{disk, start, file, start-IsFormatted, file-IsFile, file-IsFit}

freed_block :
    Option.map {B = ℕ × Bool}
      (λ (r : Inode × Store). (r.0.size, used disk r.1 4))
      (itrunc disk 1 file start)
    ≡ some (0, false)
unfolding itrunc free_slots free_indirect bfree mark_free has_bit without_bit iupdate
freed_block = refl

-- The block of the file is free already: the panic of `bfree`.
freed_twice : itrunc disk 1 file (record { content = λ b i. 0; logged = [] }) ≡ none
unfolding itrunc free_slots bfree has_bit
freed_twice = refl

itrunc-Truncated_example :
    (ip' : Inode) × (st' : Store) × (itrunc disk 1 file start ≡ some (ip', st'))
    × Truncated disk file start start-IsFormatted file-IsFile 1 ip' st'
itrunc-Truncated_example =
    itrunc-Truncated disk file start start-IsFormatted file-IsFile 1 file-IsFit (λ e. omega arith)
      (omega arith) (λ c l e. omega arith)
