-- ===== src/Kernel/Fs/Content/Tests.antt =====
-- Runs of `readi` and `writei`, and the theorems at them.
use osn_mp.Common.{ℕ, [], ◌∷◌, Option, some, ◌≡◌, refl, arith}
use mathlib.Core.Option
use osn_mp.Common.Int.{ℤ, pos, minus_one}
use osn_mp.Kernel.Fs.{Store}
use osn_mp.Kernel.Fs.Inode.{Inode, bmap, slot_addr}
use osn_mp.Kernel.Fs.Content.{Reading, stretch, readi, read_rounds, writei, write_rounds}
use osn_mp.Kernel.Fs.Content.RoundTrip.{left_by, readi-writei}
use osn_mp.Kernel.Fs.Sample.{
  disk, start, file, start-IsFormatted, file-IsFile, file-IsFit, inodes-Foreign,
}

-- All bytes are copied, and just the first two.
abbrev whole : ℕ → ℕ → ℕ
whole a m = m

abbrev two : ℕ → ℕ → ℕ
two a m = 2

abbrev memory : ℕ → ℕ
memory a = a

abbrev outcome : Option (ℤ × Inode × Store) → Option (ℤ × ℕ)
outcome o = Option.map {B = ℤ × ℕ} (λ (r : ℤ × Inode × Store). (r.0, r.1.size)) o

grows : outcome (writei disk whole memory 1 7 99 3 file start) ≡ some (pos 3, 102)
unfolding writei write_rounds bmap slot_addr
grows = refl

behind_end : outcome (writei disk whole memory 1 7 101 3 file start) ≡ some (minus_one, 100)
unfolding writei
behind_end = refl

half_copied : outcome (writei disk two memory 1 7 5 3 file start) ≡ some (pos 0, 100)
unfolding writei write_rounds bmap slot_addr
half_copied = refl

to_the_end :
    Option.map (λ (r : Reading). r.bytes) (readi disk whole 0 98 5 file start) ≡ some (0 ∷ 0 ∷ [])
unfolding readi read_rounds bmap slot_addr stretch
to_the_end = refl

abbrev after : Inode × Store
after = left_by file start (writei disk whole memory 1 7 5 3 file start)

all_written : writei disk whole memory 1 7 5 3 file start ≡ some (pos 3, after.0, after.1)
unfolding writei write_rounds bmap slot_addr
all_written = refl

readi-writei_example :
    (rd : Reading) × (readi disk whole 0 5 3 after.0 after.1 ≡ some rd)
    × (rd.value ≡ pos 3)
    × (rd.bytes ≡ stretch 3 7 memory)
readi-writei_example =
    readi-writei disk whole whole memory 1 file start start-IsFormatted file-IsFile (omega arith)
      file-IsFit (λ e. omega arith) inodes-Foreign (omega arith) 7 0 5 3 (omega arith) (omega arith)
      after.0 after.1 all_written (λ a m. omega arith)
