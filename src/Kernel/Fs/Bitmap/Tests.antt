-- ===== src/Kernel/Fs/Bitmap/Tests.antt =====
-- Runs of the block allocator, and the theorems at them.
use osn_mp.Common.{ℕ, [], ◌∷◌, true, ◌&&◌, none, ◌==◌, ◌≡◌, refl, arith, sym, subst, if◌then◌else◌}
use osn_mp.Common.Bits.{has_bit, with_bit}
use osn_mp.Kernel.Fs.{Store, Superblock, bblock}
use osn_mp.Kernel.Fs.Bitmap.{balloc, bfree, scan_blocks, scan_bits, bzero, mark_used}
use osn_mp.Kernel.Fs.Bitmap.Blocks.{used, IsFormatted}
use osn_mp.Kernel.Fs.Bitmap.Outcomes.{Balloc, balloc-Balloc}

-- 20 blocks, the map in block 3, and the blocks 0 to 4 in use.
abbrev disk : Superblock
disk = record { size = 20; ninodes = 8; inodestart = 2; bmapstart = 3 }

abbrev start : Store
start = record { content = λ b i. if b == 3 && i == 0 then 31 else 7; logged = [] }

first_free : (balloc disk start).0 ≡ 5
unfolding balloc scan_blocks scan_bits has_bit
first_free = refl

both_logged : (balloc disk start).1.logged ≡ 3 ∷ 5 ∷ []
unfolding balloc scan_blocks scan_bits has_bit bzero
both_logged = refl

then_next : (balloc disk (balloc disk start).1).0 ≡ 6
unfolding balloc scan_blocks scan_bits has_bit bzero mark_used with_bit
then_next = refl

double_free : bfree disk 12 start ≡ none
unfolding bfree has_bit
double_free = refl

start-IsFormatted : IsFormatted disk start
unfolding has_bit
start-IsFormatted = record {
  bytes = λ c h i. ground arith;
  inside = λ c h. omega arith;
  boot = refl;
  itself = λ c h.
      let there : bblock disk c ≡ 3 = omega arith in
      subst (λ (k : ℕ). used disk start k ≡ true) (sym there) refl;
}

balloc-Balloc_example : Balloc disk start (balloc disk start)
balloc-Balloc_example = balloc-Balloc disk start start-IsFormatted
