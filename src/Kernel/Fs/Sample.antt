-- ===== src/Kernel/Fs/Sample.antt =====
-- A disk with one file, for the runs.
use osn_mp.Common.{ℕ, [], true, ◌&&◌, ◌==◌, ◌≡◌, ◌≢◌, refl, arith, sym, subst, if◌then◌else◌}
use osn_mp.Common.Bits.{has_bit}
use osn_mp.Kernel.Fs.{Store, Superblock, bblock}
use osn_mp.Kernel.Fs.Bitmap.Blocks.{used, IsFormatted}
use osn_mp.Kernel.Fs.Inode.{Inode}
use osn_mp.Kernel.Fs.Inode.Mapped.{IsFile, Foreign, held}
use osn_mp.Kernel.Fs.Dinode.{iblock}
use osn_mp.Kernel.Fs.Dinode.Written.{IsFit}

-- 20 blocks, the map in block 3, and the blocks 0 to 4 in use.
abbrev pub disk : Superblock
disk = record { size = 20; ninodes = 8; inodestart = 2; bmapstart = 3 }

abbrev pub start : Store
start = record { content = λ b i. if b == 3 && i == 0 then 31 else 0; logged = [] }

-- A file whose first block is block 4.
abbrev pub file : Inode
file = record {
  type = 2;
  major = 0;
  minor = 0;
  nlink = 1;
  size = 100;
  addrs = λ i. if i == 0 then 4 else 0;
}

pub start-IsFormatted : IsFormatted disk start
unfolding has_bit
start-IsFormatted = record {
  bytes = λ c h i. ground arith;
  inside = λ c h. omega arith;
  boot = refl;
  itself = λ c h.
      let there : bblock disk c ≡ 3 = omega arith in
      subst (λ (k : ℕ). used disk start k ≡ true) (sym there) refl;
}

held_first : (k : ℕ) → held file start k ≢ 0 → (k ≡ 0) × (held file start k ≡ 4)
held_first k n = ground arith

pub file-IsFile : IsFile disk file start
unfolding has_bit
file-IsFile = record {
  holds = record {
    inside = λ k l n. omega (arith, (held_first k n).1);
    marked = λ k l n. subst (λ (b : ℕ). used disk start b ≡ true) (sym (held_first k n).1) refl;
    not_map = λ k c l n m e. omega (arith, (held_first k n).1);
    apart = λ j k l m n e.
        let n' : held file start k ≢ 0 = λ z. omega (arith, e, z, n) in
        omega (arith, (held_first j n).0, (held_first k n').0);
  };
  bytes = λ n. absurd (n refl);
}

pub file-IsFit : IsFit file
file-IsFit = record {
  type = omega arith;
  major = omega arith;
  minor = omega arith;
  nlink = omega arith;
  size = omega arith;
  addrs = λ i l. ground arith;
}

-- The block of the inodes is not the file's.
pub inodes-Foreign : Foreign disk file start (iblock disk 1)
unfolding has_bit
inodes-Foreign = record {
  inside = omega arith;
  marked = refl;
  not_held = λ k l e.
      let n : held file start k ≢ 0 = λ z. omega (arith, e, z) in
      omega (arith, e, (held_first k n).1);
  not_map = λ c l e. omega arith;
}
