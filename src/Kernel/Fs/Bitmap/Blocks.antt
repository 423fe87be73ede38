-- ===== src/Kernel/Fs/Bitmap/Blocks.antt =====
-- The blocks that the map says are in use, and what changes them.
use osn_mp.Common.{
  ℕ, ◌/◌, ◌%◌, ◌<◌, Bool, true, ◌&&◌, ◌||◌, not, ◌==◌, ◌≡◌, arith, Bool-cases, inl, inr,
}
use osn_mp.Common.Bits.{has_bit, has_bit-with_bit, has_bit-without_bit, with_bit-lt, without_bit-lt}
use osn_mp.Kernel.Fs.{Block, Store, Superblock, bpb, bblock}
use osn_mp.Kernel.Fs.Bitmap.{mark_used, mark_free}

-- The bit of `bi` in a block of the map.
abbrev pub bit_of : Block → ℕ → Bool
bit_of block bi = has_bit (block (bi / 8)) (bi % 8)

abbrev pub IsBytes : Block → Type 0
IsBytes block = (i : ℕ) → block i < 256

module _ (block : Block) (h : IsBytes block) (bi : ℕ) where
  pub mark_used-IsBytes : IsBytes (mark_used bi block)
  unfolding mark_used
  mark_used-IsBytes i = ground (arith, with_bit-lt (block (bi / 8)) (bi % 8) 0, h i, h (bi / 8))

  pub mark_free-IsBytes : IsBytes (mark_free bi block)
  unfolding mark_free
  mark_free-IsBytes i = ground (arith, without_bit-lt (block (bi / 8)) (bi % 8) 0, h i, h (bi / 8))

  pub bit_of-mark_used : (ci : ℕ) → bit_of (mark_used bi block) ci ≡ (bi == ci || bit_of block ci)
  unfolding mark_used
  bit_of-mark_used ci = elim (Bool-cases (bi / 8 == ci / 8)) [
    | inl e ↦ ground (arith, has_bit-with_bit (block (bi / 8)) (bi % 8) (ci % 8), h (bi / 8))
    | inr e ↦ ground arith
  ]

  pub bit_of-mark_free :
      (ci : ℕ) → bit_of (mark_free bi block) ci ≡ (not (bi == ci) && bit_of block ci)
  unfolding mark_free
  bit_of-mark_free ci = elim (Bool-cases (bi / 8 == ci / 8)) [
    | inl e ↦ ground (arith, has_bit-without_bit (block (bi / 8)) (bi % 8) (ci % 8), h (bi / 8))
    | inr e ↦ ground arith
  ]

module _ (sb : Superblock) where
  -- Whether the map says that a block is in use.
  abbrev pub used : Store → ℕ → Bool
  used st c = bit_of (st.content (bblock sb c)) (c % bpb)

  -- A map of bytes inside the disk, which says that block 0 and its own blocks are in use.
  pub record IsFormatted (st : Store) : Type 0 where
    pub bytes : (c : ℕ) → c < sb.size → IsBytes (st.content (bblock sb c))
    pub inside : (c : ℕ) → c < sb.size → bblock sb c < sb.size
    pub boot : used st 0 ≡ true
    pub itself : (c : ℕ) → c < sb.size → used st (bblock sb c) ≡ true
