-- ===== src/Kernel/Fs/Words.antt =====
-- A block read as `uint`s, the low byte first: `a[i]` for `a = (uint *)bp->data`.
use osn_mp.Common.{ℕ, ◌+◌, ◌*◌, ◌/◌, ◌%◌, ◌^◌, ◌<◌, ◌==◌, ◌≡◌, refl, arith, subst, if◌then◌else◌}
use osn_mp.Kernel.Fs.{Block}
use osn_mp.Kernel.Fs.Bitmap.Blocks.{IsBytes}

unfoldable pub word : Block → ℕ → ℕ
word block i =
    block (i * 4)
    + 0x100 * block (i * 4 + 1)
    + 0x10000 * block (i * 4 + 2)
    + 0x1000000 * block (i * 4 + 3)

abbrev byte_of : ℕ → ℕ → ℕ
byte_of v k =
    if k == 0
    then v % 0x100
    else if k == 1
    then v / 0x100 % 0x100
    else if k == 2
    then v / 0x10000 % 0x100
    else v / 0x1000000 % 0x100

unfoldable pub set_word : Block → ℕ → ℕ → Block
set_word block i v a = if a / 4 == i then byte_of v (a % 4) else block a

pub word-zero : (block : Block) → ((a : ℕ) → block a ≡ 0) → (i : ℕ) → word block i ≡ 0
unfolding word
word-zero block h i = omega (arith, h (i * 4), h (i * 4 + 1), h (i * 4 + 2), h (i * 4 + 3))

pub set_word-IsBytes : (block : Block) (i v : ℕ) → IsBytes block → IsBytes (set_word block i v)
unfolding set_word
set_word-IsBytes block i v h a = ground (arith, h a)

module _ (block : Block) (i v : ℕ) where
  cell_at :
      (j k : ℕ)
      → k < 4
      → set_word block i v (j * 4 + k) ≡ (if j == i then byte_of v k else block (j * 4 + k))
  unfolding set_word
  cell_at j k l =
      let q : (j * 4 + k) / 4 ≡ j = omega arith in
      let r : (j * 4 + k) % 4 ≡ k = omega arith in rw (q, r) refl

  pub word-set_word :
      (j : ℕ) → v < 2 ^ 32 → word (set_word block i v) j ≡ (if i == j then v else word block j)
  unfolding word
  word-set_word j l =
      let zero_off : set_word block i v (j * 4) ≡ (if j == i then byte_of v 0 else block (j * 4)) =
        let e : j * 4 + 0 ≡ j * 4 = omega arith in
        subst (λ (k : ℕ). set_word block i v k ≡ (if j == i then byte_of v 0 else block k)) e
          (cell_at j 0 (omega arith)) in
      ground (
        arith,
        zero_off,
        cell_at j 1 (omega arith),
        cell_at j 2 (omega arith),
        cell_at j 3 (omega arith),
      )
