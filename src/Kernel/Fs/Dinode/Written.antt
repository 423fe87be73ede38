-- ===== src/Kernel/Fs/Dinode/Written.antt =====
-- What `iupdate` writes is what `ilock` reads, and nothing else is written.
use osn_mp.Common.{
  ℕ, ◌+◌, ◌*◌, ◌/◌, ◌^◌, ◌≤◌, ◌<◌, true, false, ◌==◌, ◌≡◌, ◌≢◌, ◌⊎◌, refl, arith, ap, ◌∙◌,
  if◌then◌else◌,
}
use osn_mp.Kernel.Fs.{Block}
use osn_mp.Kernel.Fs.Words.{word, set_word, word-set_word}
use osn_mp.Kernel.Fs.Inode.{Inode}
use osn_mp.Kernel.Fs.Dinode.{half, set_half, put_dinode, get_dinode}
use osn_mp.Kernel.Fs.Dinode.Fields.{
  half-set_half, word-set_half, half-set_word, half-set_words, word-set_words_other, word-set_words,
}

-- Two inodes with the same fields and the same 13 addresses.
pub record IsSame (a b : Inode) : Type 0 where
  pub type : a.type ≡ b.type
  pub major : a.major ≡ b.major
  pub minor : a.minor ≡ b.minor
  pub nlink : a.nlink ≡ b.nlink
  pub size : a.size ≡ b.size
  pub addrs : (i : ℕ) → i < 13 → a.addrs i ≡ b.addrs i

-- The fields fit into theirs on disk.
pub record IsFit (ip : Inode) : Type 0 where
  pub type : ip.type < 2 ^ 16
  pub major : ip.major < 2 ^ 16
  pub minor : ip.minor < 2 ^ 16
  pub nlink : ip.nlink < 2 ^ 16
  pub size : ip.size < 2 ^ 32
  pub addrs : (i : ℕ) → i < 13 → ip.addrs i < 2 ^ 32

module _ (k : ℕ) (ip : Inode) (fit : IsFit ip) (block : Block) where
  abbrev b1 : Block
  b1 = set_half block (k * 32) ip.type

  abbrev b2 : Block
  b2 = set_half b1 (k * 32 + 1) ip.major

  abbrev b3 : Block
  b3 = set_half b2 (k * 32 + 2) ip.minor

  abbrev b4 : Block
  b4 = set_half b3 (k * 32 + 3) ip.nlink

  abbrev b5 : Block
  b5 = set_word b4 (k * 16 + 2) ip.size

  -- The first four shorts, and those of the other dinodes.
  half_field :
      (g : ℕ)
      → (g / 2 < k * 16 + 2) ⊎ (k * 16 + 16 ≤ g / 2)
      → half (put_dinode k ip block) g ≡ (
          if k * 32 + 3 == g
          then ip.nlink
          else if k * 32 + 2 == g
          then ip.minor
          else if k * 32 + 1 == g
          then ip.major
          else if k * 32 == g
          then ip.type
          else half block g)
  unfolding put_dinode
  half_field g o =
      half-set_words 13 (k * 16 + 3) ip.addrs b5 g (omega arith)
      ∙ half-set_word b4 (k * 16 + 2) ip.size g (omega arith)
      ∙ half-set_half b3 (k * 32 + 3) ip.nlink g fit.nlink
      ∙ ap (λ x. if k * 32 + 3 == g then ip.nlink else x)
          (half-set_half b2 (k * 32 + 2) ip.minor g fit.minor
            ∙ ap (λ x. if k * 32 + 2 == g then ip.minor else x)
                (half-set_half b1 (k * 32 + 1) ip.major g fit.major
                  ∙ ap (λ x. if k * 32 + 1 == g then ip.major else x)
                      (half-set_half block (k * 32) ip.type g fit.type)))

  word_other :
      (i : ℕ) → (i < k * 16) ⊎ (k * 16 + 16 ≤ i) → word (put_dinode k ip block) i ≡ word block i
  unfolding put_dinode
  word_other i o =
      let e : (k * 16 + 2 == i) ≡ false = ground arith in
      word-set_words_other 13 (k * 16 + 3) ip.addrs b5 i fit.addrs (omega arith)
      ∙ word-set_word b4 (k * 16 + 2) ip.size i fit.size
      ∙ rw e (
          word-set_half b3 (k * 32 + 3) ip.nlink i (omega arith)
          ∙ word-set_half b2 (k * 32 + 2) ip.minor i (omega arith)
          ∙ word-set_half b1 (k * 32 + 1) ip.major i (omega arith)
          ∙ word-set_half block (k * 32) ip.type i (omega arith))

  word_size : word (put_dinode k ip block) (k * 16 + 2) ≡ ip.size
  unfolding put_dinode
  word_size =
      let e : (k * 16 + 2 == k * 16 + 2) ≡ true = ground arith in
      word-set_words_other 13 (k * 16 + 3) ip.addrs b5 (k * 16 + 2) fit.addrs (omega arith)
      ∙ word-set_word b4 (k * 16 + 2) ip.size (k * 16 + 2) fit.size
      ∙ rw e refl

  word_addrs : (i : ℕ) → i < 13 → word (put_dinode k ip block) (k * 16 + 3 + i) ≡ ip.addrs i
  unfolding put_dinode
  word_addrs i l = word-set_words 13 (k * 16 + 3) ip.addrs b5 i fit.addrs l

  pub get-put_dinode : IsSame (get_dinode k (put_dinode k ip block)) ip
  unfolding get_dinode
  get-put_dinode = record {
    type = ground (arith, half_field (k * 32) (omega arith));
    major = ground (arith, half_field (k * 32 + 1) (omega arith));
    minor = ground (arith, half_field (k * 32 + 2) (omega arith));
    nlink = ground (arith, half_field (k * 32 + 3) (omega arith));
    size = word_size;
    addrs = word_addrs;
  }

  pub get-put_dinode_other :
      (j : ℕ) → j ≢ k → IsSame (get_dinode j (put_dinode k ip block)) (get_dinode j block)
  unfolding get_dinode
  get-put_dinode_other j ne = record {
    type = ground (arith, half_field (j * 32) (omega arith));
    major = ground (arith, half_field (j * 32 + 1) (omega arith));
    minor = ground (arith, half_field (j * 32 + 2) (omega arith));
    nlink = ground (arith, half_field (j * 32 + 3) (omega arith));
    size = word_other (j * 16 + 2) (omega arith);
    addrs = λ i l. word_other (j * 16 + 3 + i) (omega arith);
  }
