-- ===== src/Kernel/Fs/Dinode/Fields.antt =====
-- A write of one field of a block leaves the others as they are.
use osn_mp.Common.{
  ℕ, zero, suc, ◌+◌, ◌*◌, ◌/◌, ◌%◌, ◌^◌, ◌≤◌, ◌<◌, ◌==◌, ◌≡◌, ◌≢◌, ◌⊎◌, false, refl, arith, ap, ◌∙◌,
  if◌then◌else◌, Bool-cases, inl, inr,
}
use osn_mp.Kernel.Fs.{Block}
use osn_mp.Kernel.Fs.Words.{word, set_word, word-set_word}
use osn_mp.Kernel.Fs.Dinode.{half, set_half, set_words, zero_dinode}

module _ (block : Block) (h v : ℕ) where
  pub half-set_half :
      (g : ℕ) → v < 2 ^ 16 → half (set_half block h v) g ≡ (if h == g then v else half block g)
  unfolding half set_half
  half-set_half g l =
      let p : g * 2 / 2 ≡ g = omega arith in
      let q : (g * 2 + 1) / 2 ≡ g = omega arith in
      let r : g * 2 % 2 ≡ 0 = omega arith in
      let s : (g * 2 + 1) % 2 ≡ 1 = omega arith in rw (p, q, r, s) (ground arith)

  pub word-set_half : (i : ℕ) → h / 2 ≢ i → word (set_half block h v) i ≡ word block i
  unfolding word set_half
  word-set_half i ne = ground arith

module _ (block : Block) (i v : ℕ) where
  pub half-set_word : (g : ℕ) → g / 2 ≢ i → half (set_word block i v) g ≡ half block g
  unfolding half set_word
  half-set_word g ne = ground arith

pub half-set_words :
    (n w : ℕ) (from : ℕ → ℕ) (block : Block) (g : ℕ)
    → (g / 2 < w) ⊎ (w + n ≤ g / 2)
    → half (set_words n w from block) g ≡ half block g
unfolding set_words
half-set_words zero w from block g o = refl
half-set_words (suc n) w from block g o =
    half-set_word (set_words n w from block) (w + n) (from n) g (omega arith)
    ∙ half-set_words n w from block g (omega arith)

pub word-set_words_other :
    (n w : ℕ) (from : ℕ → ℕ) (block : Block) (i : ℕ)
    → ((i : ℕ) → i < n → from i < 2 ^ 32)
    → (i < w) ⊎ (w + n ≤ i)
    → word (set_words n w from block) i ≡ word block i
unfolding set_words
word-set_words_other zero w from block i f o = refl
word-set_words_other (suc n) w from block i f o =
    let e : (w + n == i) ≡ false = ground arith in
    word-set_word (set_words n w from block) (w + n) (from n) i (f n (omega arith))
    ∙ rw e (word-set_words_other n w from block i (λ j l. f j (omega arith)) (omega arith))

pub word-set_words :
    (n w : ℕ) (from : ℕ → ℕ) (block : Block) (k : ℕ)
    → ((i : ℕ) → i < n → from i < 2 ^ 32)
    → k < n
    → word (set_words n w from block) (w + k) ≡ from k
unfolding set_words
word-set_words zero w from block k f l = absurd (omega arith)
word-set_words (suc n) w from block k f l =
    word-set_word (set_words n w from block) (w + n) (from n) (w + k) (f n (omega arith))
    ∙ (elim (Bool-cases (w + n == w + k)) [
      | inl e ↦ let same : n ≡ k = ground arith in rw e (ap from same)
      | inr e ↦ rw e (word-set_words n w from block k (λ j m. f j (omega arith)) (ground arith))
    ])

pub half-zero_dinode :
    (k : ℕ) (block : Block) (h : ℕ)
    → half (zero_dinode k block) h ≡ (if h / 32 == k then 0 else half block h)
unfolding half zero_dinode
half-zero_dinode k block h =
    let p : h * 2 / 64 ≡ h / 32 = omega arith in
    let q : (h * 2 + 1) / 64 ≡ h / 32 = omega arith in rw (p, q) (ground arith)

pub word-zero_dinode :
    (k : ℕ) (block : Block) (i : ℕ)
    → word (zero_dinode k block) i ≡ (if i / 16 == k then 0 else word block i)
unfolding word zero_dinode
word-zero_dinode k block i =
    let p : i * 4 / 64 ≡ i / 16 = omega arith in
    let q : (i * 4 + 1) / 64 ≡ i / 16 = omega arith in
    let r : (i * 4 + 2) / 64 ≡ i / 16 = omega arith in
    let s : (i * 4 + 3) / 64 ≡ i / 16 = omega arith in rw (p, q, r, s) (ground arith)
