-- ===== src/Kernel/Fs/Trunc/Freeing.antt =====
-- The blocks of a file freed one after the other.
use osn_mp.Common.{
  ℕ, ◌+◌, ◌≤◌, ◌<◌, Bool, true, false, ◌&&◌, not, Option, some, ltb, ◌==◌, ◌≡◌, ◌≢◌, refl, arith,
  ap, ◌∙◌, Bool-cases, inl, inr,
}
use osn_mp.Kernel.Fs.{Store, Superblock, bblock}
use osn_mp.Kernel.Fs.Bitmap.{bfree}
use osn_mp.Kernel.Fs.Bitmap.Blocks.{used, IsFormatted}
use osn_mp.Kernel.Fs.Bitmap.Outcomes.{Bfree, was_free, freed, bfree-Bfree}
use osn_mp.Kernel.Fs.Inode.Mapped.{maxfile, IsHeld}

unused : (b c : ℕ) (u : Bool) → u ≡ false → (not (b == c) && u) ≡ false
unused b c u e = ground arith

untouched : (b c : ℕ) (u : Bool) → b ≢ c → (not (b == c) && u) ≡ u
untouched b c u e = ground arith

module _ (sb : Superblock) (own : ℕ → ℕ) (st : Store) (h : IsHeld sb own (used sb st)) where
  -- The addresses below `i` are freed and the others are not, and nothing else is changed but the map.
  pub record Freeing (i : ℕ) (st' : Store) : Type 0 where
    pub formatted : IsFormatted sb st'
    pub gone : (k : ℕ) → k < i → k ≤ maxfile → own k ≢ 0 → used sb st' (own k) ≡ false
    pub still : (k : ℕ) → i ≤ k → k ≤ maxfile → own k ≢ 0 → used sb st' (own k) ≡ true
    pub rest :
        (c : ℕ) → c < sb.size → ((k : ℕ) → k ≤ maxfile → own k ≢ c) → used sb st' c ≡ used sb st c
    pub blocks : (d : ℕ) → ((c : ℕ) → c < sb.size → d ≢ bblock sb c) → st'.content d ≡ st.content d

  pub Freeing-zero : IsFormatted sb st → Freeing 0 st
  Freeing-zero v = record {
    formatted = v;
    gone = λ k l m n. absurd (omega arith);
    still = λ k l m n. h.marked k m n;
    rest = λ c l n. refl;
    blocks = λ d n. refl;
  }

  -- Addresses that are 0.
  pub Freeing-skip :
      (i j : ℕ) (st' : Store)
      → i ≤ j
      → ((k : ℕ) → i ≤ k → k < j → own k ≡ 0)
      → Freeing i st'
      → Freeing j st'
  Freeing-skip i j st' le z f = record {
    formatted = f.formatted;
    gone = λ k l m n. elim (Bool-cases (ltb k i)) [
      | inl e ↦ f.gone k (ground arith) m n
      | inr e ↦ absurd (n (z k (ground arith) l))
    ];
    still = λ k l m n. f.still k (omega arith) m n;
    rest = f.rest;
    blocks = f.blocks;
  }

  Freeing-freed :
      (i : ℕ) (st' st2 : Store)
      → i ≤ maxfile
      → own i ≢ 0
      → Freeing i st'
      → ((c : ℕ) → c < sb.size → used sb st2 c ≡ (not (own i == c) && used sb st' c))
      → ((d : ℕ) → d ≢ bblock sb (own i) → st2.content d ≡ st'.content d)
      → IsFormatted sb st2
      → Freeing (i + 1) st2
  Freeing-freed i st' st2 le ne f bit kept v = record {
    formatted = v;
    gone = λ k l m n. bit (own k) (h.inside k m n) ∙ (elim (Bool-cases (ltb k i)) [
      | inl e ↦ unused (own i) (own k) (used sb st' (own k)) (f.gone k (ground arith) m n)
      | inr e ↦
          let same : i ≡ k = ground arith in let eq : own i ≡ own k = ap own same in ground arith
    ]);
    still = λ k l m n.
        let apart : own i ≢ own k = λ q. omega (arith, h.apart i k le m ne q) in
        bit (own k) (h.inside k m n)
        ∙ untouched (own i) (own k) (used sb st' (own k)) apart
        ∙ f.still k (omega arith) m n;
    rest = λ c l n. bit c l ∙ untouched (own i) c (used sb st' c) (n i le) ∙ f.rest c l n;
    blocks = λ d n. kept d (n (own i) (h.inside i le ne)) ∙ f.blocks d n;
  }

  pub Freeing-bfree :
      (i : ℕ) (st' : Store)
      → i ≤ maxfile
      → own i ≢ 0
      → Freeing i st'
      → (st2 : Store) × (bfree sb (own i) st' ≡ some st2) × Freeing (i + 1) st2
  Freeing-bfree i st' le ne f =
      go (bfree sb (own i) st') refl
        (bfree-Bfree sb st' f.formatted (own i) (h.inside i le ne) ne (λ c. h.not_map i c le ne))
    where
      go :
          (r : Option Store)
          → bfree sb (own i) st' ≡ r
          → Bfree sb (own i) st' r
          → (st2 : Store) × (bfree sb (own i) st' ≡ some st2) × Freeing (i + 1) st2
      go _ q (was_free u) =
          let t : used sb st' (own i) ≡ true = f.still i (omega arith) le ne in
          absurd (grind (arith, t, u))
      go _ q (freed st2 u bit kept v l) = (st2, q, Freeing-freed i st' st2 le ne f bit kept v)
