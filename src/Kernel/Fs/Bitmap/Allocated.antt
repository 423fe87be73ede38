-- ===== src/Kernel/Fs/Bitmap/Allocated.antt =====
-- `balloc` and `bfree` change one bit of the map.
use osn_mp.Common.{
  ℕ, zero, suc, ◌+◌, ◌%◌, ◌≤◌, ◌<◌, [], ◌∷◌, ◌++◌, Bool, true, false, ◌||◌, Option, none, some, ltb,
  ◌==◌, ◌≡◌, ◌≢◌, refl, arith, ap, ap₂, sym, subst, ◌∙◌, Bool-cases, inl, inr, append_assoc,
}
use osn_mp.Common.Arrays.{update, update_self, update_ne}
use osn_mp.Kernel.Fs.{Block, Store, Superblock, write_block, bpb, bblock}
use osn_mp.Kernel.Fs.Bitmap.{bzero, scan_bits, mark_used}
use osn_mp.Kernel.Fs.Bitmap.Blocks.{
  bit_of, IsBytes, mark_used-IsBytes, bit_of-mark_used, used, IsFormatted,
}

or_true : (a b : Bool) → b ≡ true → (a || b) ≡ true
or_true a b h = ground arith

module _ (sb : Superblock) where
  -- The store behind the allocation of `b`.
  abbrev pub with_block : ℕ → Store → Store
  with_block b st =
      bzero b (write_block (bblock sb b) (mark_used (b % bpb) (st.content (bblock sb b))) st)

  pub record Allocated (b : ℕ) (st st' : Store) : Type 0 where
    pub fits : b < sb.size
    pub not_boot : b ≢ 0
    pub was_free : used sb st b ≡ false
    pub marked : (c : ℕ) → c < sb.size → used sb st' c ≡ (b == c || used sb st c)
    pub zeroed : (i : ℕ) → st'.content b i ≡ 0
    pub kept : (d : ℕ) → d ≢ b → d ≢ bblock sb b → st'.content d ≡ st.content d
    pub formatted : IsFormatted sb st'
    pub logged : st'.logged ≡ st.logged ++ bblock sb b ∷ b ∷ []

  module _ (st : Store) (v : IsFormatted sb st) (b : ℕ) (lt : b < sb.size)
      (free : used sb st b ≡ false) where
    not_map : (c : ℕ) → c < sb.size → b ≢ bblock sb c
    not_map c h = λ e. grind (arith, v.itself c h)

    map_block : ℕ → Block
    map_block = update st.content (bblock sb b) (mark_used (b % bpb) (st.content (bblock sb b)))

    on_map :
        (c : ℕ) → c < sb.size → (with_block b st).content (bblock sb c) ≡ map_block (bblock sb c)
    unfolding bzero map_block
    on_map c h = update_ne map_block b (bblock sb c) (λ i. 0) (not_map c h)

    same_bit : (c : ℕ) → bblock sb b ≡ bblock sb c → (b % bpb == c % bpb) ≡ (b == c)
    same_bit c e = ground arith

    marked : (c : ℕ) → c < sb.size → used sb (with_block b st) c ≡ (b == c || used sb st c)
    unfolding map_block
    marked c h = elim (Bool-cases (bblock sb b == bblock sb c)) [
      | inl e ↦
          let same : bblock sb b ≡ bblock sb c = ground arith in
          let there : map_block (bblock sb c) ≡ mark_used (b % bpb) (st.content (bblock sb b)) =
            subst (λ (k : ℕ). map_block k ≡ mark_used (b % bpb) (st.content (bblock sb b))) same
              (update_self st.content (bblock sb b)
                (mark_used (b % bpb) (st.content (bblock sb b)))) in
          ap (λ blk. bit_of blk (c % bpb)) (on_map c h ∙ there)
          ∙ bit_of-mark_used (st.content (bblock sb b)) (v.bytes b lt) (b % bpb) (c % bpb)
          ∙ ap₂ ◌||◌ (same_bit c same) (ap (λ (k : ℕ). bit_of (st.content k) (c % bpb)) same)
      | inr e ↦
          let apart : bblock sb b ≢ bblock sb c = λ q. ground arith in
          let other : (b == c) ≡ false = ground arith in
          ap (λ blk. bit_of blk (c % bpb))
            (on_map c h
              ∙ update_ne st.content (bblock sb b) (bblock sb c)
                  (mark_used (b % bpb) (st.content (bblock sb b))) apart)
          ∙ rw other refl
    ]

    IsBytes-kept : (c : ℕ) → c < sb.size → IsBytes ((with_block b st).content (bblock sb c))
    unfolding map_block
    IsBytes-kept c h i = rw (on_map c h) (elim (Bool-cases (bblock sb b == bblock sb c)) [
      | inl e ↦ rw e (mark_used-IsBytes (st.content (bblock sb b)) (v.bytes b lt) (b % bpb) i)
      | inr e ↦ rw e (v.bytes c h i)
    ])

    pub with_block-Allocated : Allocated b st (with_block b st)
    unfolding bzero
    with_block-Allocated = record {
      fits = lt;
      not_boot = λ e. grind (arith, v.boot);
      was_free = free;
      marked = marked;
      zeroed = λ i. ground arith;
      kept = λ d n m.
          update_ne
            (update st.content (bblock sb b) (mark_used (b % bpb) (st.content (bblock sb b)))) b d
            (λ i. 0) (λ e. n (sym e))
          ∙ update_ne st.content (bblock sb b) d (mark_used (b % bpb) (st.content (bblock sb b)))
              (λ e. m (sym e));
      formatted = record {
        bytes = IsBytes-kept;
        inside = v.inside;
        boot = marked 0 (omega arith) ∙ or_true (b == 0) (used sb st 0) v.boot;
        itself = λ c h.
            marked (bblock sb c) (v.inside c h)
            ∙ or_true (b == bblock sb c) (used sb st (bblock sb c)) (v.itself c h);
      };
      logged = append_assoc st.logged (bblock sb b ∷ []) (b ∷ []);
    }

  -- Where the search for a free block in `n` more bits of the block of the map that begins at `b` ends.
  pub data Scanned (st : Store) (b bi n : ℕ) : Option ℕ → Type 0 where
    none_free :
        ((c : ℕ) → b + bi ≤ c → c < b + bi + n → c < sb.size → used sb st c ≡ true)
        → Scanned st b bi n none
    first_free :
        (ci : ℕ)
        → ci < bi + n
        → b + ci < sb.size
        → used sb st (b + ci) ≡ false
        → ((c : ℕ) → b + bi ≤ c → c < b + ci → used sb st c ≡ true)
        → Scanned st b bi n (some ci)

  module _ (st : Store) (b : ℕ) (al : b % bpb ≡ 0) where
    bit_used : (bi : ℕ) → bi < bpb → used sb st (b + bi) ≡ bit_of (st.content (bblock sb b)) bi
    bit_used bi lt =
        let at : bblock sb (b + bi) ≡ bblock sb b = omega arith in
        let off : (b + bi) % bpb ≡ bi = omega arith in
        ap₂ (λ (k c : ℕ). bit_of (st.content k) c) at off

    scan_bits-more :
        (bi n : ℕ) {r : Option ℕ}
        → used sb st (b + bi) ≡ true
        → Scanned st b (bi + 1) n r
        → Scanned st b bi (suc n) r
    scan_bits-more bi n u (none_free h) = none_free (λ c l m s. elim (Bool-cases (b + bi == c)) [
      | inl e ↦
          let same : b + bi ≡ c = ground arith in subst (λ (k : ℕ). used sb st k ≡ true) same u
      | inr e ↦ h c (ground arith) (omega arith) s
    ])
    scan_bits-more bi n u (first_free ci l s f h) = first_free ci (omega arith) s f (λ c l m.
        elim (Bool-cases (b + bi == c)) [
          | inl e ↦
              let same : b + bi ≡ c = ground arith in subst (λ (k : ℕ). used sb st k ≡ true) same u
          | inr e ↦ h c (ground arith) m
        ])

    pub scan_bits-Scanned :
        (n bi : ℕ)
        → bi + n ≤ bpb
        → Scanned st b bi n (scan_bits n bi b sb.size (st.content (bblock sb b)))
    unfolding scan_bits
    scan_bits-Scanned zero bi le = none_free (λ c l m s. absurd (omega arith))
    scan_bits-Scanned (suc n) bi le = elim (Bool-cases (ltb (b + bi) sb.size)) [
      | inl e ↦ elim (Bool-cases (bit_of (st.content (bblock sb b)) bi)) [
        | inl u ↦
            rw (e, u)
              (scan_bits-more bi n (bit_used bi (omega arith) ∙ u)
                (scan_bits-Scanned n (bi + 1) (omega arith)))
        | inr u ↦
            rw (e, u)
              (first_free bi (omega arith) (ground arith) (bit_used bi (omega arith) ∙ u)
                (λ c l m. absurd (omega arith)))
      ]
      | inr e ↦ rw e (none_free (λ c l m s. absurd (ground arith)))
    ]
