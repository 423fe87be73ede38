-- ===== src/Kernel/Fs/Bitmap/Outcomes.antt =====
-- What `balloc` and `bfree` come to.
use osn_mp.Common.{
  ℕ, zero, suc, ◌+◌, ◌*◌, ◌/◌, ◌%◌, ◌≤◌, ◌<◌, [], ◌∷◌, ◌++◌, Bool, true, false, ◌&&◌, not, Option,
  none, some, ltb, ◌==◌, ◌≡◌, ◌≢◌, refl, arith, ap, ap₂, sym, subst, ◌∙◌, Bool-cases, inl, inr,
}
use osn_mp.Common.Arrays.{update_self, update_ne}
use osn_mp.Kernel.Fs.{Store, Superblock, write_block, bpb, bblock}
use osn_mp.Kernel.Fs.Bitmap.{bzero, scan_bits, scan_blocks, mark_used, mark_free, balloc, bfree}
use osn_mp.Kernel.Fs.Bitmap.Blocks.{bit_of, mark_free-IsBytes, bit_of-mark_free, used, IsFormatted}
use osn_mp.Kernel.Fs.Bitmap.Allocated.{
  with_block, Allocated, with_block-Allocated, Scanned, none_free, first_free, scan_bits-Scanned,
}

others_used : (b c : ℕ) (u : Bool) → b ≢ c → u ≡ true → (not (b == c) && u) ≡ true
others_used b c u n e = ground arith

module _ (sb : Superblock) where
  pub data Balloc (st : Store) : ℕ × Store → Type 0 where
    out_of_blocks : ((c : ℕ) → c < sb.size → used sb st c ≡ true) → Balloc st (0, st)
    allocated :
        (b : ℕ) (st' : Store)
        → Allocated sb b st st'
        → ((c : ℕ) → c < b → used sb st c ≡ true)
        → Balloc st (b, st')

  module _ (st : Store) (v : IsFormatted sb st) where
    found-Balloc :
        (b ci : ℕ)
        → b % bpb ≡ 0
        → ci < bpb
        → b + ci < sb.size
        → used sb st (b + ci) ≡ false
        → ((c : ℕ) → c < b + ci → used sb st c ≡ true)
        → Balloc st (
          b + ci,
          bzero (b + ci) (write_block (bblock sb b) (mark_used ci (st.content (bblock sb b))) st),
        )
    found-Balloc b ci al l s f h =
        let at : bblock sb (b + ci) ≡ bblock sb b = omega arith in
        let off : (b + ci) % bpb ≡ ci = omega arith in
        subst
          (λ (k : ℕ).
            Balloc st (b + ci, bzero (b + ci) (write_block k (mark_used ci (st.content k)) st)))
          at
          (subst
            (λ (k : ℕ). Balloc st (
              b + ci,
              bzero (b + ci) (
                  write_block (bblock sb (b + ci)) (mark_used k (st.content (bblock sb (b + ci))))
                    st),
            ))
            off
            (allocated (b + ci) (with_block sb (b + ci) st)
              (with_block-Allocated sb st v (b + ci) s f) h))

    below_next :
        (b c n : ℕ)
        → ((c : ℕ) → c < b → c < sb.size → used sb st c ≡ true)
        → ((c : ℕ) → b + 0 ≤ c → c < b + n → c < sb.size → used sb st c ≡ true)
        → c < b + n
        → c < sb.size
        → used sb st c ≡ true
    below_next b c n h k l s = elim (Bool-cases (ltb c b)) [
      | inl e ↦ h c (ground arith) s
      | inr e ↦ k c (ground arith) l s
    ]

    scan_blocks-Balloc :
        (fuel b : ℕ)
        → b % bpb ≡ 0
        → sb.size < b + fuel * bpb
        → ((c : ℕ) → c < b → c < sb.size → used sb st c ≡ true)
        → Balloc st (scan_blocks sb fuel b st)
    unfolding scan_blocks
    scan_blocks-Balloc zero b al enough h = out_of_blocks (λ c l. h c (omega arith) l)
    scan_blocks-Balloc (suc fuel) b al enough h = elim (Bool-cases (ltb b sb.size)) [
      | inr e ↦ rw e (out_of_blocks (λ c l. h c (ground arith) l))
      | inl e ↦
          scanned (scan_bits bpb 0 b sb.size (st.content (bblock sb b))) refl
            (scan_bits-Scanned sb st b al bpb 0 (omega arith)) e
            (scan_blocks-Balloc fuel (b + bpb) (omega arith) (omega arith))
    ]
      where
        scanned :
            (r : Option ℕ)
            → scan_bits bpb 0 b sb.size (st.content (bblock sb b)) ≡ r
            → Scanned sb st b 0 bpb r
            → ltb b sb.size ≡ true
            → (((c : ℕ) → c < b + bpb → c < sb.size → used sb st c ≡ true)
                → Balloc st (scan_blocks sb fuel (b + bpb) st))
            → Balloc st (scan_blocks sb (suc fuel) b st)
        scanned none q (none_free k) e ih =
            rw (scan_blocks, e, q)
              (ih (λ c m t. below_next b c bpb h (λ d x y z. k d x (omega arith) z) m t))
        scanned (some ci) q (first_free _ l s f k) e ih =
            rw (scan_blocks, e, q)
              (found-Balloc b ci al (omega arith) s f
                (λ c m. below_next b c ci h (λ d x y z. k d x y) m (omega arith)))

    -- On a formatted map, `balloc` gives out the first block that is free: it marks it, fills it with
    -- zeros and changes no other bit and no other block, the map stays formatted, and the two blocks
    -- that it changes go to the log; or all blocks are in use, and it returns 0 and changes nothing.
    pub balloc-Balloc : Balloc st (balloc sb st)
    unfolding balloc
    balloc-Balloc =
        scan_blocks-Balloc (sb.size / bpb + 2) 0 (omega arith) (omega arith)
          (λ c l s. absurd (omega arith))

  pub data Bfree (b : ℕ) (st : Store) : Option Store → Type 0 where
    was_free : used sb st b ≡ false → Bfree b st none
    freed :
        (st' : Store)
        → used sb st b ≡ true
        → ((c : ℕ) → c < sb.size → used sb st' c ≡ (not (b == c) && used sb st c))
        → ((d : ℕ) → d ≢ bblock sb b → st'.content d ≡ st.content d)
        → IsFormatted sb st'
        → st'.logged ≡ st.logged ++ bblock sb b ∷ []
        → Bfree b st (some st')

  module _ (st : Store) (v : IsFormatted sb st) (b : ℕ) (lt : b < sb.size) (ne : b ≢ 0)
      (data_block : (c : ℕ) → c < sb.size → b ≢ bblock sb c) where
    freed_store : Store
    freed_store = write_block (bblock sb b) (mark_free (b % bpb) (st.content (bblock sb b))) st

    cleared_bit : (c : ℕ) → c < sb.size → used sb freed_store c ≡ (not (b == c) && used sb st c)
    unfolding freed_store
    cleared_bit c h = elim (Bool-cases (bblock sb b == bblock sb c)) [
      | inl e ↦
          let same : bblock sb b ≡ bblock sb c = ground arith in
          let bits : (b % bpb == c % bpb) ≡ (b == c) = ground arith in
          let there : freed_store.content (bblock sb c)
              ≡ mark_free (b % bpb) (st.content (bblock sb b)) =
            subst
              (λ (k : ℕ). freed_store.content k ≡ mark_free (b % bpb) (st.content (bblock sb b)))
              same
              (update_self st.content (bblock sb b)
                (mark_free (b % bpb) (st.content (bblock sb b)))) in
          ap (λ blk. bit_of blk (c % bpb)) there
          ∙ bit_of-mark_free (st.content (bblock sb b)) (v.bytes b lt) (b % bpb) (c % bpb)
          ∙ ap₂ (λ x y. not x && y) bits (ap (λ (k : ℕ). bit_of (st.content k) (c % bpb)) same)
      | inr e ↦ let other : (b == c) ≡ false = ground arith in rw e (rw other refl)
    ]

    freed-IsFormatted : IsFormatted sb freed_store
    unfolding freed_store
    freed-IsFormatted = record {
      bytes = λ c h i. elim (Bool-cases (bblock sb b == bblock sb c)) [
        | inl e ↦ rw e (mark_free-IsBytes (st.content (bblock sb b)) (v.bytes b lt) (b % bpb) i)
        | inr e ↦ rw e (v.bytes c h i)
      ];
      inside = v.inside;
      boot = cleared_bit 0 (omega arith) ∙ others_used b 0 (used sb st 0) ne v.boot;
      itself = λ c h.
          cleared_bit (bblock sb c) (v.inside c h)
          ∙ others_used b (bblock sb c) (used sb st (bblock sb c)) (data_block c h) (v.itself c h);
    }

    -- On a formatted map and for a data block, `bfree` clears its bit and changes no other bit and no other
    -- block, the map stays formatted, and the block of the map goes to the log; of a free block it panics.
    pub bfree-Bfree : Bfree b st (bfree sb b st)
    unfolding bfree freed_store
    bfree-Bfree = elim (Bool-cases (used sb st b)) [
      | inl e ↦ rw e (
          freed freed_store e cleared_bit
            (λ d n.
              update_ne st.content (bblock sb b) d (mark_free (b % bpb) (st.content (bblock sb b)))
                (λ q. n (sym q)))
            freed-IsFormatted refl)
      | inr e ↦ rw e (was_free e)
    ]
