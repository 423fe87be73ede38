-- ===== src/Kernel/Fs/Inode/Indirect.antt =====
-- An allocation for a word of the indirect block.
use osn_mp.Common.{
  ℕ, ◌+◌, ◌-◌, ◌%◌, ◌≤◌, ◌<◌, ◌^◌, true, false, ◌||◌, ltb, ◌==◌, ◌≡◌, ◌≢◌, refl, arith, ap, sym,
  subst, ◌∙◌, Bool-cases, inl, inr, if◌then◌else◌,
}
use osn_mp.Common.Arrays.{update_self, update_ne}
use osn_mp.Kernel.Fs.{Block, Store, Superblock, bblock, write_block}
use osn_mp.Kernel.Fs.Words.{word, set_word, word-set_word, set_word-IsBytes}
use osn_mp.Kernel.Fs.Bitmap.Blocks.{bit_of, IsBytes, used, IsFormatted}
use osn_mp.Kernel.Fs.Bitmap.Allocated.{Allocated}
use osn_mp.Kernel.Fs.Inode.{Inode, ndirect, nindirect}
use osn_mp.Kernel.Fs.Inode.Mapped.{maxfile, mapped, held, IsFile, IsLike-refl, extended}
use osn_mp.Kernel.Fs.Inode.Grown.{
  Grown, off_map, held-mapped, contents_kept, indirect_kept, still, Foreign-kept, Foreign-grown,
}

module _ (sb : Superblock) where
  -- A write outside the map changes no bit of it.
  module _ (d : ℕ) (block : Block) (st : Store)
      (out : (c : ℕ) → c < sb.size → d ≢ bblock sb c) where
    map_kept :
        (c : ℕ)
        → c < sb.size
        → (write_block d block st).content (bblock sb c) ≡ st.content (bblock sb c)
    map_kept c l = update_ne st.content d (bblock sb c) block (out c l)

    pub write_block-used : (c : ℕ) → c < sb.size → used sb (write_block d block st) c ≡ used sb st c
    write_block-used c l = ap (λ blk. bit_of blk (c % 8192)) (map_kept c l)

    pub write_block-IsFormatted :
        0 < sb.size → IsFormatted sb st → IsFormatted sb (write_block d block st)
    write_block-IsFormatted pos v = record {
      bytes = λ c l. subst IsBytes (sym (map_kept c l)) (v.bytes c l);
      inside = v.inside;
      boot = write_block-used 0 pos ∙ v.boot;
      itself = λ c l. write_block-used (bblock sb c) (v.inside c l) ∙ v.itself c l;
    }

  module _ (ip : Inode) (st st' : Store) (b i : ℕ) (v : IsFormatted sb st) (f : IsFile sb ip st)
      (a : Allocated sb b st st') (fits : sb.size ≤ 2 ^ 32) (lt : i < nindirect)
      (has : ip.addrs ndirect ≢ 0) (empty : word (st.content (ip.addrs ndirect)) i ≡ 0) where
    abbrev ind : ℕ
    ind = ip.addrs ndirect

    abbrev new_block : Block
    new_block = set_word (st'.content ind) i b

    abbrev behind : Store
    behind = write_block ind new_block st'

    outside : (c : ℕ) → c < sb.size → ind ≢ bblock sb c
    outside c l = f.holds.not_map maxfile c (omega arith) has l

    new_words :
        (j : ℕ) → word (behind.content ind) j ≡ (if i == j then b else word (st.content ind) j)
    new_words j =
        ap (λ blk. word blk j) (update_self st'.content ind new_block)
        ∙ word-set_word (st'.content ind) i b j (omega (arith, a.fits))
        ∙ ap (λ blk. if i == j then b else word blk j) (indirect_kept sb ip st st' b v f a has)

    word_others : (m : ℕ) → m < maxfile → m ≢ i + ndirect → mapped ip behind m ≡ mapped ip st m
    word_others m l ne = elim (Bool-cases (ltb m ndirect)) [
      | inl e ↦ rw e refl
      | inr e ↦
          let z : (ind == 0) ≡ false = ground arith in
          let w : (i == m - ndirect) ≡ false = ground arith in
          rw (e, z) (new_words (m - ndirect) ∙ rw w refl)
    ]

    word_this : mapped ip behind (i + ndirect) ≡ b
    word_this =
        let e : ltb (i + ndirect) ndirect ≡ false = ground arith in
        let z : (ind == 0) ≡ false = ground arith in
        let w : (i == i + ndirect - ndirect) ≡ true = ground arith in
        rw (e, z) (new_words (i + ndirect - ndirect) ∙ rw w refl)

    word_held : (j : ℕ) → j ≤ maxfile → j ≢ i + ndirect → held ip behind j ≡ held ip st j
    word_held j l ne = elim (Bool-cases (j == maxfile)) [
      | inl e ↦ rw e refl
      | inr e ↦ rw e (word_others j (ground arith) ne)
    ]

    word_held_this : held ip behind (i + ndirect) ≡ b
    word_held_this = let e : (i + ndirect == maxfile) ≡ false = ground arith in rw e word_this

    used_behind : (c : ℕ) → c < sb.size → used sb behind c ≡ (b == c || used sb st c)
    used_behind c l = write_block-used ind new_block st' outside c l ∙ a.marked c l

    not_ind : (m : ℕ) → m < maxfile → mapped ip st m ≢ 0 → ind ≢ mapped ip st m
    not_ind m l n q =
        let z : held ip st m ≡ mapped ip st m = held-mapped sb ip st st' b v f a m l in
        let same : maxfile ≡ m =
          f.holds.apart maxfile m (omega arith) (omega arith) has (q ∙ sym z) in
        absurd (omega arith)

    pub word-Grown : Grown sb (i + ndirect) ip st ip behind × (mapped ip behind (i + ndirect) ≡ b)
    word-Grown = (
      record {
        formatted =
            write_block-IsFormatted ind new_block st' outside (omega (arith, a.fits)) a.formatted;
        file = record {
          holds =
              extended sb (held ip st) (held ip behind) (used sb st) (used sb behind) b
                (i + ndirect) (omega arith) f.holds a.fits a.was_free (off_map sb ip st st' b v f a)
                word_held word_held_this used_behind;
          bytes = λ n. subst IsBytes (sym (update_self st'.content ind new_block)) (
              set_word-IsBytes (st'.content ind) i b
                (subst IsBytes (sym (indirect_kept sb ip st st' b v f a has)) (f.bytes n)));
        };
        others = word_others;
        contents = λ m l n.
            update_ne st'.content ind (mapped ip st m) new_block (not_ind m l n)
            ∙ contents_kept sb ip st st' b v f a m l n;
        still = λ c l u.
            write_block-used ind new_block st' outside c l ∙ still sb ip st st' b v f a c l u;
        like = IsLike-refl ip;
        foreign = λ d o. (
          Foreign-grown sb ip st st' b v f a (i + ndirect) ip behind word_held word_held_this
              used_behind d o,
          update_ne st'.content ind d new_block (o.not_held maxfile (omega arith))
              ∙ Foreign-kept sb ip st st' b v f a d o,
        );
      },
      word_this,
    )
