-- ===== src/Kernel/Fs/Inode/Bmap.antt =====
-- What `bmap` comes to.
use osn_mp.Common.{
  ℕ, ◌+◌, ◌-◌, ◌≤◌, ◌<◌, ◌^◌, true, false, ltb, ◌==◌, ◌≡◌, ◌≢◌, refl, arith, ap, sym, subst, ◌∙◌,
  Bool-cases, inl, inr,
}
use osn_mp.Common.Arrays.{update_ne}
use osn_mp.Kernel.Fs.{Store, Superblock, write_block}
use osn_mp.Kernel.Fs.Words.{word, set_word}
use osn_mp.Kernel.Fs.Bitmap.{balloc}
use osn_mp.Kernel.Fs.Bitmap.Blocks.{used, IsFormatted}
use osn_mp.Kernel.Fs.Bitmap.Outcomes.{Balloc, out_of_blocks, allocated, balloc-Balloc}
use osn_mp.Kernel.Fs.Inode.{Inode, Addressed, ndirect, nindirect, slot_addr, word_addr}
use osn_mp.Kernel.Fs.Inode.Mapped.{maxfile, mapped, IsFile, IsLike-trans}
use osn_mp.Kernel.Fs.Inode.Grown.{Grown, Grown-refl, placed_at, direct-Grown}
use osn_mp.Kernel.Fs.Inode.Indirect.{word-Grown}

module _ (sb : Superblock) where
  pub data Bmapped (n : ℕ) (ip : Inode) (st : Store) : Addressed → Type 0 where
    present :
        mapped ip st n ≢ 0
        → Bmapped n ip st (record { addr = mapped ip st n; inode = ip; store = st })
    made :
        (a : ℕ) (ip' : Inode) (st' : Store)
        → mapped ip st n ≡ 0
        → a ≢ 0
        → a < sb.size
        → used sb st a ≡ false
        → ((i : ℕ) → st'.content a i ≡ 0)
        → Grown sb n ip st ip' st'
        → mapped ip' st' n ≡ a
        → Bmapped n ip st (record { addr = a; inode = ip'; store = st' })
    no_room :
        (ip' : Inode) (st' : Store)
        → mapped ip st n ≡ 0
        → ((c : ℕ) → c < sb.size → used sb st' c ≡ true)
        → Grown sb n ip st ip' st'
        → mapped ip' st' n ≡ 0
        → Bmapped n ip st (record { addr = 0; inode = ip'; store = st' })

  Grown-trans :
      (n : ℕ) (ip ip' ip2 : Inode) (st st' st2 : Store)
      → Grown sb n ip st ip' st'
      → Grown sb n ip' st' ip2 st2
      → mapped ip' st' n ≡ 0
      → mapped ip st n ≡ 0
      → Grown sb n ip st ip2 st2
  Grown-trans n ip ip' ip2 st st' st2 g h z y = record {
    formatted = h.formatted;
    file = h.file;
    others = λ m l ne. h.others m l ne ∙ g.others m l ne;
    contents = λ m l q.
        let ne : m ≢ n = λ e. q (ap (mapped ip st) e ∙ y) in
        let same : mapped ip' st' m ≡ mapped ip st m = g.others m l ne in
        subst (λ (k : ℕ). st2.content k ≡ st'.content k) same
          (h.contents m l (λ e. q (sym same ∙ e)))
        ∙ g.contents m l q;
    still = λ c l u. h.still c l (g.still c l u);
    like = IsLike-trans ip ip' ip2 g.like h.like;
    foreign = λ d o. let (o', e) = g.foreign d o in let (o2, e') = h.foreign d o' in (o2, e' ∙ e);
  }

  -- Behind the allocation of an indirect block.
  pub Bmapped-trans :
      (n : ℕ) (ip ip' : Inode) (st st' : Store) {r : Addressed}
      → Grown sb n ip st ip' st'
      → mapped ip' st' n ≡ 0
      → mapped ip st n ≡ 0
      → Bmapped n ip' st' r
      → Bmapped n ip st r
  Bmapped-trans n ip ip' st st' g z y (present p) = absurd (p z)
  Bmapped-trans n ip ip' st st' g z y (made a ip2 st2 _ p l u w h e) =
      made a ip2 st2 y p l
        (elim (Bool-cases (used sb st a)) [
          | inl q ↦ let t : used sb st' a ≡ true = g.still a l q in grind (arith, t, u)
          | inr q ↦ q
        ])
        w (Grown-trans n ip ip' ip2 st st' st2 g h z y) e
  Bmapped-trans n ip ip' st st' g z y (no_room ip2 st2 _ u h e) =
      no_room ip2 st2 y u (Grown-trans n ip ip' ip2 st st' st2 g h z y) e

  module _ (ip : Inode) (st : Store) (v : IsFormatted sb st) (f : IsFile sb ip st) where
    module _ (s : ℕ) (direct : s < ndirect) where
      at_slot : mapped ip st s ≡ ip.addrs s
      at_slot = let e : ltb s ndirect ≡ true = ground arith in rw e refl

      slot-empty :
          (r : ℕ × Store)
          → balloc sb st ≡ r
          → Balloc sb st r
          → (ip.addrs s == 0) ≡ true
          → Bmapped s ip st (slot_addr sb s ip st)
      unfolding slot_addr
      slot-empty _ q (out_of_blocks h) e =
          let z : mapped ip st s ≡ 0 = at_slot ∙ ground arith in
          rw (slot_addr, q, e) (no_room ip st z h (Grown-refl sb s ip st v f) z)
      slot-empty _ q (allocated b st' a h) e =
          let none_there : ip.addrs s ≡ 0 = ground arith in
          let (g, t) = direct-Grown sb ip st st' b v f a s direct none_there in
          let nz : (b == 0) ≡ false = let n : b ≢ 0 = a.not_boot in ground arith in
          rw (slot_addr, q, e, nz)
            (made b (placed_at ip s b) st' (at_slot ∙ none_there) a.not_boot a.fits a.was_free
              a.zeroed g t)

      pub slot-Bmapped : Bmapped s ip st (slot_addr sb s ip st)
      unfolding slot_addr
      slot-Bmapped = elim (Bool-cases (ip.addrs s == 0)) [
        | inl e ↦ slot-empty (balloc sb st) refl (balloc-Balloc sb st v) e
        | inr e ↦
            rw (slot_addr, e)
              (subst (λ (k : ℕ). Bmapped s ip st (record { addr = k; inode = ip; store = st }))
                at_slot (present (λ z. let k : ip.addrs s ≡ 0 = sym at_slot ∙ z in ground arith)))
      ]

    module _ (i : ℕ) (lt : i < nindirect) (fits : sb.size ≤ 2 ^ 32) where
      module _ (has : ip.addrs ndirect ≢ 0) where
        at_word : mapped ip st (i + ndirect) ≡ word (st.content (ip.addrs ndirect)) i
        at_word =
            let e : ltb (i + ndirect) ndirect ≡ false = ground arith in
            let z : (ip.addrs ndirect == 0) ≡ false = ground arith in
            let same : i + ndirect - ndirect ≡ i = omega arith in
            rw (e, z) (ap (λ (k : ℕ). word (st.content (ip.addrs ndirect)) k) same)

        abbrev pub by_word : Addressed
        by_word =
            let (addr, st') = word_addr sb (ip.addrs ndirect) i st in
            record { addr = addr; inode = ip; store = st' }

        word-empty :
            (r : ℕ × Store)
            → balloc sb st ≡ r
            → Balloc sb st r
            → (word (st.content (ip.addrs ndirect)) i == 0) ≡ true
            → Bmapped (i + ndirect) ip st by_word
        unfolding word_addr
        word-empty _ q (out_of_blocks h) e =
            let z : mapped ip st (i + ndirect) ≡ 0 = at_word ∙ ground arith in
            rw (word_addr, q, e) (no_room ip st z h (Grown-refl sb (i + ndirect) ip st v f) z)
        word-empty _ q (allocated b st' a h) e =
            let none_there : word (st.content (ip.addrs ndirect)) i ≡ 0 = ground arith in
            let (g, t) = word-Grown sb ip st st' b i v f a fits lt has none_there in
            let n : b ≢ 0 = a.not_boot in
            let nz : (b == 0) ≡ false = ground arith in
            let apart : ip.addrs ndirect ≢ b = λ k.
              let u : used sb st b ≡ true =
                ap (used sb st) (sym k) ∙ f.holds.marked maxfile (omega arith) has in
              let w : used sb st b ≡ false = a.was_free in grind (arith, u, w) in
            rw (word_addr, q, e, nz)
              (made b ip
                (write_block (ip.addrs ndirect) (set_word (st'.content (ip.addrs ndirect)) i b) st')
                (at_word ∙ none_there) n a.fits a.was_free
                (λ j.
                  ap (λ blk. blk j)
                    (update_ne st'.content (ip.addrs ndirect) b
                      (set_word (st'.content (ip.addrs ndirect)) i b) apart)
                  ∙ a.zeroed j)
                g t)

        pub word-Bmapped : Bmapped (i + ndirect) ip st by_word
        unfolding word_addr
        word-Bmapped = elim (Bool-cases (word (st.content (ip.addrs ndirect)) i == 0)) [
          | inl e ↦ word-empty (balloc sb st) refl (balloc-Balloc sb st v) e
          | inr e ↦
              rw (word_addr, e)
                (subst
                  (λ (k : ℕ).
                    Bmapped (i + ndirect) ip st (record { addr = k; inode = ip; store = st }))
                  at_word
                  (present (λ z.
                    let k : word (st.content (ip.addrs ndirect)) i ≡ 0 = sym at_word ∙ z in
                    ground arith)))
        ]
