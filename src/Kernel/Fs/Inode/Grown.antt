-- ===== src/Kernel/Fs/Inode/Grown.antt =====
-- One allocation for an inode keeps all that the inode holds.
use osn_mp.Common.{
  ℕ, ◌-◌, ◌≤◌, ◌<◌, Bool, true, false, ◌||◌, ltb, ◌==◌, ◌≡◌, ◌≢◌, refl, arith, ap, sym, subst, ◌∙◌,
  Bool-cases, inl, inr, if◌then◌else◌,
}
use osn_mp.Common.Arrays.{update, update_self, update_ne}
use osn_mp.Kernel.Fs.{Store, Superblock, bblock}
use osn_mp.Kernel.Fs.Words.{word, word-zero}
use osn_mp.Kernel.Fs.Bitmap.Blocks.{IsBytes, used, IsFormatted}
use osn_mp.Kernel.Fs.Bitmap.Allocated.{Allocated}
use osn_mp.Kernel.Fs.Inode.{Inode, ndirect}
use osn_mp.Kernel.Fs.Inode.Mapped.{
  maxfile, mapped, held, IsFile, Foreign, IsLike, IsLike-refl, IsLike-placed, extended,
}

-- The inode with an address in a slot.
abbrev pub placed_at : Inode → ℕ → ℕ → Inode
placed_at ip s b = record ip { addrs = update ip.addrs s b }

module _ (sb : Superblock) where
  -- From `ip` and `st` to `ip'` and `st'` the content but for the block `n` keeps its addresses, and
  -- every block of it what is in it; no block in use is freed, and those of others stay as they are.
  pub record Grown (n : ℕ) (ip : Inode) (st : Store) (ip' : Inode) (st' : Store) : Type 0 where
    pub formatted : IsFormatted sb st'
    pub file : IsFile sb ip' st'
    pub others : (m : ℕ) → m < maxfile → m ≢ n → mapped ip' st' m ≡ mapped ip st m
    pub contents :
        (m : ℕ)
        → m < maxfile
        → mapped ip st m ≢ 0
        → st'.content (mapped ip st m) ≡ st.content (mapped ip st m)
    pub still : (c : ℕ) → c < sb.size → used sb st c ≡ true → used sb st' c ≡ true
    pub like : IsLike ip ip'
    pub foreign :
        (d : ℕ) → Foreign sb ip st d → Foreign sb ip' st' d × (st'.content d ≡ st.content d)

  pub Grown-refl :
      (n : ℕ) (ip : Inode) (st : Store) → IsFormatted sb st → IsFile sb ip st → Grown n ip st ip st
  Grown-refl n ip st v f = record {
    formatted = v;
    file = f;
    others = λ m l ne. refl;
    contents = λ m l ne. refl;
    still = λ c l u. u;
    like = IsLike-refl ip;
    foreign = λ d o. (o, refl);
  }

  or_right : (a c : Bool) → c ≡ true → (a || c) ≡ true
  or_right a c e = ground arith

  module _ (ip : Inode) (st st' : Store) (b : ℕ) (v : IsFormatted sb st) (f : IsFile sb ip st)
      (a : Allocated sb b st st') where
    pub off_map : (c : ℕ) → c < sb.size → b ≢ bblock sb c
    off_map c l e =
        let t : used sb st b ≡ true = ap (used sb st) e ∙ v.itself c l in
        let u : used sb st b ≡ false = a.was_free in grind arith

    -- A block that the inode holds is not touched.
    pub held_kept :
        (k : ℕ)
        → k ≤ maxfile
        → held ip st k ≢ 0
        → st'.content (held ip st k) ≡ st.content (held ip st k)
    held_kept k l n =
        a.kept (held ip st k)
          (λ e.
            let t : used sb st b ≡ true = ap (used sb st) (sym e) ∙ f.holds.marked k l n in
            let u : used sb st b ≡ false = a.was_free in grind arith)
          (f.holds.not_map k b l n a.fits)

    pub held-mapped : (m : ℕ) → m < maxfile → held ip st m ≡ mapped ip st m
    held-mapped m l = let e : (m == maxfile) ≡ false = ground arith in rw e refl

    pub contents_kept :
        (m : ℕ)
        → m < maxfile
        → mapped ip st m ≢ 0
        → st'.content (mapped ip st m) ≡ st.content (mapped ip st m)
    contents_kept m l n =
        subst (λ (k : ℕ). st'.content k ≡ st.content k) (held-mapped m l)
          (held_kept m (omega arith) (λ z. n (sym (held-mapped m l) ∙ z)))

    pub indirect_kept :
        ip.addrs ndirect ≢ 0 → st'.content (ip.addrs ndirect) ≡ st.content (ip.addrs ndirect)
    indirect_kept n = held_kept maxfile (omega arith) n

    pub still : (c : ℕ) → c < sb.size → used sb st c ≡ true → used sb st' c ≡ true
    still c l u = a.marked c l ∙ or_right (b == c) (used sb st c) u

    Foreign-ne : (d : ℕ) → Foreign sb ip st d → d ≢ b
    Foreign-ne d o e =
        let t : used sb st b ≡ true = ap (used sb st) (sym e) ∙ o.marked in
        let u : used sb st b ≡ false = a.was_free in grind arith

    pub Foreign-kept : (d : ℕ) → Foreign sb ip st d → st'.content d ≡ st.content d
    Foreign-kept d o = a.kept d (Foreign-ne d o) (o.not_map b a.fits)

    pub Foreign-grown :
        (s : ℕ) (ip' : Inode) (st2 : Store)
        → ((j : ℕ) → j ≤ maxfile → j ≢ s → held ip' st2 j ≡ held ip st j)
        → held ip' st2 s ≡ b
        → ((c : ℕ) → c < sb.size → used sb st2 c ≡ (b == c || used sb st c))
        → (d : ℕ) → Foreign sb ip st d
        → Foreign sb ip' st2 d
    Foreign-grown s ip' st2 others this mark d o = record {
      inside = o.inside;
      marked = mark d o.inside ∙ or_right (b == d) (used sb st d) o.marked;
      not_held = λ k l e. elim (Bool-cases (k == s)) [
        | inl q ↦
            let same : k ≡ s = ground arith in
            absurd (Foreign-ne d o (sym e ∙ ap (held ip' st2) same ∙ this))
        | inr q ↦ absurd (o.not_held k l (sym (others k l (λ z. ground arith)) ∙ e))
      ];
      not_map = o.not_map;
    }

    -- The words of the indirect block.
    words_kept :
        (m : ℕ)
        → (if ip.addrs ndirect == 0 then 0 else word (st'.content (ip.addrs ndirect)) (m - ndirect))
          ≡ (if ip.addrs ndirect == 0
              then 0
              else word (st.content (ip.addrs ndirect)) (m - ndirect))
    words_kept m = elim (Bool-cases (ip.addrs ndirect == 0)) [
      | inl e ↦ rw e refl
      | inr e ↦
          ap (λ blk. if ip.addrs ndirect == 0 then 0 else word blk (m - ndirect))
            (indirect_kept (λ z. ground arith))
    ]

    module _ (s : ℕ) (direct : s < ndirect) (empty : ip.addrs s ≡ 0) where
      placed_slot : (placed_at ip s b).addrs s ≡ b
      placed_slot = update_self ip.addrs s b

      placed_indirect : (placed_at ip s b).addrs ndirect ≡ ip.addrs ndirect
      placed_indirect = update_ne ip.addrs s ndirect b (λ e. omega arith)

      direct_others : (m : ℕ) → m ≢ s → mapped (placed_at ip s b) st' m ≡ mapped ip st m
      direct_others m ne = elim (Bool-cases (ltb m ndirect)) [
        | inl e ↦ rw e (update_ne ip.addrs s m b (λ q. ne (sym q)))
        | inr e ↦ rw e (
            ap (λ (k : ℕ). if k == 0 then 0 else word (st'.content k) (m - ndirect)) placed_indirect
            ∙ words_kept m)
      ]

      direct_this : mapped (placed_at ip s b) st' s ≡ b
      direct_this = let e : ltb s ndirect ≡ true = ground arith in rw e placed_slot

      direct_held : (j : ℕ) → j ≤ maxfile → j ≢ s → held (placed_at ip s b) st' j ≡ held ip st j
      direct_held j l ne = elim (Bool-cases (j == maxfile)) [
        | inl e ↦ rw e placed_indirect
        | inr e ↦ rw e (direct_others j ne)
      ]

      direct_held_this : held (placed_at ip s b) st' s ≡ b
      direct_held_this = let e : (s == maxfile) ≡ false = ground arith in rw e direct_this

      pub direct-Grown :
          Grown s ip st (placed_at ip s b) st' × (mapped (placed_at ip s b) st' s ≡ b)
      direct-Grown = (
        record {
          formatted = a.formatted;
          file = record {
            holds =
                extended sb (held ip st) (held (placed_at ip s b) st') (used sb st) (used sb st') b
                  s (omega arith) f.holds a.fits a.was_free off_map direct_held direct_held_this
                  a.marked;
            bytes =
                subst (λ (k : ℕ). k ≢ 0 → IsBytes (st'.content k)) (sym placed_indirect)
                  (λ n. subst IsBytes (sym (indirect_kept n)) (f.bytes n));
          };
          others = λ m l ne. direct_others m ne;
          contents = contents_kept;
          still = still;
          like = IsLike-placed ip (update ip.addrs s b);
          foreign = λ d o. (
            Foreign-grown s (placed_at ip s b) st' direct_held direct_held_this a.marked d o,
            Foreign-kept d o,
          );
        },
        direct_this,
      )

    module _ (empty : ip.addrs ndirect ≡ 0) where
      pub indirect_slot : (placed_at ip ndirect b).addrs ndirect ≡ b
      indirect_slot = update_self ip.addrs ndirect b

      pub indirect_same : (m : ℕ) → mapped (placed_at ip ndirect b) st' m ≡ mapped ip st m
      indirect_same m = elim (Bool-cases (ltb m ndirect)) [
        | inl e ↦ rw e (update_ne ip.addrs ndirect m b (λ q. ground arith))
        | inr e ↦
            let old : (ip.addrs ndirect == 0) ≡ true = ground arith in
            let new : (b == 0) ≡ false = let n : b ≢ 0 = a.not_boot in ground arith in
            rw (e, old)
              (ap (λ (k : ℕ). if k == 0 then 0 else word (st'.content k) (m - ndirect))
                  indirect_slot
                ∙ rw new (word-zero (st'.content b) a.zeroed (m - ndirect)))
      ]

      indirect_held :
          (j : ℕ) → j ≤ maxfile → j ≢ maxfile → held (placed_at ip ndirect b) st' j ≡ held ip st j
      indirect_held j l ne = let e : (j == maxfile) ≡ false = ground arith in rw e (indirect_same j)

      pub indirect-Grown : (n : ℕ) → Grown n ip st (placed_at ip ndirect b) st'
      indirect-Grown n = record {
        formatted = a.formatted;
        file = record {
          holds =
              extended sb (held ip st) (held (placed_at ip ndirect b) st') (used sb st)
                (used sb st') b maxfile (omega arith) f.holds a.fits a.was_free off_map
                indirect_held indirect_slot a.marked;
          bytes = λ q.
              subst (λ (k : ℕ). IsBytes (st'.content k)) (sym indirect_slot)
                (λ i. let z : st'.content b i ≡ 0 = a.zeroed i in omega arith);
        };
        others = λ m l ne. indirect_same m;
        contents = contents_kept;
        still = still;
        like = IsLike-placed ip (update ip.addrs ndirect b);
        foreign = λ d o. (
          Foreign-grown maxfile (placed_at ip ndirect b) st' indirect_held indirect_slot a.marked d
              o,
          Foreign-kept d o,
        );
      }
