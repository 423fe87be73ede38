-- ===== src/Kernel/Fs/Content/Kept.antt =====
-- The bytes of a file, and what an allocation and a write of one of its blocks do to them.
use osn_mp.Common.{
  ℕ, ◌-◌, ◌*◌, ◌/◌, ◌%◌, ◌≤◌, ◌<◌, false, ltb, ◌==◌, ◌≡◌, ◌≢◌, refl, arith, ap, sym, subst, ◌∙◌,
  Bool-cases, inl, inr, if◌then◌else◌,
}
use osn_mp.Common.Arrays.{update_self, update_ne}
use osn_mp.Kernel.Fs.{Block, Store, Superblock, bblock, bsize, write_block}
use osn_mp.Kernel.Fs.Words.{word}
use osn_mp.Kernel.Fs.Bitmap.Blocks.{IsBytes, used, IsFormatted}
use osn_mp.Kernel.Fs.Inode.{Inode, ndirect}
use osn_mp.Kernel.Fs.Inode.Mapped.{
  maxfile, mapped, held, IsHeld, IsFile, Foreign, IsLike, IsLike-refl, IsLike-trans,
}
use osn_mp.Kernel.Fs.Inode.Grown.{Grown}
use osn_mp.Kernel.Fs.Inode.Indirect.{write_block-used, write_block-IsFormatted}

-- A byte of the content; a block that is not mapped is zeros.
abbrev pub byte_at : Inode → Store → ℕ → ℕ
byte_at ip st k =
    if mapped ip st (k / bsize) == 0 then 0 else st.content (mapped ip st (k / bsize)) (k % bsize)

module _ (sb : Superblock) where
  -- The map and the file stay as they should be, and nothing of others changes.
  pub record Kept (ip : Inode) (st : Store) (ip' : Inode) (st' : Store) : Type 0 where
    pub formatted : IsFormatted sb st'
    pub file : IsFile sb ip' st'
    pub like : IsLike ip ip'
    pub foreign :
        (d : ℕ) → Foreign sb ip st d → Foreign sb ip' st' d × (st'.content d ≡ st.content d)
    pub stays : (m : ℕ) → m < maxfile → mapped ip st m ≢ 0 → mapped ip' st' m ≡ mapped ip st m

  pub Kept-refl : (ip : Inode) (st : Store) → IsFormatted sb st → IsFile sb ip st → Kept ip st ip st
  Kept-refl ip st v f = record {
    formatted = v;
    file = f;
    like = IsLike-refl ip;
    foreign = λ d o. (o, refl);
    stays = λ m l n. refl;
  }

  pub Kept-trans :
      (ip ip' ip2 : Inode) (st st' st2 : Store)
      → Kept ip st ip' st'
      → Kept ip' st' ip2 st2
      → Kept ip st ip2 st2
  Kept-trans ip ip' ip2 st st' st2 g h = record {
    formatted = h.formatted;
    file = h.file;
    like = IsLike-trans ip ip' ip2 g.like h.like;
    foreign = λ d o. let (o', e) = g.foreign d o in let (o2, e') = h.foreign d o' in (o2, e' ∙ e);
    stays = λ m l n. h.stays m l (λ z. n (sym (g.stays m l n) ∙ z)) ∙ g.stays m l n;
  }

  pub Grown-Kept :
      (n : ℕ) (ip ip' : Inode) (st st' : Store)
      → Grown sb n ip st ip' st'
      → mapped ip st n ≡ 0
      → Kept ip st ip' st'
  Grown-Kept n ip ip' st st' g z = record {
    formatted = g.formatted;
    file = g.file;
    like = g.like;
    foreign = g.foreign;
    stays = λ m l ne. g.others m l (λ e. ne (ap (mapped ip st) e ∙ z));
  }

  byte_same :
      (ip ip' : Inode) (st st' : Store) (k : ℕ)
      → mapped ip' st' (k / bsize) ≡ mapped ip st (k / bsize)
      → (mapped ip st (k / bsize) ≢ 0
          → st'.content (mapped ip st (k / bsize)) ≡ st.content (mapped ip st (k / bsize)))
      → byte_at ip' st' k ≡ byte_at ip st k
  byte_same ip ip' st st' k e c = elim (Bool-cases (mapped ip st (k / bsize) == 0)) [
    | inl z ↦ rw (e, z) refl
    | inr z ↦ rw (e, z) (ap (λ blk. blk (k % bsize)) (c (λ q. ground arith)))
  ]

  -- An allocation that changes nothing but what is mapped at `n`, which it fills with zeros.
  pub Grown-byte_at :
      (n : ℕ) (ip ip' : Inode) (st st' : Store)
      → Grown sb n ip st ip' st'
      → mapped ip st n ≡ 0
      → (mapped ip' st' n ≢ 0 → (i : ℕ) → st'.content (mapped ip' st' n) i ≡ 0)
      → (k : ℕ) → k < maxfile * bsize
      → byte_at ip' st' k ≡ byte_at ip st k
  Grown-byte_at n ip ip' st st' g z fresh k l = elim (Bool-cases (k / bsize == n)) [
    | inr e ↦
        byte_same ip ip' st st' k (g.others (k / bsize) (omega arith) (λ q. ground arith))
          (g.contents (k / bsize) (omega arith))
    | inl e ↦
        let at : n ≡ k / bsize = ground arith in
        let old : mapped ip st (k / bsize) ≡ 0 = subst (λ (m : ℕ). mapped ip st m ≡ 0) at z in
        let new : mapped ip' st' (k / bsize) ≢ 0
            → st'.content (mapped ip' st' (k / bsize)) (k % bsize) ≡ 0 =
          subst (λ (m : ℕ). mapped ip' st' m ≢ 0 → st'.content (mapped ip' st' m) (k % bsize) ≡ 0)
            at (λ q. fresh q (k % bsize)) in
        cleared (mapped ip' st' (k / bsize)) (mapped ip st (k / bsize)) _ _ old new
  ]
    where
      cleared :
          (m' m c' c : ℕ)
          → m ≡ 0
          → (m' ≢ 0 → c' ≡ 0)
          → (if m' == 0 then 0 else c') ≡ (if m == 0 then 0 else c)
      cleared m' m c' c e h = ground arith

  -- A write outside the map, and of another block than the indirect one.
  module _ (b : ℕ) (block : Block) (ip : Inode) (st : Store) (v : IsFormatted sb st)
      (f : IsFile sb ip st) (lt : b < sb.size) (outside : (c : ℕ) → c < sb.size → b ≢ bblock sb c)
      (apart : b ≢ ip.addrs ndirect) where
    abbrev pub behind : Store
    behind = write_block b block st

    indirect_kept : behind.content (ip.addrs ndirect) ≡ st.content (ip.addrs ndirect)
    indirect_kept = update_ne st.content b (ip.addrs ndirect) block apart

    pub mapped_kept : (m : ℕ) → mapped ip behind m ≡ mapped ip st m
    mapped_kept m =
        ap
          (λ blk.
            if ltb m ndirect
            then ip.addrs m
            else if ip.addrs ndirect == 0
            then 0
            else word blk (m - ndirect))
          indirect_kept

    pub held_kept : (k : ℕ) → held ip behind k ≡ held ip st k
    held_kept k = ap (λ (a : ℕ). if k == maxfile then ip.addrs ndirect else a) (mapped_kept k)

    pub used_kept : (c : ℕ) → c < sb.size → used sb behind c ≡ used sb st c
    used_kept = write_block-used sb b block st outside

    pub behind-IsFormatted : IsFormatted sb behind
    behind-IsFormatted = write_block-IsFormatted sb b block st outside (omega arith) v

    behind-IsHeld : IsHeld sb (held ip behind) (used sb behind)
    behind-IsHeld = record {
      inside = λ k l q.
          subst (λ (a : ℕ). a < sb.size) (sym (held_kept k))
            (f.holds.inside k l (λ z. q (held_kept k ∙ z)));
      marked = λ k l q.
          let q' : held ip st k ≢ 0 = λ z. q (held_kept k ∙ z) in
          ap (used sb behind) (held_kept k)
          ∙ used_kept (held ip st k) (f.holds.inside k l q')
          ∙ f.holds.marked k l q';
      not_map =
          λ k c l q m e. f.holds.not_map k c l (λ z. q (held_kept k ∙ z)) m (sym (held_kept k) ∙ e);
      apart = λ j k l m q e.
          f.holds.apart j k l m (λ z. q (held_kept j ∙ z)) (sym (held_kept j) ∙ e ∙ held_kept k);
    }

    pub behind-IsFile : IsFile sb ip behind
    behind-IsFile = record {
      holds = behind-IsHeld;
      bytes = λ q. subst IsBytes (sym indirect_kept) (f.bytes q);
    }

    pub Foreign-behind : (d : ℕ) → Foreign sb ip st d → Foreign sb ip behind d
    Foreign-behind d o = record {
      inside = o.inside;
      marked = used_kept d o.inside ∙ o.marked;
      not_held = λ k l e. o.not_held k l (sym (held_kept k) ∙ e);
      not_map = o.not_map;
    }

  -- A write of another's block changes no byte of the content.
  pub Foreign-byte_at :
      (b : ℕ) (block : Block) (ip : Inode) (st : Store)
      → Foreign sb ip st b
      → (k : ℕ) → k < maxfile * bsize
      → byte_at ip (write_block b block st) k ≡ byte_at ip st k
  Foreign-byte_at b block ip st o k l =
      let other : (k / bsize == maxfile) ≡ false = ground arith in
      let same : held ip st (k / bsize) ≡ mapped ip st (k / bsize) = rw other refl in
      let kept : (write_block b block st).content (ip.addrs ndirect)
          ≡ st.content (ip.addrs ndirect) =
        update_ne st.content b (ip.addrs ndirect) block
          (λ e. o.not_held maxfile (omega arith) (sym e)) in
      byte_same ip ip st (write_block b block st) k
        (ap
          (λ blk.
            if ltb (k / bsize) ndirect
            then ip.addrs (k / bsize)
            else if ip.addrs ndirect == 0
            then 0
            else word blk (k / bsize - ndirect))
          kept)
        (λ q.
          update_ne st.content b (mapped ip st (k / bsize)) block
            (λ e. o.not_held (k / bsize) (omega arith) (same ∙ sym e)))

  -- A write of the block mapped at `n`.
  module _ (n : ℕ) (lt : n < maxfile) (block : Block) (ip : Inode) (st : Store)
      (v : IsFormatted sb st) (f : IsFile sb ip st) (ne : mapped ip st n ≢ 0) where
    abbrev b : ℕ
    b = mapped ip st n

    abbrev written : Store
    written = write_block b block st

    at_held : held ip st n ≡ b
    at_held = let e : (n == maxfile) ≡ false = ground arith in rw e refl

    held_nonzero : held ip st n ≢ 0
    held_nonzero z = ne (sym at_held ∙ z)

    outside : (c : ℕ) → c < sb.size → b ≢ bblock sb c
    outside c l q = f.holds.not_map n c (omega arith) held_nonzero l (at_held ∙ q)

    inside : b < sb.size
    inside = subst (λ (a : ℕ). a < sb.size) at_held (f.holds.inside n (omega arith) held_nonzero)

    -- No other address is that of the block.
    others_apart : (k : ℕ) → k ≤ maxfile → k ≢ n → b ≢ held ip st k
    others_apart k l q e = q (sym (f.holds.apart n k (omega arith) l held_nonzero (at_held ∙ e)))

    not_indirect : b ≢ ip.addrs ndirect
    not_indirect = others_apart maxfile (omega arith) (λ e. omega arith)

    mapped_same : (m : ℕ) → mapped ip written m ≡ mapped ip st m
    mapped_same = mapped_kept b block ip st v f inside outside not_indirect

    pub write_block-Kept : Kept ip st ip written
    write_block-Kept = record {
      formatted = behind-IsFormatted b block ip st v f inside outside not_indirect;
      file = behind-IsFile b block ip st v f inside outside not_indirect;
      like = IsLike-refl ip;
      foreign = λ d o. (
        Foreign-behind b block ip st v f inside outside not_indirect d o,
        update_ne st.content b d block (λ e. o.not_held n (omega arith) (at_held ∙ e)),
      );
      stays = λ m l q. mapped_same m;
    }

    pub byte_at-write_block :
        (k : ℕ)
        → k < maxfile * bsize
        → byte_at ip written k ≡ (if k / bsize == n then block (k % bsize) else byte_at ip st k)
    byte_at-write_block k l = elim (Bool-cases (k / bsize == n)) [
      | inl e ↦
          let at : n ≡ k / bsize = ground arith in
          let new : mapped ip written (k / bsize) ≡ b =
            mapped_same (k / bsize) ∙ ap (mapped ip st) (sym at) in
          let nz : (b == 0) ≡ false = ground arith in
          rw (e, new, nz) (ap (λ blk. blk (k % bsize)) (update_self st.content b block))
      | inr e ↦
          let other : (k / bsize == maxfile) ≡ false = ground arith in
          let apart : b ≢ held ip st (k / bsize) =
            others_apart (k / bsize) (omega arith) (λ q. ground arith) in
          let same : held ip st (k / bsize) ≡ mapped ip st (k / bsize) = rw other refl in
          rw e (
            byte_same ip ip st written k (mapped_same (k / bsize)) (λ q.
              update_ne st.content b (mapped ip st (k / bsize)) block (λ z. apart (z ∙ sym same))))
    ]
