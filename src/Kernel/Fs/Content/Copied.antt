-- ===== src/Kernel/Fs/Content/Copied.antt =====
-- Bytes of memory copied into a file.
use osn_mp.Common.{
  ℕ, ◌+◌, ◌-◌, ◌*◌, ◌/◌, ◌%◌, ◌≤◌, ◌<◌, true, false, ◌&&◌, ltb, leb, ◌==◌, ◌≡◌, ◌≢◌, ◌⊎◌, refl,
  arith, ap, sym, subst, ◌∙◌, Bool-cases, inl, inr, if◌then◌else◌,
}
use osn_mp.Kernel.Fs.{Store, Superblock, bsize, write_block}
use osn_mp.Kernel.Fs.Bitmap.Blocks.{IsFormatted}
use osn_mp.Kernel.Fs.Inode.{Inode, Addressed}
use osn_mp.Kernel.Fs.Inode.Mapped.{maxfile, mapped, IsFile}
use osn_mp.Kernel.Fs.Content.{copied_in}
use osn_mp.Kernel.Fs.Content.Kept.{
  byte_at, Kept, Kept-refl, Kept-trans, write_block-Kept, byte_at-write_block,
}
use osn_mp.Kernel.Fs.Content.Reached.{Reached}

module _ (sb : Superblock) (memory : ℕ → ℕ) where
  -- `c` bytes from `src` on are copied to `off`, and no other byte of the content changes.
  pub record Copied (off src c : ℕ) (ip : Inode) (st : Store) (ip' : Inode) (st' : Store)
      : Type 0 where
    pub kept : Kept sb ip st ip' st'
    pub written :
        (k : ℕ)
        → k < maxfile * bsize
        → off ≤ k
        → k < off + c
        → byte_at ip' st' k ≡ memory (src + (k - off))
    pub rest :
        (k : ℕ)
        → k < maxfile * bsize
        → (k < off) ⊎ (off + c ≤ k)
        → byte_at ip' st' k ≡ byte_at ip st k
    pub present :
        (k : ℕ) → k < maxfile * bsize → off ≤ k → k < off + c → mapped ip' st' (k / bsize) ≢ 0

  pub Copied-none :
      (off src : ℕ) (ip : Inode) (st : Store)
      → IsFormatted sb st
      → IsFile sb ip st
      → Copied off src 0 ip st ip st
  Copied-none off src ip st v f = record {
    kept = Kept-refl sb ip st v f;
    written = λ k l m n. absurd (omega arith);
    rest = λ k l o. refl;
    present = λ k l m n. absurd (omega arith);
  }

  pub Copied-trans :
      (off src c d : ℕ) (ip ip' ip2 : Inode) (st st' st2 : Store)
      → Copied off src c ip st ip' st'
      → Copied (off + c) (src + c) d ip' st' ip2 st2
      → Copied off src (c + d) ip st ip2 st2
  Copied-trans off src c d ip ip' ip2 st st' st2 g h = record {
    kept = Kept-trans sb ip ip' ip2 st st' st2 g.kept h.kept;
    written = λ k l m n. elim (Bool-cases (ltb k (off + c))) [
      | inl e ↦ h.rest k l (inl (ground arith)) ∙ g.written k l m (ground arith)
      | inr e ↦
          let same : src + c + (k - (off + c)) ≡ src + (k - off) = ground arith in
          h.written k l (ground arith) (omega arith) ∙ ap memory same
    ];
    rest = λ k l o. h.rest k l (omega arith) ∙ g.rest k l (omega arith);
    present = λ k l m n. elim (Bool-cases (ltb k (off + c))) [
      | inl e ↦
          let there : mapped ip' st' (k / bsize) ≢ 0 = g.present k l m (ground arith) in
          λ z. there (sym (h.kept.stays (k / bsize) (omega arith) there) ∙ z)
      | inr e ↦ h.present k l (ground arith) (omega arith)
    ];
  }

  -- Where `bmap` reaches a block but does not map one.
  pub Reached-Copied :
      (off src : ℕ) (ip : Inode) (st : Store) (n : ℕ) (r : Addressed)
      → Reached sb ip st n r
      → Copied off src 0 ip st r.inode r.store
  Reached-Copied off src ip st n r g = record {
    kept = g.kept;
    written = λ k l m q. absurd (omega arith);
    rest = λ k l o. g.bytes k l;
    present = λ k l m q. absurd (omega arith);
  }

  -- A part of one block.
  module _ (off src c : ℕ) (ip : Inode) (st : Store) (r : Addressed) (lt : off < maxfile * bsize)
      (in_block : off % bsize + c ≤ bsize) (g : Reached sb ip st (off / bsize) r)
      (ne : r.addr ≢ 0) where
    abbrev block : ℕ → ℕ
    block = copied_in memory src (off % bsize) c (r.store.content r.addr)

    at : mapped r.inode r.store (off / bsize) ≡ r.addr
    at = g.there ne

    there : mapped r.inode r.store (off / bsize) ≢ 0
    there z = ne (sym at ∙ z)

    chunk-Kept : Kept sb r.inode r.store r.inode (write_block r.addr block r.store)
    chunk-Kept =
        subst (λ (a : ℕ). Kept sb r.inode r.store r.inode (write_block a block r.store)) at
          (write_block-Kept sb (off / bsize) (omega arith) block r.inode r.store g.kept.formatted
            g.kept.file there)

    there_still : mapped r.inode (write_block r.addr block r.store) (off / bsize) ≢ 0
    there_still z = there (sym (chunk-Kept.stays (off / bsize) (omega arith) there) ∙ z)

    old_byte :
        (k : ℕ)
        → (k / bsize == off / bsize) ≡ true
        → byte_at r.inode r.store k ≡ r.store.content r.addr (k % bsize)
    old_byte k e =
        let q : k / bsize ≡ off / bsize = ground arith in
        let z : (r.addr == 0) ≡ false = ground arith in rw (q, at, z) refl

    new_byte :
        (k : ℕ)
        → k < maxfile * bsize
        → byte_at r.inode (write_block r.addr block r.store) k
          ≡ (if k / bsize == off / bsize then block (k % bsize) else byte_at r.inode r.store k)
    new_byte k l =
        subst
          (λ (a : ℕ).
            byte_at r.inode (write_block a block r.store) k
            ≡ (if k / bsize == off / bsize then block (k % bsize) else byte_at r.inode r.store k))
          at
          (byte_at-write_block sb (off / bsize) (omega arith) block r.inode r.store g.kept.formatted
            g.kept.file there k l)

    pub Copied-chunk : Copied off src c ip st r.inode (write_block r.addr block r.store)
    Copied-chunk = record {
      kept =
          Kept-trans sb ip r.inode r.inode st r.store (write_block r.addr block r.store) g.kept
            chunk-Kept;
      written = λ k l m n.
          let e : (k / bsize == off / bsize) ≡ true = ground arith in
          let low : leb (off % bsize) (k % bsize) ≡ true = ground arith in
          let high : ltb (k % bsize) (off % bsize + c) ≡ true = ground arith in
          let same : src + (k % bsize - off % bsize) ≡ src + (k - off) = omega arith in
          new_byte k l ∙ rw (e, low, high) (ap memory same);
      rest = λ k l o. elim (Bool-cases (k / bsize == off / bsize)) [
        | inr e ↦ new_byte k l ∙ rw e (g.bytes k l)
        | inl e ↦
            let out : (leb (off % bsize) (k % bsize) && ltb (k % bsize) (off % bsize + c)) ≡ false =
              ground arith in
            new_byte k l ∙ rw (e, out) (sym (old_byte k e)) ∙ g.bytes k l
      ];
      present = λ k l m n.
          let e : off / bsize ≡ k / bsize = omega arith in
          subst (λ (i : ℕ). mapped r.inode (write_block r.addr block r.store) i ≢ 0) e there_still;
    }
