-- ===== src/Kernel/Fs/Dinode/Given.antt =====
-- `iupdate`, `ifree` and `ialloc` change one dinode of the disk.
use osn_mp.Common.{
  ℕ, ◌%◌, false, some, ◌==◌, ◌≡◌, ◌≢◌, inl, inr, refl, arith, sym, subst, Bool-cases, [], ◌∷◌, ◌++◌,
}
use osn_mp.Common.Arrays.{update_self, update_ne}
use osn_mp.Kernel.Fs.{Block, Store, Superblock, write_block}
use osn_mp.Kernel.Fs.Inode.{Inode}
use osn_mp.Kernel.Fs.Dinode.{put_dinode, get_dinode, ipb, iblock, iupdate, read_inode}
use osn_mp.Kernel.Fs.Dinode.Written.{IsSame, IsFit, get-put_dinode, get-put_dinode_other}

IsSame-refl : (a : Inode) → IsSame a a
IsSame-refl a = record {
  type = refl;
  major = refl;
  minor = refl;
  nlink = refl;
  size = refl;
  addrs = λ i l. refl;
}

-- A dinode of zeros but for its type.
abbrev pub blank : ℕ → Inode
blank type = record { type = type; major = 0; minor = 0; nlink = 0; size = 0; addrs = λ i. 0 }

module _ (sb : Superblock) where
  -- The dinode with a number.
  abbrev pub disk_inode : Store → ℕ → Inode
  disk_inode st inum = get_dinode (inum % ipb) (st.content (iblock sb inum))

  -- The dinode `inum` is now `ip`; the others and the other blocks are as before, and its block has
  -- been logged.
  pub record Changed (inum : ℕ) (ip : Inode) (st st' : Store) : Type 0 where
    pub this : IsSame (disk_inode st' inum) ip
    pub others : (j : ℕ) → j ≢ inum → IsSame (disk_inode st' j) (disk_inode st j)
    pub blocks : (d : ℕ) → d ≢ iblock sb inum → st'.content d ≡ st.content d
    pub logged : st'.logged ≡ st.logged ++ iblock sb inum ∷ []

  module _ (inum : ℕ) (ip : Inode) (st : Store) (block : Block)
      (this : IsSame (get_dinode (inum % ipb) block) ip)
      (others : (j : ℕ)
        → j ≢ inum % ipb
        → IsSame (get_dinode j block) (get_dinode j (st.content (iblock sb inum)))) where
    written : (write_block (iblock sb inum) block st).content (iblock sb inum) ≡ block
    written = update_self st.content (iblock sb inum) block

    others_written :
        (j : ℕ)
        → j ≢ inum
        → IsSame (disk_inode (write_block (iblock sb inum) block st) j) (disk_inode st j)
    others_written j ne = elim (Bool-cases (iblock sb inum == iblock sb j)) [
      | inl e ↦
          let same : iblock sb inum ≡ iblock sb j = ground arith in
          let apart : j % ipb ≢ inum % ipb = λ q. ne (omega (arith, same, q)) in
          subst
            (λ (d : ℕ).
              IsSame (get_dinode (j % ipb) ((write_block (iblock sb inum) block st).content d))
                (get_dinode (j % ipb) (st.content d)))
            same
            (subst
              (λ blk.
                IsSame (get_dinode (j % ipb) blk)
                  (get_dinode (j % ipb) (st.content (iblock sb inum))))
              (sym written) (others (j % ipb) apart))
      | inr e ↦
          let ne' : iblock sb inum ≢ iblock sb j = λ q. ground arith in
          subst (λ blk. IsSame (get_dinode (j % ipb) blk) (disk_inode st j))
            (sym (update_ne st.content (iblock sb inum) (iblock sb j) block ne'))
            (IsSame-refl (disk_inode st j))
    ]

    pub write_block-Changed : Changed inum ip st (write_block (iblock sb inum) block st)
    write_block-Changed = record {
      this = subst (λ blk. IsSame (get_dinode (inum % ipb) blk) ip) (sym written) this;
      others = others_written;
      blocks = λ d ne. update_ne st.content (iblock sb inum) d block (λ q. ne (sym q));
      logged = refl;
    }

  -- `iupdate` makes the dinode that of the inode, as `ilock` reads it where it has a type, and changes no
  -- other dinode and no other block.
  pub iupdate-Changed :
      (inum : ℕ) (ip : Inode) (st : Store)
      → IsFit ip
      → ip.type ≢ 0
      → Changed inum ip st (iupdate sb inum ip st)
        × ((jp : Inode) × (read_inode sb inum (iupdate sb inum ip st) ≡ some jp) × IsSame jp ip)
  unfolding iupdate read_inode
  iupdate-Changed inum ip st fit ne =
      let block : Block = put_dinode (inum % ipb) ip (st.content (iblock sb inum)) in
      let changed =
        write_block-Changed inum ip st block
          (get-put_dinode (inum % ipb) ip fit (st.content (iblock sb inum)))
          (get-put_dinode_other (inum % ipb) ip fit (st.content (iblock sb inum))) in
      let typed : (disk_inode (iupdate sb inum ip st) inum).type ≡ ip.type = changed.this.type in
      let e : ((disk_inode (iupdate sb inum ip st) inum).type == 0) ≡ false = ground arith in
      (changed, (disk_inode (iupdate sb inum ip st) inum, rw e refl, changed.this))
