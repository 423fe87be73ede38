-- ===== src/Kernel/Fs/Dinode/Found.antt =====
-- `ialloc` finds the first free dinode, and `ifree` frees one.
use osn_mp.Common.{
  ℕ, zero, suc, ◌+◌, ◌*◌, ◌/◌, ◌%◌, ◌^◌, ◌≤◌, ◌<◌, ltb, ◌==◌, ◌≡◌, ◌≢◌, inl, inr, arith, subst, ap,
  ◌∙◌, if◌then◌else◌, Bool-cases,
}
use osn_mp.Kernel.Fs.{Block, Store, Superblock}
use osn_mp.Kernel.Fs.Words.{word}
use osn_mp.Kernel.Fs.Dinode.{
  half, set_half, get_dinode, zero_dinode, ipb, iblock, ifree, ialloc, ialloc_from, disk_type,
}
use osn_mp.Kernel.Fs.Dinode.Fields.{
  half-set_half, word-set_half, half-zero_dinode, word-zero_dinode,
}
use osn_mp.Kernel.Fs.Dinode.Written.{IsSame}
use osn_mp.Kernel.Fs.Dinode.Given.{blank, disk_inode, Changed, write_block-Changed}

module _ (k type : ℕ) (fits : type < 2 ^ 16) (block : Block) where
  abbrev typed : Block
  typed = set_half (zero_dinode k block) (k * 32) type

  half-typed :
      (g : ℕ)
      → half typed g ≡ (if k * 32 == g then type else if g / 32 == k then 0 else half block g)
  half-typed g =
      half-set_half (zero_dinode k block) (k * 32) type g fits
      ∙ ap (λ x. if k * 32 == g then type else x) (half-zero_dinode k block g)

  word-typed : (i : ℕ) → i ≢ k * 16 → word typed i ≡ (if i / 16 == k then 0 else word block i)
  word-typed i ne =
      word-set_half (zero_dinode k block) (k * 32) type i (omega arith) ∙ word-zero_dinode k block i

  get-typed : IsSame (get_dinode k typed) (blank type)
  unfolding get_dinode
  get-typed = record {
    type = ground (arith, half-typed (k * 32));
    major = ground (arith, half-typed (k * 32 + 1));
    minor = ground (arith, half-typed (k * 32 + 2));
    nlink = ground (arith, half-typed (k * 32 + 3));
    size = ground (arith, word-typed (k * 16 + 2));
    addrs = λ i l. ground (arith, word-typed (k * 16 + 3 + i));
  }

  get-typed_other : (j : ℕ) → j ≢ k → IsSame (get_dinode j typed) (get_dinode j block)
  unfolding get_dinode
  get-typed_other j ne = record {
    type = ground (arith, half-typed (j * 32));
    major = ground (arith, half-typed (j * 32 + 1));
    minor = ground (arith, half-typed (j * 32 + 2));
    nlink = ground (arith, half-typed (j * 32 + 3));
    size = ground (arith, word-typed (j * 16 + 2));
    addrs = λ i l. ground (arith, word-typed (j * 16 + 3 + i));
  }

module _ (k : ℕ) (block : Block) where
  abbrev freed : Block
  freed = set_half block (k * 32) 0

  get-freed : IsSame (get_dinode k freed) (record (get_dinode k block) { type = 0 })
  unfolding get_dinode
  get-freed = record {
    type = ground (arith, half-set_half block (k * 32) 0 (k * 32));
    major = ground (arith, half-set_half block (k * 32) 0 (k * 32 + 1));
    minor = ground (arith, half-set_half block (k * 32) 0 (k * 32 + 2));
    nlink = ground (arith, half-set_half block (k * 32) 0 (k * 32 + 3));
    size = word-set_half block (k * 32) 0 (k * 16 + 2) (omega arith);
    addrs = λ i l. word-set_half block (k * 32) 0 (k * 16 + 3 + i) (omega arith);
  }

  get-freed_other : (j : ℕ) → j ≢ k → IsSame (get_dinode j freed) (get_dinode j block)
  unfolding get_dinode
  get-freed_other j ne = record {
    type = ground (arith, half-set_half block (k * 32) 0 (j * 32));
    major = ground (arith, half-set_half block (k * 32) 0 (j * 32 + 1));
    minor = ground (arith, half-set_half block (k * 32) 0 (j * 32 + 2));
    nlink = ground (arith, half-set_half block (k * 32) 0 (j * 32 + 3));
    size = word-set_half block (k * 32) 0 (j * 16 + 2) (omega arith);
    addrs = λ i l. word-set_half block (k * 32) 0 (j * 16 + 3 + i) (omega arith);
  }

module _ (sb : Superblock) where
  -- `ifree` clears the type of the dinode, leaves its other fields, and changes no other dinode and no
  -- other block.
  pub ifree-Changed :
      (inum : ℕ) (st : Store)
      → Changed sb inum (record (disk_inode sb st inum) { type = 0 }) st (ifree sb inum st)
  unfolding ifree
  ifree-Changed inum st =
      write_block-Changed sb inum (record (disk_inode sb st inum) { type = 0 }) st
        (freed (inum % ipb) (st.content (iblock sb inum)))
        (get-freed (inum % ipb) (st.content (iblock sb inum)))
        (get-freed_other (inum % ipb) (st.content (iblock sb inum)))

  pub data Ialloc (type : ℕ) (st : Store) : ℕ × Store → Type 0 where
    none_free : ((j : ℕ) → 1 ≤ j → j < sb.ninodes → disk_type sb st j ≢ 0) → Ialloc type st (0, st)
    first_free :
        (inum : ℕ) (st' : Store)
        → 1 ≤ inum
        → inum < sb.ninodes
        → disk_type sb st inum ≡ 0
        → ((j : ℕ) → 1 ≤ j → j < inum → disk_type sb st j ≢ 0)
        → Changed sb inum (blank type) st st'
        → Ialloc type st (inum, st')

  module _ (type : ℕ) (fits : type < 2 ^ 16) (st : Store) where
    ialloc_from-Ialloc :
        (fuel inum : ℕ)
        → 1 ≤ inum
        → sb.ninodes ≤ fuel + inum
        → ((j : ℕ) → 1 ≤ j → j < inum → disk_type sb st j ≢ 0)
        → Ialloc type st (ialloc_from sb fuel inum type st)
    unfolding ialloc_from
    ialloc_from-Ialloc zero inum p enough h = none_free (λ j l m. h j l (omega arith))
    ialloc_from-Ialloc (suc fuel) inum p enough h = elim (Bool-cases (ltb inum sb.ninodes)) [
      | inr e ↦ rw e (none_free (λ j l m. h j l (ground arith)))
      | inl e ↦ elim (Bool-cases (disk_type sb st inum == 0)) [
        | inl z ↦
            rw (e, z)
              (first_free inum _ p (ground arith) (ground arith) h (
                write_block-Changed sb inum (blank type) st _
                  (get-typed (inum % ipb) type fits (st.content (iblock sb inum)))
                  (get-typed_other (inum % ipb) type fits (st.content (iblock sb inum)))))
        | inr z ↦
            rw (e, z)
              (ialloc_from-Ialloc fuel (inum + 1) (omega arith) (omega arith) (λ j l m.
                elim (Bool-cases (ltb j inum)) [
                  | inl s ↦ h j l (ground arith)
                  | inr s ↦
                      let same : inum ≡ j = ground arith in
                      subst (λ (i : ℕ). disk_type sb st i ≢ 0) same (λ q. ground arith)
                ]))
      ]
    ]

    -- For a type of 16 bits, `ialloc` gives out the first dinode from 1 on whose type is 0: it gets the
    -- type and is zero otherwise, and no other dinode and no other block is changed; or there is none
    -- below `ninodes`, and it returns 0 and changes nothing.
    pub ialloc-Ialloc : Ialloc type st (ialloc sb type st)
    unfolding ialloc
    ialloc-Ialloc =
        ialloc_from-Ialloc sb.ninodes 1 (omega arith) (omega arith) (λ j l m. absurd (omega arith))
