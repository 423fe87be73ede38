-- ===== src/Kernel/Fs/Table/Dropped.antt =====
-- What `iput` does to the references, and to the inode behind the last one.
use osn_mp.Common.{
  ℕ, ◌+◌, ◌-◌, ◌%◌, ◌*◌, ◌≤◌, ◌<◌, true, false, ◌&&◌, Option, some, ◌==◌, ◌≡◌, ◌≢◌, ◌⊎◌, refl,
  arith, ap, sym, subst, ◌∙◌, Bool-cases, inl, inr, if◌then◌else◌,
}
use osn_mp.Common.Arrays.{update, update_self, update_ne}
use osn_mp.Kernel.Fs.{Store, Superblock, bblock}
use osn_mp.Kernel.Fs.Bitmap.Blocks.{used, IsFormatted}
use osn_mp.Kernel.Fs.Inode.{Inode}
use osn_mp.Kernel.Fs.Inode.Mapped.{maxfile, held, IsFile}
use osn_mp.Kernel.Fs.Inode.Indirect.{write_block-used, write_block-IsFormatted}
use osn_mp.Kernel.Fs.Dinode.{ipb, iblock, ifree, set_half}
use osn_mp.Kernel.Fs.Dinode.Written.{IsFit}
use osn_mp.Kernel.Fs.Dinode.Given.{disk_inode}
use osn_mp.Kernel.Fs.Dinode.Found.{ifree-Changed}
use osn_mp.Kernel.Fs.Trunc.Truncated.{Truncated, itrunc-Truncated}
use osn_mp.Kernel.Fs.Table.{TableInode, Itable, ninode, holds_inode, is_last, iput}
use osn_mp.Kernel.Fs.Table.Counts.{share, refs, refs-update, IsUnique}

-- The table behind a reference that is dropped at `i`.
pub record Dropped (i : ℕ) (t t' : Itable) : Type 0 where
  pub others : (j : ℕ) → j ≢ i → t' j ≡ t j
  pub counts :
      (d n : ℕ) → refs t' d n + (if d == (t i).dev && n == (t i).inum then 1 else 0) ≡ refs t d n
  pub unique : IsUnique t'

module _ (i : ℕ) (t : Itable) (e : TableInode) (l : i < ninode) (u : IsUnique t)
    (some_left : 0 < (t i).ref) (dev : e.dev ≡ (t i).dev) (inum : e.inum ≡ (t i).inum)
    (ref : e.ref ≡ (t i).ref - 1) where
  share_less :
      (d n : ℕ)
      → share e d n + (if d == (t i).dev && n == (t i).inum then 1 else 0) ≡ share (t i) d n
  share_less d n = ground arith

  held_before : (d n j : ℕ) → holds_inode (update t i e j) d n ≡ true → holds_inode (t j) d n ≡ true
  held_before d n j h = elim (Bool-cases (i == j)) [
    | inl p ↦
        let mine : holds_inode e d n ≡ true = rw p at h in
        let same : i ≡ j = ground arith in
        subst (λ (k : ℕ). holds_inode (t k) d n ≡ true) same (ground arith)
    | inr p ↦ rw p at h
  ]

  update-Dropped : Dropped i t (update t i e)
  update-Dropped = record {
    others = λ j n. update_ne t i j e (λ q. n (sym q));
    counts = λ d n. omega (arith, refs-update t i e d n l, share_less d n);
    unique = λ a b d n la lb ha hb. u a b d n la lb (held_before d n a ha) (held_before d n b hb);
  }

why_not :
    (e : TableInode) → is_last e ≡ false → (e.ref ≢ 1) ⊎ ((e.valid ≡ false) ⊎ (e.inode.nlink ≢ 0))
why_not e h = elim (Bool-cases (e.ref == 1)) [
  | inr r ↦ inl (λ z. ground arith)
  | inl r ↦ elim (Bool-cases e.valid) [
    | inr v ↦ inr (inl v)
    | inl v ↦ inr (inr (λ z. ground arith))
  ]
]

module _ (sb : Superblock) where
  -- What an inode leaves that is destroyed: its dinode has no type, its blocks are free, and no other
  -- block is freed or taken.
  pub record Destroyed (e : TableInode) (st st' : Store) : Type 0 where
    pub formatted : IsFormatted sb st'
    pub no_type : (disk_inode sb st' e.inum).type ≡ 0
    pub gone :
        (k : ℕ) → k ≤ maxfile → held e.inode st k ≢ 0 → used sb st' (held e.inode st k) ≡ false
    pub rest :
        (c : ℕ)
        → c < sb.size
        → ((k : ℕ) → k ≤ maxfile → held e.inode st k ≢ c)
        → used sb st' c ≡ used sb st c

  pub data Iput (i : ℕ) (t : Itable) (st : Store) : Option (Itable × Store) → Type 0 where
    not_last :
        (t' : Itable)
        → ((t i).ref ≢ 1) ⊎ (((t i).valid ≡ false) ⊎ ((t i).inode.nlink ≢ 0))
        → (t' i).valid ≡ (t i).valid
        → Dropped i t t'
        → Iput i t st (some (t', st))
    last :
        (t' : Itable) (st' : Store)
        → (t i).ref ≡ 1
        → (t i).valid ≡ true
        → (t i).inode.nlink ≡ 0
        → (t' i).valid ≡ false
        → Dropped i t t'
        → Destroyed (t i) st st'
        → Iput i t st (some (t', st'))

  -- What the last reference needs of the inode.
  pub record IsWhole (e : TableInode) (st : Store) : Type 0 where
    pub file : IsFile sb e.inode st
    pub fit : IsFit e.inode
    pub typed : e.inode.type ≢ 0
    pub out : (c : ℕ) → c < sb.size → iblock sb e.inum ≢ bblock sb c

  ifree-Destroyed :
      (e : TableInode) (st st1 : Store) (ip : Inode) (v : IsFormatted sb st) (w : IsWhole e st)
      → 0 < sb.size
      → Truncated sb e.inode st v w.file e.inum ip st1
      → Destroyed e st (ifree sb e.inum st1)
  unfolding ifree
  ifree-Destroyed e st st1 ip v w pos g =
      let block : ℕ → ℕ = set_half (st1.content (iblock sb e.inum)) (e.inum % ipb * 32) 0 in
      let kept : (c : ℕ) → c < sb.size → used sb (ifree sb e.inum st1) c ≡ used sb st1 c =
        write_block-used sb (iblock sb e.inum) block st1 w.out in
      record {
        formatted = write_block-IsFormatted sb (iblock sb e.inum) block st1 w.out pos g.formatted;
        no_type = (ifree-Changed sb e.inum st1).this.type;
        gone = λ k l n. kept (held e.inode st k) (w.file.holds.inside k l n) ∙ g.gone k l n;
        rest = λ c l n. kept c l ∙ g.rest c l n;
      }

  -- For an entry with a reference, in a table that holds no inode twice, on a formatted map, and, if the
  -- entry has one reference, is valid and its inode has no links, for a file that holds its blocks
  -- alone: `iput` does not panic and takes one from the references to this inode and none from those to
  -- others; if the entry had one reference, was valid and its inode had no links, then its dinode is
  -- free, so are its blocks, and no other block is freed or taken; otherwise nothing on disk changes.
  pub iput-Iput :
      (i : ℕ) (t : Itable) (st : Store)
      → i < ninode
      → IsUnique t
      → 0 < (t i).ref
      → IsFormatted sb st
      → 0 < sb.size
      → ((t i).ref ≡ 1 → (t i).valid ≡ true → (t i).inode.nlink ≡ 0 → IsWhole (t i) st)
      → Iput i t st (iput sb i t st)
  unfolding iput
  iput-Iput i t st l u r v pos whole = elim (Bool-cases (is_last (t i))) [
    | inr q ↦
        let e : TableInode = record (t i) { ref = (t i).ref - 1 } in
        rw q (
          not_last (update t i e) (why_not (t i) q)
            (ap (λ (x : TableInode). x.valid) (update_self t i e))
            (update-Dropped i t e l u r refl refl refl))
    | inl q ↦
        let w = whole (ground arith) (ground arith) (ground arith) in
        let (ip, st1, p, g) =
          itrunc-Truncated sb (t i).inode st v w.file (t i).inum w.fit w.typed pos w.out in
        let e : TableInode = record (t i) { ref = (t i).ref - 1; valid = false; inode = ip } in
        rw (iput, q, p)
          (last (update t i e) (ifree sb (t i).inum st1) (ground arith) (ground arith)
            (ground arith) (ap (λ (x : TableInode). x.valid) (update_self t i e))
            (update-Dropped i t e l u r refl refl refl) (ifree-Destroyed (t i) st st1 ip v w pos g))
  ]
