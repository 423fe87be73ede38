-- ===== src/Kernel/Fs/Table/Given.antt =====
-- What `iget` and `idup` do to the references.
use osn_mp.Common.{
  ℕ, zero, suc, ◌+◌, ◌<◌, true, false, ◌&&◌, Option, none, some, ◌==◌, ◌≡◌, ◌≢◌, ◌⊎◌, refl, arith,
  ap, sym, subst, Bool-cases, inl, inr, if◌then◌else◌,
}
use osn_mp.Common.Arrays.{update, update_self, update_ne}
use osn_mp.Kernel.Fs.Table.{
  TableInode, Itable, ninode, holds_inode, Search, found, ended, scan_inodes, iget, idup,
}
use osn_mp.Kernel.Fs.Table.Counts.{share, refs, refs-update, refs_below-none, IsUnique}

module _ (t : Itable) where
  -- The first free entry below `n`.
  data Empty (n : ℕ) : Option ℕ → Type 0 where
    all_used : ((k : ℕ) → k < n → (t k).ref ≢ 0) → Empty n none
    unused : (i : ℕ) → i < n → (t i).ref ≡ 0 → Empty n (some i)

  Empty-later :
      (i : ℕ) (o : Option ℕ)
      → Empty i o
      → Empty
          (i + 1)
          (elim o [ none ↦ (if (t i).ref == 0 then some i else none) | some k ↦ some k ])
  Empty-later i _ (all_used h) = elim (Bool-cases ((t i).ref == 0)) [
    | inl e ↦ rw e (unused i (omega arith) (ground arith))
    | inr e ↦ rw e (
        all_used (λ k l. elim (Bool-cases (k == i)) [
          | inl q ↦
              let same : i ≡ k = ground arith in
              subst (λ (j : ℕ). (t j).ref ≢ 0) same (λ z. ground arith)
          | inr q ↦ h k (ground arith)
        ]))
  ]
  Empty-later i _ (unused k l z) = unused k (omega arith) z

  data Scanned (dev inum : ℕ) : Search → Type 0 where
    there : (i : ℕ) → i < ninode → holds_inode (t i) dev inum ≡ true → Scanned dev inum (found i)
    nowhere :
        (o : Option ℕ)
        → ((k : ℕ) → k < ninode → holds_inode (t k) dev inum ≡ false)
        → Empty ninode o
        → Scanned dev inum (ended o)

  scan_inodes-Scanned :
      (m i dev inum : ℕ) (empty : Option ℕ)
      → i + m ≡ ninode
      → ((k : ℕ) → k < i → holds_inode (t k) dev inum ≡ false)
      → Empty i empty
      → Scanned dev inum (scan_inodes m i dev inum empty t)
  unfolding scan_inodes
  scan_inodes-Scanned zero i dev inum empty e h u =
      let at : i ≡ ninode = omega arith in
      nowhere empty (λ k l. h k (omega arith)) (subst (λ (n : ℕ). Empty n empty) at u)
  scan_inodes-Scanned (suc m) i dev inum empty e h u =
      elim (Bool-cases (holds_inode (t i) dev inum)) [
        | inl q ↦ rw q (there i (omega arith) q)
        | inr q ↦ rw q (
            scan_inodes-Scanned m (i + 1) dev inum _ (omega arith)
              (λ k l. elim (Bool-cases (k == i)) [
                | inl s ↦
                    let same : i ≡ k = ground arith in
                    subst (λ (j : ℕ). holds_inode (t j) dev inum ≡ false) same q
                | inr s ↦ h k (ground arith)
              ])
              (Empty-later i empty u))
      ]

-- The table behind a reference that is added at `i`.
pub record Added (dev inum i : ℕ) (t t' : Itable) : Type 0 where
  pub inside : i < ninode
  pub held : holds_inode (t' i) dev inum ≡ true
  pub others : (j : ℕ) → j ≢ i → t' j ≡ t j
  pub counts : (d n : ℕ) → refs t' d n ≡ refs t d n + (if d == dev && n == inum then 1 else 0)
  pub unique : IsUnique t'

pub data Iget (dev inum : ℕ) (t : Itable) : Option (ℕ × Itable) → Type 0 where
  no_inodes :
      ((k : ℕ) → k < ninode → (t k).ref ≢ 0)
      → ((k : ℕ) → k < ninode → holds_inode (t k) dev inum ≡ false)
      → Iget dev inum t none
  shared :
      (i : ℕ) (t' : Itable)
      → holds_inode (t i) dev inum ≡ true
      → (t' i).valid ≡ (t i).valid
      → (t' i).inode ≡ (t i).inode
      → Added dev inum i t t'
      → Iget dev inum t (some (i, t'))
  recycled :
      (i : ℕ) (t' : Itable)
      → refs t dev inum ≡ 0
      → (t i).ref ≡ 0
      → (t' i).valid ≡ false
      → Added dev inum i t t'
      → Iget dev inum t (some (i, t'))

-- An entry with one more reference to its inode.
module _ (dev inum i : ℕ) (t : Itable) (e : TableInode) (l : i < ninode) (u : IsUnique t) where
  share_more :
      (d n : ℕ)
      → holds_inode e dev inum ≡ true
      → ((t i).ref ≡ 0) ⊎ ((t i).dev ≡ dev × (t i).inum ≡ inum)
      → e.ref ≡ (t i).ref + 1
      → share e d n ≡ share (t i) d n + (if d == dev && n == inum then 1 else 0)
  share_more d n h o r = ground arith

  IsUnique-behind :
      ((j : ℕ) → j < ninode → j ≢ i → holds_inode (t j) dev inum ≡ false)
      → holds_inode e dev inum ≡ true
      → IsUnique (update t i e)
  IsUnique-behind alone h a b d n la lb ha hb = elim (Bool-cases (i == a)) [
    | inl p ↦ elim (Bool-cases (i == b)) [
      | inl q ↦ ground arith
      | inr q ↦
          let mine : holds_inode e d n ≡ true = rw p at ha in
          let other : holds_inode (t b) d n ≡ true = rw q at hb in
          let none_there : holds_inode (t b) dev inum ≡ false = alone b lb (λ z. ground arith) in
          absurd (ground arith)
    ]
    | inr p ↦ elim (Bool-cases (i == b)) [
      | inl q ↦
          let mine : holds_inode e d n ≡ true = rw q at hb in
          let other : holds_inode (t a) d n ≡ true = rw p at ha in
          let none_there : holds_inode (t a) dev inum ≡ false = alone a la (λ z. ground arith) in
          absurd (ground arith)
      | inr q ↦
          let one : holds_inode (t a) d n ≡ true = rw p at ha in
          let other : holds_inode (t b) d n ≡ true = rw q at hb in u a b d n la lb one other
    ]
  ]

  update-Added :
      holds_inode e dev inum ≡ true
      → ((t i).ref ≡ 0) ⊎ ((t i).dev ≡ dev × (t i).inum ≡ inum)
      → e.ref ≡ (t i).ref + 1
      → ((j : ℕ) → j < ninode → j ≢ i → holds_inode (t j) dev inum ≡ false)
      → Added dev inum i t (update t i e)
  update-Added h o r alone = record {
    inside = l;
    held = subst (λ (x : TableInode). holds_inode x dev inum ≡ true) (sym (update_self t i e)) h;
    others = λ j n. update_ne t i j e (λ q. n (sym q));
    counts = λ d n. omega (arith, refs-update t i e d n l, share_more d n h o r);
    unique = IsUnique-behind alone h;
  }

alone :
    (dev inum : ℕ) (t : Itable)
    → IsUnique t
    → (i : ℕ) → i < ninode
    → holds_inode (t i) dev inum ≡ true
    → (j : ℕ) → j < ninode
    → j ≢ i
    → holds_inode (t j) dev inum ≡ false
alone dev inum t u i l h j m n = elim (Bool-cases (holds_inode (t j) dev inum)) [
  | inl e ↦ absurd (n (u j i dev inum m l e h))
  | inr e ↦ e
]

-- `idup` of an entry with a reference counts one more to its inode.
idup-Added :
    (i : ℕ) (t : Itable)
    → i < ninode
    → IsUnique t
    → 0 < (t i).ref
    → Added (t i).dev (t i).inum i t (idup i t)
unfolding idup
idup-Added i t l u r =
    let here : holds_inode (t i) (t i).dev (t i).inum ≡ true = ground arith in
    update-Added (t i).dev (t i).inum i t (record (t i) { ref = (t i).ref + 1 }) l u (ground arith)
      (inr (refl, refl)) refl (alone (t i).dev (t i).inum t u i l here)

-- On a table that holds no inode twice, `iget` counts one more reference to the inode, and none more to
-- any other, in the entry that it returns, and changes no other entry: that of the inode, which keeps
-- what was read, or, where the table has none, an entry without references, which is not valid; or all entries have
-- references, none to the inode, and it panics.
pub iget-Iget : (dev inum : ℕ) (t : Itable) → IsUnique t → Iget dev inum t (iget dev inum t)
unfolding iget
iget-Iget dev inum t u = go (scan_inodes ninode 0 dev inum none t) refl (
    scan_inodes-Scanned t ninode 0 dev inum none (omega arith) (λ k l. absurd (omega arith))
      (all_used (λ k l. absurd (omega arith))))
  where
    go :
        (s : Search)
        → scan_inodes ninode 0 dev inum none t ≡ s
        → Scanned t dev inum s
        → Iget dev inum t (iget dev inum t)
    go _ q (there i l h) =
        let e : TableInode = record (t i) { ref = (t i).ref + 1 } in
        rw (iget, q)
          (shared i (update t i e) h (ap (λ (x : TableInode). x.valid) (update_self t i e))
            (ap (λ (x : TableInode). x.inode) (update_self t i e))
            (update-Added dev inum i t e l u (ground arith) (inr (ground arith)) refl
              (alone dev inum t u i l h)))
    go _ q (nowhere _ h (all_used w)) = rw (iget, q) (no_inodes w h)
    go _ q (nowhere _ h (unused i l z)) =
        let e : TableInode = record (t i) { dev = dev; inum = inum; ref = 1; valid = false } in
        rw (iget, q)
          (recycled i (update t i e) (refs_below-none ninode t dev inum h) z
            (ap (λ (x : TableInode). x.valid) (update_self t i e))
            (update-Added dev inum i t e l u (ground arith) (inl z) (omega (arith, z))
              (λ j m n. h j m)))
