-- ===== src/Kernel/Fs/Table/Counts.antt =====
-- How many references the table holds_inode to each inode.
use osn_mp.Common.{
  ℕ, zero, suc, ◌+◌, ◌<◌, true, false, ltb, ◌==◌, ◌≡◌, refl, arith, ap, Bool-cases, inl, inr,
  if◌then◌else◌,
}
use osn_mp.Common.Arrays.{update}
use osn_mp.Kernel.Fs.Table.{TableInode, Itable, ninode, holds_inode}

-- What an entry counts for an inode.
abbrev pub share : TableInode → ℕ → ℕ → ℕ
share e dev inum = if holds_inode e dev inum then e.ref else 0

unfoldable pub refs_below : ℕ → Itable → ℕ → ℕ → ℕ
refs_below zero t dev inum = 0
refs_below (suc m) t dev inum = refs_below m t dev inum + share (t m) dev inum

abbrev pub refs : Itable → ℕ → ℕ → ℕ
refs t dev inum = refs_below ninode t dev inum

pub refs_below-update :
    (m : ℕ) (t : Itable) (i : ℕ) (e : TableInode) (dev inum : ℕ)
    → refs_below m (update t i e) dev inum + (if ltb i m then share (t i) dev inum else 0)
      ≡ refs_below m t dev inum + (if ltb i m then share e dev inum else 0)
unfolding refs_below
refs_below-update zero t i e dev inum = ground arith
refs_below-update (suc m) t i e dev inum =
    let ih = refs_below-update m t i e dev inum in
    elim (Bool-cases (i == m)) [
      | inl q ↦
          let same : i ≡ m = ground arith in
          let old : share (t i) dev inum ≡ share (t m) dev inum =
            ap (λ (k : ℕ). share (t k) dev inum) same in
          let new : share (update t i e m) dev inum ≡ share e dev inum = rw q refl in
          let out : ltb i m ≡ false = ground arith in
          let all : ltb i (suc m) ≡ true = ground arith in
          let ih' : refs_below m (update t i e) dev inum + 0 ≡ refs_below m t dev inum + 0 =
            rw out at ih in
          rw (all, new, old) (omega (arith, ih'))
      | inr q ↦
          let new : share (update t i e m) dev inum ≡ share (t m) dev inum = rw q refl in
          let all : ltb i (suc m) ≡ ltb i m = ground arith in rw (all, new) (omega (arith, ih))
    ]

pub refs-update :
    (t : Itable) (i : ℕ) (e : TableInode) (dev inum : ℕ)
    → i < ninode
    → refs (update t i e) dev inum + share (t i) dev inum ≡ refs t dev inum + share e dev inum
refs-update t i e dev inum l =
    let all : ltb i ninode ≡ true = ground arith in
    let h = refs_below-update ninode t i e dev inum in rw all at h

-- No inode is in the table twice.
abbrev pub IsUnique : Itable → Type 0
IsUnique t =
    (i j dev inum : ℕ)
    → i < ninode
    → j < ninode
    → holds_inode (t i) dev inum ≡ true
    → holds_inode (t j) dev inum ≡ true
    → i ≡ j

pub refs_below-none :
    (m : ℕ) (t : Itable) (dev inum : ℕ)
    → ((k : ℕ) → k < m → holds_inode (t k) dev inum ≡ false)
    → refs_below m t dev inum ≡ 0
unfolding refs_below
refs_below-none zero t dev inum h = refl
refs_below-none (suc m) t dev inum h =
    let none_here : holds_inode (t m) dev inum ≡ false = h m (omega arith) in
    rw none_here (omega (arith, refs_below-none m t dev inum (λ k l. h k (omega arith))))
