-- ===== src/Kernel/Fs/Trunc/Truncated.antt =====
-- What `itrunc` comes to.
use osn_mp.Common.{
  ℕ, ◌+◌, ◌%◌, ◌≤◌, ◌<◌, true, false, some, ltb, ◌==◌, ◌≡◌, ◌≢◌, refl, arith, sym, subst, ◌∙◌,
  Bool-cases, inl, inr,
}
use osn_mp.Common.Arrays.{update, update_ne}
use osn_mp.Kernel.Fs.{Store, Superblock, bblock}
use osn_mp.Kernel.Fs.Bitmap.{bfree}
use osn_mp.Kernel.Fs.Bitmap.Blocks.{used, IsFormatted}
use osn_mp.Kernel.Fs.Inode.{Inode, ndirect, nindirect}
use osn_mp.Kernel.Fs.Inode.Mapped.{maxfile, held, IsFile}
use osn_mp.Kernel.Fs.Inode.Indirect.{write_block-used, write_block-IsFormatted}
use osn_mp.Kernel.Fs.Dinode.{ipb, iblock, iupdate, put_dinode}
use osn_mp.Kernel.Fs.Dinode.Written.{IsSame, IsFit}
use osn_mp.Kernel.Fs.Dinode.Given.{disk_inode, iupdate-Changed}
use osn_mp.Kernel.Fs.Trunc.{free_slots, free_words, free_indirect, itrunc}
use osn_mp.Kernel.Fs.Trunc.Freeing.{Freeing-zero, Freeing-skip, Freeing-bfree}
use osn_mp.Kernel.Fs.Trunc.Emptied.{Freed, free_slots-Freed, free_words-Freed}

module _ (sb : Superblock) (ip : Inode) (st : Store) (v : IsFormatted sb st)
    (f : IsFile sb ip st) where
  -- The inode is empty and is so on disk, its blocks are free, and no other block is freed.
  pub record Truncated (inum : ℕ) (ip' : Inode) (st' : Store) : Type 0 where
    pub formatted : IsFormatted sb st'
    pub empty : (k : ℕ) → k < 13 → ip'.addrs k ≡ 0
    pub size : ip'.size ≡ 0
    pub type : ip'.type ≡ ip.type
    pub nlink : ip'.nlink ≡ ip.nlink
    pub on_disk : IsSame (disk_inode sb st' inum) ip'
    pub gone : (k : ℕ) → k ≤ maxfile → held ip st k ≢ 0 → used sb st' (held ip st k) ≡ false
    pub rest :
        (c : ℕ)
        → c < sb.size
        → ((k : ℕ) → k ≤ maxfile → held ip st k ≢ c)
        → used sb st' c ≡ used sb st c

  no_indirect : (ip.addrs ndirect == 0) ≡ true → (k : ℕ) → ndirect ≤ k → held ip st k ≡ 0
  no_indirect z k l = elim (Bool-cases (k == maxfile)) [
    | inl e ↦ rw e (ground arith)
    | inr e ↦ let d : ltb k ndirect ≡ false = ground arith in rw (e, d, z) refl
  ]

  free_indirect-Freed :
      (a : ℕ → ℕ) (st1 : Store)
      → ((k : ℕ) → ndirect ≤ k → a k ≡ ip.addrs k)
      → ((k : ℕ) → k < ndirect → a k ≡ 0)
      → Freed sb ip st v f ndirect st1
      → (a' : ℕ → ℕ) × (st2 : Store) × (free_indirect sb a st1 ≡ some (a', st2))
        × ((k : ℕ) → 13 ≤ k → a' k ≡ ip.addrs k)
        × ((k : ℕ) → k < 13 → a' k ≡ 0)
        × Freed sb ip st v f (maxfile + 1) st2
  unfolding free_indirect
  free_indirect-Freed a st1 same clear g =
      let at : a ndirect ≡ ip.addrs ndirect = same ndirect (omega arith) in
      elim (Bool-cases (a ndirect == 0)) [
        | inl z ↦
            let z' : (ip.addrs ndirect == 0) ≡ true = ground arith in
            (
              a,
              st1,
              rw z refl,
              (λ k l. same k (omega arith)),
              (λ k l. elim (Bool-cases (k == ndirect)) [
                | inl e ↦
                    let eq : ndirect ≡ k = ground arith in
                    subst (λ (n : ℕ). a n ≡ 0) eq (ground arith)
                | inr e ↦ clear k (ground arith)
              ]),
              Freeing-skip sb (held ip st) st f.holds ndirect (maxfile + 1) st1 (omega arith)
                  (λ k l m. no_indirect z' k l) g,
            )
        | inr z ↦
            let z' : (ip.addrs ndirect == 0) ≡ false = ground arith in
            let (st2, q, g2) = free_words-Freed sb ip st v f z' nindirect 0 st1 (omega arith) g in
            let (st3, p, g3) =
              Freeing-bfree sb (held ip st) st f.holds maxfile st2 (omega arith) (λ n. ground arith)
                g2 in
            let q' : free_words sb nindirect 0 (a ndirect) st1 ≡ some st2 =
              subst (λ (b : ℕ). free_words sb nindirect 0 b st1 ≡ some st2) (sym at) q in
            let p' : bfree sb (a ndirect) st2 ≡ some st3 =
              subst (λ (b : ℕ). bfree sb b st2 ≡ some st3) (sym at) p in
            (
              update a ndirect 0,
              st3,
              rw (free_indirect, z, q', p') refl,
              (λ k l. update_ne a ndirect k 0 (λ e. omega arith) ∙ same k (omega arith)),
              (λ k l. elim (Bool-cases (ndirect == k)) [
                | inl e ↦ rw e refl
                | inr e ↦ rw e (clear k (ground arith))
              ]),
              g3,
            )
      ]

  module _ (inum : ℕ) (fit : IsFit ip) (ne : ip.type ≢ 0) (pos : 0 < sb.size)
      (out : (c : ℕ) → c < sb.size → iblock sb inum ≢ bblock sb c) (a : ℕ → ℕ) (st2 : Store)
      (high : (k : ℕ) → 13 ≤ k → a k ≡ ip.addrs k) (zero_low : (k : ℕ) → k < 13 → a k ≡ 0)
      (g : Freed sb ip st v f (maxfile + 1) st2) where
    abbrev emptied : Inode
    emptied = record ip { addrs = a; size = 0 }

    emptied-IsFit : IsFit emptied
    emptied-IsFit = record {
      type = fit.type;
      major = fit.major;
      minor = fit.minor;
      nlink = fit.nlink;
      size = omega arith;
      addrs = λ i l. omega (arith, zero_low i l);
    }

    abbrev written : Store
    written = iupdate sb inum emptied st2

    written-used : (c : ℕ) → c < sb.size → used sb written c ≡ used sb st2 c
    unfolding iupdate
    written-used =
        write_block-used sb (iblock sb inum)
          (put_dinode (inum % ipb) emptied (st2.content (iblock sb inum))) st2 out

    written-IsFormatted : IsFormatted sb written
    unfolding iupdate
    written-IsFormatted =
        write_block-IsFormatted sb (iblock sb inum)
          (put_dinode (inum % ipb) emptied (st2.content (iblock sb inum))) st2 out pos g.formatted

    written-Truncated : Truncated inum emptied written
    written-Truncated = record {
      formatted = written-IsFormatted;
      empty = zero_low;
      size = refl;
      type = refl;
      nlink = refl;
      on_disk = (iupdate-Changed sb inum emptied st2 emptied-IsFit ne).0.this;
      gone =
          λ k l n. written-used (held ip st k) (f.holds.inside k l n) ∙ g.gone k (omega arith) l n;
      rest = λ c l n. written-used c l ∙ g.rest c l n;
    }

    itrunc_run :
        (a1 : ℕ → ℕ) (st1 : Store)
        → free_slots sb ndirect 0 ip.addrs st ≡ some (a1, st1)
        → free_indirect sb a1 st1 ≡ some (a, st2)
        → (ip' : Inode) × (st' : Store) × (itrunc sb inum ip st ≡ some (ip', st'))
          × Truncated inum ip' st'
    unfolding itrunc
    itrunc_run a1 st1 q1 q2 = (emptied, written, rw (itrunc, q1, q2) refl, written-Truncated)

  -- On a formatted map and for a file that holds its blocks alone, whose dinode is outside the map,
  -- `itrunc` does not panic: it leaves the inode empty with the type and the links that it has, writes it
  -- to the disk, frees all the blocks that it held, the indirect one included, and frees and takes no
  -- other block.
  pub itrunc-Truncated :
      (inum : ℕ)
      → IsFit ip
      → ip.type ≢ 0
      → 0 < sb.size
      → ((c : ℕ) → c < sb.size → iblock sb inum ≢ bblock sb c)
      → (ip' : Inode) × (st' : Store) × (itrunc sb inum ip st ≡ some (ip', st'))
        × Truncated inum ip' st'
  itrunc-Truncated inum fit ne pos out =
      let (a, st1, q1, same, clear, g1) =
        free_slots-Freed sb ip st v f ndirect 0 ip.addrs st (omega arith) (λ k l. refl)
          (λ k l. absurd (omega arith)) (Freeing-zero sb (held ip st) st f.holds v) in
      let (a', st2, q2, high, low, g2) = free_indirect-Freed a st1 same clear g1 in
      itrunc_run inum fit ne pos out a' st2 high low g2 a st1 q1 q2
