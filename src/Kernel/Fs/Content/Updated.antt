-- ===== src/Kernel/Fs/Content/Updated.antt =====
-- What `writei` does, the inode on disk included.
use osn_mp.Common.{
  ℕ, ◌+◌, ◌-◌, ◌*◌, ◌/◌, ◌%◌, ◌≤◌, ◌<◌, ◌^◌, Bool, true, false, ◌||◌, Option, some, ltb, ◌==◌, ◌≡◌,
  ◌≢◌, ◌⊎◌, refl, arith, sym, subst, ◌∙◌, Bool-cases, inl, inr, if◌then◌else◌,
}
use osn_mp.Common.Arrays.{update_ne}
use osn_mp.Common.Int.{ℤ, pos, minus_one}
use osn_mp.Kernel.Fs.{Store, Superblock, bsize}
use osn_mp.Kernel.Fs.Bitmap.Blocks.{IsFormatted}
use osn_mp.Kernel.Fs.Inode.{Inode, ndirect}
use osn_mp.Kernel.Fs.Inode.Mapped.{maxfile, mapped, held, IsFile, Foreign}
use osn_mp.Kernel.Fs.Inode.Indirect.{write_block-used}
use osn_mp.Kernel.Fs.Dinode.{ipb, iblock, iupdate, put_dinode}
use osn_mp.Kernel.Fs.Dinode.Written.{IsSame, IsFit}
use osn_mp.Kernel.Fs.Dinode.Given.{disk_inode, iupdate-Changed}
use osn_mp.Kernel.Fs.Content.{Transfer, writei}
use osn_mp.Kernel.Fs.Content.Kept.{
  byte_at, mapped_kept, behind-IsFormatted, behind-IsFile, Foreign-byte_at,
}
use osn_mp.Kernel.Fs.Content.Copied.{Copied}
use osn_mp.Kernel.Fs.Content.Written.{
  Stop, all_written, no_blocks, bad_address, Wrote, Written, write_rounds-Wrote,
}

module _ (sb : Superblock) (ready : ℕ → ℕ → ℕ) (memory : ℕ → ℕ) where
  -- From `ip` and `st`, `c` bytes are copied to `off`, and the size and the dinode follow.
  pub record Updated (inum off src c : ℕ) (ip : Inode) (st : Store) (size : ℕ) (ip' : Inode)
      (st' : Store) : Type 0 where
    pub formatted : IsFormatted sb st'
    pub file : IsFile sb ip' st'
    pub written :
        (k : ℕ)
        → k < maxfile * bsize
        → off ≤ k
        → k < off + c
        → byte_at ip' st' k ≡ memory (src + (k - off))
    pub rest :
        (k : ℕ)
        → k < maxfile * bsize
        → (k < off) ⊎ (off + c ≤ k)
        → byte_at ip' st' k ≡ byte_at ip st k
    pub present :
        (k : ℕ) → k < maxfile * bsize → off ≤ k → k < off + c → mapped ip' st' (k / bsize) ≢ 0
    pub new_size : ip'.size ≡ size
    pub type : ip'.type ≡ ip.type
    pub nlink : ip'.nlink ≡ ip.nlink
    pub on_disk : IsSame (disk_inode sb st' inum) ip'
    pub others : (d : ℕ) → Foreign sb ip st d → d ≢ iblock sb inum → st'.content d ≡ st.content d

  -- The larger of the size and the end of the write.
  abbrev pub grown : ℕ → ℕ → ℕ
  grown size off = if ltb size off then off else size

  module _ (inum off src c size : ℕ) (ip : Inode) (st : Store) (jp : Inode) (st1 : Store)
      (fit : IsFit ip) (ne : ip.type ≢ 0) (fits : sb.size ≤ 2 ^ 32) (small : size < 2 ^ 32)
      (own : Foreign sb ip st (iblock sb inum)) (g : Copied sb memory off src c ip st jp st1) where
    abbrev resized : Inode
    resized = record jp { size = size }

    abbrev behind : Store
    behind = iupdate sb inum resized st1

    own_later : Foreign sb jp st1 (iblock sb inum)
    own_later = (g.kept.foreign (iblock sb inum) own).0

    held_fits : (k : ℕ) → k ≤ maxfile → held jp st1 k < 2 ^ 32
    held_fits k l = elim (Bool-cases (held jp st1 k == 0)) [
      | inl e ↦ ground arith
      | inr e ↦ omega (arith, g.kept.file.holds.inside k l (λ z. ground arith))
    ]

    addr_fits : (i : ℕ) → i < 13 → jp.addrs i < 2 ^ 32
    addr_fits i l = elim (Bool-cases (ltb i ndirect)) [
      | inl e ↦
          let low : (i == maxfile) ≡ false = ground arith in
          let same : held jp st1 i ≡ jp.addrs i = rw (low, e) refl in
          omega (arith, held_fits i (ground arith))
      | inr e ↦
          let same : ndirect ≡ i = ground arith in
          subst (λ (k : ℕ). jp.addrs k < 2 ^ 32) same (held_fits maxfile (omega arith))
    ]

    resized-IsFit : IsFit resized
    resized-IsFit = record {
      type = omega (arith, g.kept.like.type, fit.type);
      major = omega (arith, g.kept.like.major, fit.major);
      minor = omega (arith, g.kept.like.minor, fit.minor);
      nlink = omega (arith, g.kept.like.nlink, fit.nlink);
      size = small;
      addrs = addr_fits;
    }

    not_indirect : iblock sb inum ≢ jp.addrs ndirect
    not_indirect e = own_later.not_held maxfile (omega arith) (sym e)

    byte_kept : (k : ℕ) → k < maxfile * bsize → byte_at resized behind k ≡ byte_at jp st1 k
    unfolding iupdate
    byte_kept =
        Foreign-byte_at sb (iblock sb inum)
          (put_dinode (inum % ipb) resized (st1.content (iblock sb inum))) jp st1 own_later

    behind_formatted : IsFormatted sb behind
    unfolding iupdate
    behind_formatted =
        behind-IsFormatted sb (iblock sb inum)
          (put_dinode (inum % ipb) resized (st1.content (iblock sb inum))) jp st1 g.kept.formatted
          g.kept.file own.inside own.not_map not_indirect

    behind_file : IsFile sb resized behind
    unfolding iupdate
    behind_file =
        let h =
          behind-IsFile sb (iblock sb inum)
            (put_dinode (inum % ipb) resized (st1.content (iblock sb inum))) jp st1 g.kept.formatted
            g.kept.file own.inside own.not_map not_indirect in
        record { holds = h.holds; bytes = h.bytes }

    mapped_behind : (m : ℕ) → mapped resized behind m ≡ mapped jp st1 m
    unfolding iupdate
    mapped_behind =
        mapped_kept sb (iblock sb inum)
          (put_dinode (inum % ipb) resized (st1.content (iblock sb inum))) jp st1 g.kept.formatted
          g.kept.file own.inside own.not_map not_indirect

    others_kept :
        (d : ℕ) → Foreign sb ip st d → d ≢ iblock sb inum → behind.content d ≡ st.content d
    unfolding iupdate
    others_kept d o n =
        update_ne st1.content (iblock sb inum) d
          (put_dinode (inum % ipb) resized (st1.content (iblock sb inum))) (λ e. n (sym e))
        ∙ (g.kept.foreign d o).1

    pub Stop-behind :
        (n d extra : ℕ)
        → Stop sb ready memory src n st1 d extra
        → Stop sb ready memory src n behind d extra
    unfolding iupdate
    Stop-behind n _ _ all_written = all_written
    Stop-behind n _ _ (no_blocks d l h) = no_blocks d l (λ c m.
        write_block-used sb (iblock sb inum)
          (put_dinode (inum % ipb) resized (st1.content (iblock sb inum))) st1 own.not_map c m
        ∙ h c m)
    Stop-behind n _ _ (bad_address d m l h) = bad_address d m l h

    pub resized-Updated : Updated inum off src c ip st size resized behind
    resized-Updated = record {
      formatted = behind_formatted;
      file = behind_file;
      written = λ k l m n. byte_kept k l ∙ g.written k l m n;
      rest = λ k l o. byte_kept k l ∙ g.rest k l o;
      present = λ k l m n z. g.present k l m n (sym (mapped_behind (k / bsize)) ∙ z);
      new_size = refl;
      type = g.kept.like.type;
      nlink = g.kept.like.nlink;
      on_disk =
          (iupdate-Changed sb inum resized st1 resized-IsFit
            (λ e. ne (sym g.kept.like.type ∙ e))).0.this;
      others = others_kept;
    }

  pub data Writei (inum src off n : ℕ) (ip : Inode) (st : Store)
      : Option (ℤ × Inode × Store) → Type 0 where
    refused :
        (ip.size < off) ⊎ (maxfile * bsize < off + n)
        → Writei inum src off n ip st (some (minus_one, ip, st))
    wrote :
        (d extra : ℕ) (ip' : Inode) (st' : Store)
        → off ≤ ip.size
        → off + n ≤ maxfile * bsize
        → d ≤ n
        → Stop sb ready memory src n st' d extra
        → Updated inum off src (d + extra) ip st (grown ip.size (off + d)) ip' st'
        → Writei inum src off n ip st (some (pos d, ip', st'))

  module _ (inum : ℕ) (ip : Inode) (st : Store) (v : IsFormatted sb st) (f : IsFile sb ip st)
      (fits : sb.size ≤ 2 ^ 32) (fit : IsFit ip) (ne : ip.type ≢ 0)
      (own : Foreign sb ip st (iblock sb inum)) (src off n : ℕ) (off_fits : off < 2 ^ 32)
      (n_fits : n < 2 ^ 32) where
    Writei-Wrote :
        (t : Transfer)
        → off ≤ ip.size
        → off + n ≤ maxfile * bsize
        → Wrote sb ready memory 0 off src n ip st t
        → Writei inum src off n ip st (
            some (
              pos t.total,
              record t.inode { size = grown t.inode.size t.off },
              iupdate sb inum (record t.inode { size = grown t.inode.size t.off }) t.store,
            ))
    Writei-Wrote t le in_file w =
        let count : t.total ≡ w.d = omega (arith, w.total) in
        let size : grown t.inode.size t.off ≡ grown ip.size (off + w.d) =
          rw (w.copied.kept.like.size, w.off_behind) refl in
        let small : grown ip.size (off + w.d) < 2 ^ 32 = ground (arith, w.at_most, fit.size) in
        rw (count, size)
          (wrote w.d w.extra _ _ le in_file w.at_most
            (Stop-behind inum off src (w.d + w.extra) (grown ip.size (off + w.d)) ip st t.inode
              t.store fit ne fits small own w.copied n w.d w.extra w.stop)
            (resized-Updated inum off src (w.d + w.extra) (grown ip.size (off + w.d)) ip st t.inode
              t.store fit ne fits small own w.copied))

    resize_same :
        (b : Bool) (jp : Inode) (end : ℕ)
        → (if b then record jp { size = end } else jp)
          ≡ record jp { size = if b then end else jp.size }
    resize_same true jp end = refl
    resize_same false jp end = refl

    writei_run :
        (ltb ip.size off || ltb ((off + n) % 2 ^ 32) off) ≡ false
        → ltb (maxfile * bsize) ((off + n) % 2 ^ 32) ≡ false
        → Written sb ready memory (n / bsize + 2) 0 off src n ip st
        → Writei inum src off n ip st (writei sb ready memory inum src off n ip st)
    unfolding writei
    writei_run e l (t, q, w) =
        let same : n - 0 ≡ n = omega arith in
        rw (writei, e, l, q, resize_same (ltb t.inode.size t.off) t.inode t.off)
          (Writei-Wrote t (ground arith) (ground arith)
            (subst (λ (k : ℕ). Wrote sb ready memory 0 off src k ip st t) same w))

    pub writei-Writei : Writei inum src off n ip st (writei sb ready memory inum src off n ip st)
    unfolding writei
    writei-Writei = elim (Bool-cases (ltb ip.size off || ltb ((off + n) % 2 ^ 32) off)) [
      | inl e ↦ rw e (refused (ground arith))
      | inr e ↦ elim (Bool-cases (ltb (maxfile * bsize) ((off + n) % 2 ^ 32))) [
        | inl l ↦ rw (e, l) (refused (inr (ground arith)))
        | inr l ↦ writei_run e l (
            write_rounds-Wrote sb ready memory (n / bsize + 2) 0 off src n ip st v f fits
              (omega arith) (ground arith) (λ z. omega arith))
      ]
    ]
