-- ===== src/Kernel/Fs/Content/Written.antt =====
-- What `writei` does.
use osn_mp.Common.{
  ℕ, zero, suc, ◌+◌, ◌-◌, ◌*◌, ◌/◌, ◌%◌, ◌≤◌, ◌<◌, ◌^◌, true, false, some, ltb, ◌==◌, ◌≡◌, refl,
  arith, sym, subst, Bool-cases, inl, inr,
}
use osn_mp.Kernel.Fs.{Store, Superblock, bsize, write_block}
use osn_mp.Kernel.Fs.Bitmap.Blocks.{used, IsFormatted}
use osn_mp.Kernel.Fs.Inode.{Inode, Addressed, bmap}
use osn_mp.Kernel.Fs.Inode.Mapped.{maxfile, IsFile}
use osn_mp.Kernel.Fs.Content.{min, Transfer, copied_in, write_rounds}
use osn_mp.Kernel.Fs.Content.Reached.{Reached, bmap-Reached}
use osn_mp.Kernel.Fs.Content.Copied.{
  Copied, Copied-none, Copied-trans, Reached-Copied, Copied-chunk,
}

module _ (sb : Superblock) (ready : ℕ → ℕ → ℕ) (memory : ℕ → ℕ) where
  -- Why the loop ends behind `d` of `n` bytes, and how many more bytes are in the file.
  pub data Stop (src n : ℕ) (st' : Store) : ℕ → ℕ → Type 0 where
    all_written : Stop src n st' n 0
    no_blocks :
        (d : ℕ) → d < n → ((c : ℕ) → c < sb.size → used sb st' c ≡ true) → Stop src n st' d 0
    bad_address :
        (d m : ℕ) → m ≤ n - d → ready (src + d) m < m → Stop src n st' d (ready (src + d) m)

  -- The loop with `n` bytes left.
  pub record Wrote (tot off src n : ℕ) (ip : Inode) (st : Store) (t : Transfer) : Type 0 where
    pub d : ℕ
    pub extra : ℕ
    pub at_most : d ≤ n
    pub total : t.total ≡ tot + d
    pub off_behind : t.off ≡ off + d
    pub copied : Copied sb memory off src (d + extra) ip st t.inode t.store
    pub stop : Stop src n t.store d extra

  Stop-later :
      (src n m : ℕ) (st' : Store) (d e : ℕ)
      → m ≤ n
      → Stop (src + m) (n - m) st' d e
      → Stop src n st' (m + d) e
  Stop-later src n m st' _ _ l all_written =
      let same : n ≡ m + (n - m) = omega arith in
      subst (λ (k : ℕ). Stop src n st' k 0) same all_written
  Stop-later src n m st' _ _ l (no_blocks d q h) = no_blocks (m + d) (omega arith) h
  Stop-later src n m st' _ _ l (bad_address d k q h) =
      let same : src + (m + d) ≡ src + m + d = omega arith in
      subst (λ (e : ℕ). Stop src n st' (m + d) (ready e k)) same
        (bad_address (m + d) k (omega arith) (subst (λ (e : ℕ). ready e k < k) (sym same) h))

  Wrote-later :
      (tot off src n m : ℕ) (ip ip' : Inode) (st st' : Store) (t : Transfer)
      → m ≤ n
      → Copied sb memory off src m ip st ip' st'
      → Wrote (tot + m) (off + m) (src + m) (n - m) ip' st' t
      → Wrote tot off src n ip st t
  Wrote-later tot off src n m ip ip' st st' t l c w = record {
    d = m + w.d;
    extra = w.extra;
    at_most = omega (arith, w.at_most);
    total = omega (arith, w.total);
    off_behind = omega (arith, w.off_behind);
    copied =
        let same : m + (w.d + w.extra) ≡ m + w.d + w.extra = omega arith in
        subst (λ (k : ℕ). Copied sb memory off src k ip st t.inode t.store) same
          (Copied-trans sb memory off src m (w.d + w.extra) ip ip' t.inode st st' t.store c
            w.copied);
    stop = Stop-later src n m t.store w.d w.extra l w.stop;
  }

  Wrote-end :
      (tot off src n c : ℕ) (ip ip' : Inode) (st st' : Store)
      → Copied sb memory off src c ip st ip' st'
      → Stop src n st' 0 c
      → Wrote tot off src n ip st (record { total = tot; off = off; inode = ip'; store = st' })
  Wrote-end tot off src n c ip ip' st st' g s = record {
    d = 0;
    extra = c;
    at_most = omega arith;
    total = omega arith;
    off_behind = omega arith;
    copied =
        let same : c ≡ 0 + c = omega arith in
        subst (λ (k : ℕ). Copied sb memory off src k ip st ip' st') same g;
    stop = s;
  }

  bad_address_now :
      (src n m : ℕ) (st' : Store) → m ≤ n → ready src m < m → Stop src n st' 0 (ready src m)
  bad_address_now src n m st' l b =
      let same : src + 0 ≡ src = omega arith in
      subst (λ (k : ℕ). ready k m < m → Stop src n st' 0 (ready k m)) same
        (bad_address 0 m (omega arith)) b

  abbrev pub Written : ℕ → ℕ → ℕ → ℕ → ℕ → Inode → Store → Type 0
  Written fuel tot off src n ip st =
      (t : Transfer) × (write_rounds sb ready memory fuel tot off src n ip st ≡ some t)
      × Wrote tot off src (n - tot) ip st t

  Written-done :
      (fuel tot off src n : ℕ) (ip : Inode) (st : Store)
      → IsFormatted sb st
      → IsFile sb ip st
      → n ≡ tot
      → Written fuel tot off src n ip st
  unfolding write_rounds
  Written-done fuel tot off src n ip st v f e =
      let none_left : 0 ≡ n - tot = omega arith in
      let stop : Stop src (n - tot) st 0 0 =
        subst (λ (k : ℕ). Stop src (n - tot) st k 0) (sym none_left) all_written in
      let end =
        Wrote-end tot off src (n - tot) 0 ip ip st st (Copied-none sb memory off src ip st v f)
          stop in
      let l : ltb tot n ≡ false = ground arith in
      (record { total = tot; off = off; inode = ip; store = st }, stopped fuel l, end)
    where
      stopped :
          (fuel : ℕ)
          → ltb tot n ≡ false
          → write_rounds sb ready memory fuel tot off src n ip st
            ≡ some (record { total = tot; off = off; inode = ip; store = st })
      stopped zero l = refl
      stopped (suc k) l = rw l refl

  module _ (tot off src n : ℕ) (ip : Inode) (st : Store) (l : ltb tot n ≡ true)
      (in_file : off + (n - tot) ≤ maxfile * bsize) (r : Addressed)
      (q : bmap sb ip (off / bsize) st ≡ some r) (g : Reached sb ip st (off / bsize) r) where
    abbrev m : ℕ
    m = min (n - tot) (bsize - off % bsize)

    m_le : (m ≤ n - tot) × (off % bsize + m ≤ bsize)
    m_le = (ground arith, ground arith)

    abbrev with_bytes : ℕ → Store
    with_bytes c =
        write_block r.addr (copied_in memory src (off % bsize) c (r.store.content r.addr)) r.store

    Copied-part :
        (r.addr == 0) ≡ false
        → (c : ℕ) → c ≤ m
        → Copied sb memory off src c ip st r.inode (with_bytes c)
    Copied-part z c le =
        Copied-chunk sb memory off src c ip st r (ground arith) (omega (arith, m_le.1)) g
          (λ e. ground arith)

    Written-round :
        (fuel : ℕ)
        → ((r.addr == 0) ≡ false
            → Written fuel (tot + m) (off + m) (src + m) n r.inode (with_bytes m))
        → Written (suc fuel) tot off src n ip st
    unfolding write_rounds
    Written-round fuel later = elim (Bool-cases (r.addr == 0)) [
      | inl z ↦ (
        record { total = tot; off = off; inode = r.inode; store = r.store },
        rw (write_rounds, l, q, z) refl,
        Wrote-end tot off src (n - tot) 0 ip r.inode st r.store
            (Reached-Copied sb memory off src ip st (off / bsize) r g)
            (no_blocks 0 (ground arith) (g.full (ground arith))),
      )
      | inr z ↦ elim (Bool-cases (ltb (ready src m) m)) [
        | inl b ↦
            let short : ready src m < m = ground arith in
            (
              record { total = tot; off = off; inode = r.inode; store = with_bytes (ready src m) },
              rw (write_rounds, l, q, z, b) refl,
              Wrote-end tot off src (n - tot) (ready src m) ip r.inode st (with_bytes (ready src m))
                  (Copied-part z (ready src m) (omega arith))
                  (bad_address_now src (n - tot) m (with_bytes (ready src m)) m_le.0 short),
            )
        | inr b ↦
            let (t, e, w) = later z in
            let left : n - (tot + m) ≡ n - tot - m = omega arith in
            (
              t,
              rw (write_rounds, l, q, z, b) e,
              Wrote-later tot off src (n - tot) m ip r.inode st (with_bytes m) t m_le.0
                  (Copied-part z m (omega arith))
                  (subst (λ (k : ℕ). Wrote (tot + m) (off + m) (src + m) k r.inode (with_bytes m) t)
                    left w),
            )
      ]
    ]

  pub write_rounds-Wrote :
      (fuel tot off src n : ℕ) (ip : Inode) (st : Store)
      → IsFormatted sb st
      → IsFile sb ip st
      → sb.size ≤ 2 ^ 32
      → tot ≤ n
      → off + (n - tot) ≤ maxfile * bsize
      → (tot < n → n - tot + off % bsize ≤ fuel * bsize)
      → Written fuel tot off src n ip st
  write_rounds-Wrote zero tot off src n ip st v f fits le in_file enough =
      Written-done 0 tot off src n ip st v f
        (elim (Bool-cases (ltb tot n)) [ inl e ↦ absurd (ground arith) | inr e ↦ ground arith ])
  write_rounds-Wrote (suc fuel) tot off src n ip st v f fits le in_file enough =
      elim (Bool-cases (ltb tot n)) [
        | inr e ↦ Written-done (suc fuel) tot off src n ip st v f (ground arith)
        | inl e ↦
            let (r, q, g) = bmap-Reached sb ip st v f fits (off / bsize) (ground arith) in
            Written-round tot off src n ip st e in_file r q g fuel (λ z.
              let c =
                Copied-part tot off src n ip st e in_file r q g z
                  (m tot off src n ip st e in_file r q g) (omega arith) in
              write_rounds-Wrote fuel _ _ _ n r.inode
                (with_bytes tot off src n ip st e in_file r q g
                  (m tot off src n ip st e in_file r q g))
                c.kept.formatted c.kept.file fits (ground arith) (ground arith) (λ h. ground arith))
      ]
