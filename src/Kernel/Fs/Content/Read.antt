-- ===== src/Kernel/Fs/Content/Read.antt =====
-- What `readi` does.
use osn_mp.Common.{
  ℕ, zero, suc, ◌+◌, ◌-◌, ◌*◌, ◌/◌, ◌%◌, ◌≤◌, ◌<◌, ◌^◌, true, false, List, ◌++◌, append-nil,
  append_assoc, some, ltb, ◌==◌, ◌≡◌, refl, arith, ap, sym, subst, ◌∙◌, Bool-cases, inl, inr,
}
use osn_mp.Common.Int.{ℤ, pos, minus_one}
use osn_mp.Kernel.Fs.{Store, Superblock, bsize}
use osn_mp.Kernel.Fs.Bitmap.Blocks.{used, IsFormatted}
use osn_mp.Kernel.Fs.Inode.{Inode, Addressed, bmap}
use osn_mp.Kernel.Fs.Inode.Mapped.{maxfile, mapped, IsFile}
use osn_mp.Kernel.Fs.Content.{min, stretch, Reading, read_rounds}
use osn_mp.Kernel.Fs.Content.Kept.{byte_at, Kept, Kept-refl, Kept-trans}
use osn_mp.Kernel.Fs.Content.Reached.{Reached, bmap-Reached}
use osn_mp.Kernel.Fs.Content.Slices.{stretch-add, stretch-Reached, stretch-later}

module _ (sb : Superblock) (ready : ℕ → ℕ → ℕ) where
  -- Why the loop ends with `d` of `n` bytes delivered, and the value.
  pub data Ending (tot off dst n : ℕ) (ip' : Inode) (st' : Store) : ℕ → ℤ → Type 0 where
    all_read : Ending tot off dst n ip' st' n (pos (tot + n))
    no_blocks :
        (d : ℕ)
        → d < n
        → ((c : ℕ) → c < sb.size → used sb st' c ≡ true)
        → mapped ip' st' ((off + d) / bsize) ≡ 0
        → Ending tot off dst n ip' st' d (pos (tot + d))
    bad_address :
        (d m : ℕ)
        → m ≤ n - d
        → ready (dst + d) m < m
        → Ending tot off dst n ip' st' (d + ready (dst + d) m) minus_one

  -- Bytes of the file from `off` on are delivered behind `out`, and none is changed.
  pub record Delivered (tot off dst n : ℕ) (ip : Inode) (st : Store) (out : List ℕ) (rd : Reading)
      : Type 0 where
    pub d : ℕ
    pub at_most : d ≤ n
    pub bytes : rd.bytes ≡ out ++ stretch d off (byte_at ip st)
    pub kept : Kept sb ip st rd.inode rd.store
    pub same : (k : ℕ) → k < maxfile * bsize → byte_at rd.inode rd.store k ≡ byte_at ip st k
    pub stop : Ending tot off dst n rd.inode rd.store d rd.value

  Ending-later :
      (tot off dst n m : ℕ) (ip' : Inode) (st' : Store) (d : ℕ) (z : ℤ)
      → m ≤ n
      → Ending (tot + m) (off + m) (dst + m) (n - m) ip' st' d z
      → Ending tot off dst n ip' st' (m + d) z
  Ending-later tot off dst n m ip' st' _ _ l all_read =
      let same : n ≡ m + (n - m) = omega arith in
      let count : tot + n ≡ tot + m + (n - m) = omega arith in
      subst (λ (k : ℕ). Ending tot off dst n ip' st' (m + (n - m)) (pos k)) count
        (subst (λ (k : ℕ). Ending tot off dst n ip' st' k (pos (tot + n))) same all_read)
  Ending-later tot off dst n m ip' st' _ _ l (no_blocks d q h z) =
      let place : off + m + d ≡ off + (m + d) = omega arith in
      let count : tot + (m + d) ≡ tot + m + d = omega arith in
      subst (λ (k : ℕ). Ending tot off dst n ip' st' (m + d) (pos k)) count
        (no_blocks (m + d) (omega arith) h
          (subst (λ (k : ℕ). mapped ip' st' (k / bsize) ≡ 0) place z))
  Ending-later tot off dst n m ip' st' _ _ l (bad_address d k q h) =
      let same : dst + (m + d) ≡ dst + m + d = omega arith in
      let count : m + d + ready (dst + m + d) k ≡ m + (d + ready (dst + m + d) k) = omega arith in
      subst (λ (c : ℕ). Ending tot off dst n ip' st' c minus_one) count
        (subst (λ (a : ℕ). Ending tot off dst n ip' st' (m + d + ready a k) minus_one) same
          (bad_address (m + d) k (omega arith) (subst (λ (a : ℕ). ready a k < k) (sym same) h)))

  abbrev pub Reads : ℕ → ℕ → ℕ → ℕ → ℕ → Inode → Store → List ℕ → Type 0
  Reads fuel tot off dst n ip st out =
      (rd : Reading) × (read_rounds sb ready fuel tot off dst n ip st out ≡ some rd)
      × Delivered tot off dst (n - tot) ip st out rd

  Reads-done :
      (fuel tot off dst n : ℕ) (ip : Inode) (st : Store) (out : List ℕ)
      → IsFormatted sb st
      → IsFile sb ip st
      → n ≡ tot
      → Reads fuel tot off dst n ip st out
  unfolding read_rounds stretch
  Reads-done fuel tot off dst n ip st out v f e =
      let none_left : n - tot ≡ 0 = omega arith in
      let count : tot + 0 ≡ tot = omega arith in
      let stop : Ending tot off dst (n - tot) ip st 0 (pos tot) =
        subst (λ (k : ℕ). Ending tot off dst (n - tot) ip st 0 (pos k)) count
          (subst (λ (k : ℕ). Ending tot off dst k ip st 0 (pos (tot + 0))) (sym none_left)
            all_read) in
      let l : ltb tot n ≡ false = ground arith in
      (
        record { value = pos tot; bytes = out; inode = ip; store = st },
        stopped fuel l,
        record {
          d = 0;
          at_most = omega arith;
          bytes = sym (append-nil out);
          kept = Kept-refl sb ip st v f;
          same = λ k m. refl;
          stop = stop;
        },
      )
    where
      stopped :
          (fuel : ℕ)
          → ltb tot n ≡ false
          → read_rounds sb ready fuel tot off dst n ip st out
            ≡ some (record { value = pos tot; bytes = out; inode = ip; store = st })
      stopped zero l = refl
      stopped (suc k) l = rw l refl

  module _ (tot off dst n : ℕ) (ip : Inode) (st : Store) (out : List ℕ) (l : ltb tot n ≡ true)
      (in_file : off + (n - tot) ≤ maxfile * bsize) (r : Addressed)
      (q : bmap sb ip (off / bsize) st ≡ some r) (g : Reached sb ip st (off / bsize) r) where
    abbrev m : ℕ
    m = min (n - tot) (bsize - off % bsize)

    m_le : (m ≤ n - tot) × (off % bsize + m ≤ bsize)
    m_le = (ground arith, ground arith)

    abbrev part : ℕ → List ℕ
    part c = stretch c (off % bsize) (r.store.content r.addr)

    part_bytes : (r.addr == 0) ≡ false → (c : ℕ) → c ≤ m → part c ≡ stretch c off (byte_at ip st)
    part_bytes z c le =
        stretch-Reached sb ip st off r g c (λ e. ground arith) (omega (arith, m_le.1))
          (omega (arith, m_le.0))

    Delivered-now :
        (c : ℕ) (bytes : List ℕ) (z : ℤ)
        → c ≤ n - tot
        → bytes ≡ out ++ stretch c off (byte_at ip st)
        → Ending tot off dst (n - tot) r.inode r.store c z
        → Delivered tot off dst
            (n - tot)
            ip
            st
            out
            (record { value = z; bytes = bytes; inode = r.inode; store = r.store })
    Delivered-now c bytes z le e s = record {
      d = c;
      at_most = le;
      bytes = e;
      kept = g.kept;
      same = g.bytes;
      stop = s;
    }

    Delivered-later :
        (rd : Reading)
        → (r.addr == 0) ≡ false
        → Delivered (tot + m) (off + m) (dst + m) (n - tot - m) r.inode r.store (out ++ part m) rd
        → Delivered tot off dst (n - tot) ip st out rd
    Delivered-later rd z w = record {
      d = m + w.d;
      at_most = omega (arith, w.at_most, m_le.0);
      bytes =
          w.bytes
          ∙ ap (λ xs. (out ++ part m) ++ xs)
              (stretch-later sb ip st off r g w.d (off + m) (omega (arith, w.at_most, m_le.0)))
          ∙ append_assoc out (part m) (stretch w.d (off + m) (byte_at ip st))
          ∙ ap (λ xs. out ++ (xs ++ stretch w.d (off + m) (byte_at ip st)))
              (part_bytes z m (omega arith))
          ∙ ap (λ xs. out ++ xs) (sym (stretch-add m w.d off (byte_at ip st)));
      kept = Kept-trans sb ip r.inode rd.inode st r.store rd.store g.kept w.kept;
      same = λ k le. w.same k le ∙ g.bytes k le;
      stop = Ending-later tot off dst (n - tot) m rd.inode rd.store w.d rd.value m_le.0 w.stop;
    }

    Ending-full : (r.addr == 0) ≡ true → Ending tot off dst (n - tot) r.inode r.store 0 (pos tot)
    Ending-full z =
        let place : off ≡ off + 0 = omega arith in
        let count : tot + 0 ≡ tot = omega arith in
        subst (λ (k : ℕ). Ending tot off dst (n - tot) r.inode r.store 0 (pos k)) count
          (no_blocks 0 (ground arith) (g.full (ground arith)) (
            subst (λ (k : ℕ). mapped r.inode r.store (k / bsize) ≡ 0) place
              (g.not_there (ground arith))))

    Ending-bad :
        ready dst m < m → Ending tot off dst (n - tot) r.inode r.store (ready dst m) minus_one
    Ending-bad short =
        let same : dst + 0 ≡ dst = omega arith in
        let count : 0 + ready dst m ≡ ready dst m = omega arith in
        subst (λ (c : ℕ). Ending tot off dst (n - tot) r.inode r.store c minus_one) count
          (subst
            (λ (a : ℕ).
              ready a m < m
              → Ending tot off dst (n - tot) r.inode r.store (0 + ready a m) minus_one)
            same (bad_address 0 m (omega (arith, m_le.0))) short)

    Reads-round :
        (fuel : ℕ)
        → Reads fuel (tot + m) (off + m) (dst + m) n r.inode r.store (out ++ part m)
        → Reads (suc fuel) tot off dst n ip st out
    unfolding read_rounds stretch
    Reads-round fuel (rd, e, w) = elim (Bool-cases (r.addr == 0)) [
      | inl z ↦ (
        record { value = pos tot; bytes = out; inode = r.inode; store = r.store },
        rw (read_rounds, l, q, z) refl,
        Delivered-now 0 out (pos tot) (omega arith) (sym (append-nil out)) (Ending-full z),
      )
      | inr z ↦ elim (Bool-cases (ltb (ready dst m) m)) [
        | inl b ↦
            let short : ready dst m < m = ground arith in
            (
              record {
                value = minus_one;
                bytes = out ++ part (ready dst m);
                inode = r.inode;
                store = r.store;
              },
              rw (read_rounds, l, q, z, b) refl,
              Delivered-now (ready dst m) (out ++ part (ready dst m)) minus_one
                  (omega (arith, m_le.0))
                  (ap (λ xs. out ++ xs) (part_bytes z (ready dst m) (omega arith)))
                  (Ending-bad short),
            )
        | inr b ↦
            let left : n - (tot + m) ≡ n - tot - m = omega arith in
            (
              rd,
              rw (read_rounds, l, q, z, b) e,
              Delivered-later rd z (
                  subst
                    (λ (k : ℕ).
                      Delivered (tot + m) (off + m) (dst + m) k r.inode r.store (out ++ part m) rd)
                    left w),
            )
      ]
    ]

  pub read_rounds-Delivered :
      (fuel tot off dst n : ℕ) (ip : Inode) (st : Store) (out : List ℕ)
      → IsFormatted sb st
      → IsFile sb ip st
      → sb.size ≤ 2 ^ 32
      → tot ≤ n
      → off + (n - tot) ≤ maxfile * bsize
      → (tot < n → n - tot + off % bsize ≤ fuel * bsize)
      → Reads fuel tot off dst n ip st out
  read_rounds-Delivered zero tot off dst n ip st out v f fits le in_file enough =
      Reads-done 0 tot off dst n ip st out v f
        (elim (Bool-cases (ltb tot n)) [ inl e ↦ absurd (ground arith) | inr e ↦ ground arith ])
  read_rounds-Delivered (suc fuel) tot off dst n ip st out v f fits le in_file enough =
      elim (Bool-cases (ltb tot n)) [
        | inr e ↦ Reads-done (suc fuel) tot off dst n ip st out v f (ground arith)
        | inl e ↦
            let (r, q, g) = bmap-Reached sb ip st v f fits (off / bsize) (ground arith) in
            Reads-round tot off dst n ip st out e in_file r q g fuel (
              read_rounds-Delivered fuel _ _ _ n r.inode r.store _ g.kept.formatted g.kept.file fits
                (ground arith) (ground arith) (λ h. ground arith))
      ]
