-- ===== src/Kernel/Fs/Content/Slices.antt =====
-- Stretches of bytes.
use osn_mp.Common.{
  ℕ, zero, suc, ◌+◌, ◌*◌, ◌/◌, ◌%◌, ◌≤◌, ◌<◌, false, ◌∷◌, ◌++◌, ◌==◌, ◌≡◌, ◌≢◌, refl, arith, ap,
  ap₂, sym, subst, ◌∙◌,
}
use osn_mp.Kernel.Fs.{Store, Superblock, bsize}
use osn_mp.Kernel.Fs.Inode.{Inode, Addressed}
use osn_mp.Kernel.Fs.Inode.Mapped.{maxfile, mapped}
use osn_mp.Kernel.Fs.Content.{stretch}
use osn_mp.Kernel.Fs.Content.Kept.{byte_at}
use osn_mp.Kernel.Fs.Content.Reached.{Reached}

pub stretch-stretch :
    (m : ℕ) (a b : ℕ) (f g : ℕ → ℕ)
    → ((i : ℕ) → i < m → f (a + i) ≡ g (b + i))
    → stretch m a f ≡ stretch m b g
unfolding stretch
stretch-stretch zero a b f g h = refl
stretch-stretch (suc m) a b f g h =
    let at : f a ≡ g b =
      let s : a + 0 ≡ a = omega arith in
      let t : b + 0 ≡ b = omega arith in
      subst (λ (k : ℕ). f k ≡ g b) s (subst (λ (k : ℕ). f (a + 0) ≡ g k) t (h 0 (omega arith))) in
    ap₂ (λ x xs. x ∷ xs) at
      (stretch-stretch m (a + 1) (b + 1) f g (λ i l.
        let s : a + (i + 1) ≡ a + 1 + i = omega arith in
        let t : b + (i + 1) ≡ b + 1 + i = omega arith in
        subst (λ (k : ℕ). f k ≡ g (b + 1 + i)) s
          (subst (λ (k : ℕ). f (a + (i + 1)) ≡ g k) t (h (i + 1) (omega arith)))))

pub stretch-add :
    (m d a : ℕ) (f : ℕ → ℕ) → stretch (m + d) a f ≡ stretch m a f ++ stretch d (a + m) f
unfolding stretch
stretch-add zero d a f =
    let s : d ≡ 0 + d = omega arith in
    let t : a ≡ a + 0 = omega arith in
    subst (λ (k : ℕ). stretch k a f ≡ stretch d (a + 0) f) s (ap (λ (k : ℕ). stretch d k f) t)
stretch-add (suc m) d a f =
    let s : suc (m + d) ≡ suc m + d = omega arith in
    let t : a + 1 + m ≡ a + suc m = omega arith in
    subst (λ (k : ℕ). stretch k a f ≡ f a ∷ (stretch m (a + 1) f ++ stretch d (a + suc m) f)) s
      (ap (λ xs. f a ∷ xs)
        (stretch-add m d (a + 1) f ∙ ap (λ (k : ℕ). stretch m (a + 1) f ++ stretch d k f) t))

module _ (sb : Superblock) (ip : Inode) (st : Store) (off : ℕ) (r : Addressed)
    (g : Reached sb ip st (off / bsize) r) where
  pub stretch-Reached :
      (c : ℕ)
      → r.addr ≢ 0
      → off % bsize + c ≤ bsize
      → off + c ≤ maxfile * bsize
      → stretch c (off % bsize) (r.store.content r.addr) ≡ stretch c off (byte_at ip st)
  stretch-Reached c ne in_block in_file =
      stretch-stretch c (off % bsize) off (r.store.content r.addr) (byte_at ip st) (λ i l.
        let block : (off + i) / bsize ≡ off / bsize = omega arith in
        let place : (off + i) % bsize ≡ off % bsize + i = omega arith in
        let at : mapped r.inode r.store (off / bsize) ≡ r.addr = g.there ne in
        let z : (r.addr == 0) ≡ false = ground arith in
        let here : byte_at r.inode r.store (off + i) ≡ r.store.content r.addr (off % bsize + i) =
          rw (block, place, at, z) refl in
        sym here ∙ g.bytes (off + i) (omega arith))

  pub stretch-later :
      (d a : ℕ)
      → a + d ≤ maxfile * bsize
      → stretch d a (byte_at r.inode r.store) ≡ stretch d a (byte_at ip st)
  stretch-later d a in_file =
      stretch-stretch d a a (byte_at r.inode r.store) (byte_at ip st)
        (λ i l. g.bytes (a + i) (omega arith))
