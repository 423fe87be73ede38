-- ===== src/Kernel/Fs/Content/Reached.antt =====
-- `bmap` within `readi` and `writei`: no byte of the content changes.
use osn_mp.Common.{ℕ, ◌*◌, ◌≤◌, ◌<◌, ◌^◌, true, Option, some, ◌≡◌, ◌≢◌, refl, arith, sym, subst}
use osn_mp.Kernel.Fs.{Store, Superblock, bsize}
use osn_mp.Kernel.Fs.Bitmap.Blocks.{used, IsFormatted}
use osn_mp.Kernel.Fs.Inode.{Inode, Addressed, bmap}
use osn_mp.Kernel.Fs.Inode.Mapped.{maxfile, mapped, IsFile}
use osn_mp.Kernel.Fs.Inode.Bmap.{Bmapped, present, made, no_room}
use osn_mp.Kernel.Fs.Inode.Total.{Bmap, in_range, out_of_range, bmap-Bmap}
use osn_mp.Kernel.Fs.Content.Kept.{byte_at, Kept, Kept-refl, Grown-Kept, Grown-byte_at}

module _ (sb : Superblock) (ip : Inode) (st : Store) where
  -- The block `n` is mapped at the address returned, or all blocks are in use.
  pub record Reached (n : ℕ) (r : Addressed) : Type 0 where
    pub kept : Kept sb ip st r.inode r.store
    pub bytes : (k : ℕ) → k < maxfile * bsize → byte_at r.inode r.store k ≡ byte_at ip st k
    pub there : r.addr ≢ 0 → mapped r.inode r.store n ≡ r.addr
    pub full : r.addr ≡ 0 → (c : ℕ) → c < sb.size → used sb r.store c ≡ true
    pub not_there : r.addr ≡ 0 → mapped r.inode r.store n ≡ 0

  Bmapped-Reached :
      (n : ℕ) (r : Addressed)
      → IsFormatted sb st
      → IsFile sb ip st
      → Bmapped sb n ip st r
      → Reached n r
  Bmapped-Reached n _ v f (present q) = record {
    kept = Kept-refl sb ip st v f;
    bytes = λ k l. refl;
    there = λ z. refl;
    full = λ z. absurd (q z);
    not_there = λ z. z;
  }
  Bmapped-Reached n _ v f (made a ip' st' z nz l u zeros g t) = record {
    kept = Grown-Kept sb n ip ip' st st' g z;
    bytes =
        Grown-byte_at sb n ip ip' st st' g z
          (λ q i. subst (λ (b : ℕ). st'.content b i ≡ 0) (sym t) (zeros i));
    there = λ q. t;
    full = λ q. absurd (nz q);
    not_there = λ q. absurd (nz q);
  }
  Bmapped-Reached n _ v f (no_room ip' st' z all g t) = record {
    kept = Grown-Kept sb n ip ip' st st' g z;
    bytes = Grown-byte_at sb n ip ip' st st' g z (λ q. absurd (q t));
    there = λ q. absurd (q refl);
    full = λ q. all;
    not_there = λ q. t;
  }

  pub bmap-Reached :
      IsFormatted sb st
      → IsFile sb ip st
      → sb.size ≤ 2 ^ 32
      → (n : ℕ) → n < maxfile
      → (r : Addressed) × (bmap sb ip n st ≡ some r) × Reached n r
  bmap-Reached v f fits n l = go (bmap sb ip n st) refl (bmap-Bmap sb ip st v f fits n)
    where
      go :
          (o : Option Addressed)
          → bmap sb ip n st ≡ o
          → Bmap sb n ip st o
          → (r : Addressed) × (bmap sb ip n st ≡ some r) × Reached n r
      go _ q (out_of_range m) = absurd (omega arith)
      go _ q (in_range r m b) = (r, q, Bmapped-Reached n r v f b)
