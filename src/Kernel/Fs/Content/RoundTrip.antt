-- ===== src/Kernel/Fs/Content/RoundTrip.antt =====
-- `readi`, and what it reads behind `writei`.
use osn_mp.Common.{
  ℕ, ◌+◌, ◌-◌, ◌*◌, ◌/◌, ◌%◌, ◌≤◌, ◌<◌, ◌^◌, false, ◌||◌, [], Option, none, some, ltb, ◌≡◌, ◌≢◌,
  ◌⊎◌, refl, arith, ap, sym, subst, ◌∙◌, Bool-cases, inl, inr, if◌then◌else◌,
}
use osn_mp.Common.Int.{ℤ, pos, negsuc}
use osn_mp.Kernel.Fs.{Store, Superblock, bsize}
use osn_mp.Kernel.Fs.Bitmap.Blocks.{IsFormatted}
use osn_mp.Kernel.Fs.Inode.{Inode}
use osn_mp.Kernel.Fs.Inode.Mapped.{maxfile, mapped, IsFile, Foreign}
use osn_mp.Kernel.Fs.Dinode.{iblock}
use osn_mp.Kernel.Fs.Dinode.Written.{IsFit}
use osn_mp.Kernel.Fs.Content.{stretch, Reading, readi, writei}
use osn_mp.Kernel.Fs.Content.Kept.{byte_at}
use osn_mp.Kernel.Fs.Content.Slices.{stretch-stretch}
use osn_mp.Kernel.Fs.Content.Read.{
  Ending, all_read, no_blocks, bad_address, Delivered, Reads, read_rounds-Delivered,
}
use osn_mp.Kernel.Fs.Content.Updated.{Updated, Writei, refused, wrote, grown, writei-Writei}

module _ (sb : Superblock) (ready : ℕ → ℕ → ℕ) where
  -- The bytes from `off` on that are within the size.
  abbrev pub within : ℕ → ℕ → ℕ → ℕ
  within size off n = if ltb size (off + n) then size - off else n

  pub data Readi (dst off n : ℕ) (ip : Inode) (st : Store) : Option Reading → Type 0 where
    beyond :
        (ip.size < off) ⊎ (2 ^ 32 ≤ off + n)
        → Readi dst off n ip st
            (some (record { value = pos 0; bytes = []; inode = ip; store = st }))
    delivered :
        (rd : Reading)
        → off ≤ ip.size
        → off + n < 2 ^ 32
        → Delivered sb ready 0 off dst (within ip.size off n) ip st [] rd
        → Readi dst off n ip st (some rd)

  module _ (ip : Inode) (st : Store) (v : IsFormatted sb st) (f : IsFile sb ip st)
      (fits : sb.size ≤ 2 ^ 32) (in_file : ip.size ≤ maxfile * bsize) (dst off n : ℕ)
      (off_fits : off < 2 ^ 32) (n_fits : n < 2 ^ 32) where
    readi_run :
        (m : ℕ)
        → (ltb ip.size off || ltb ((off + n) % 2 ^ 32) off) ≡ false
        → (if ltb ip.size ((off + n) % 2 ^ 32) then ip.size - off else n) ≡ m
        → within ip.size off n ≡ m
        → Reads sb ready (m / bsize + 2) 0 off dst m ip st []
        → Readi dst off n ip st (readi sb ready dst off n ip st)
    unfolding readi
    readi_run m e q w (rd, p, h) =
        let all : m - 0 ≡ within ip.size off n = omega (arith, w) in
        rw (readi, e, q, p)
          (delivered rd (ground arith) (ground arith)
            (subst (λ (k : ℕ). Delivered sb ready 0 off dst k ip st [] rd) all h))

    pub readi-Readi : Readi dst off n ip st (readi sb ready dst off n ip st)
    unfolding readi
    readi-Readi = elim (Bool-cases (ltb ip.size off || ltb ((off + n) % 2 ^ 32) off)) [
      | inl e ↦ rw e (beyond (ground arith))
      | inr e ↦
          let q : (if ltb ip.size ((off + n) % 2 ^ 32) then ip.size - off else n)
              ≡ within ip.size off n =
            ground arith in
          readi_run (within ip.size off n) e q refl (
            read_rounds-Delivered sb ready _ 0 off dst (within ip.size off n) ip st [] v f fits
              (omega arith) (ground arith) (λ z. omega arith))
    ]

    -- With a destination that can be written, of bytes that are all there.
    pub readi-mapped :
        off + n ≤ ip.size
        → ((a m : ℕ) → m ≤ ready a m)
        → ((k : ℕ) → k < maxfile * bsize → off ≤ k → k < off + n → mapped ip st (k / bsize) ≢ 0)
        → (rd : Reading) × (readi sb ready dst off n ip st ≡ some rd)
          × (rd.value ≡ pos n)
          × (rd.bytes ≡ stretch n off (byte_at ip st))
    readi-mapped le writable there = go (readi sb ready dst off n ip st) refl readi-Readi
      where
        all : within ip.size off n ≡ n
        all = ground arith

        ended :
            (ip' : Inode) (st' : Store) (d : ℕ) (z : ℤ)
            → ((m : ℕ) → m < maxfile → mapped ip st m ≢ 0 → mapped ip' st' m ≡ mapped ip st m)
            → Ending sb ready 0 off dst n ip' st' d z
            → (d ≡ n) × (z ≡ pos n)
        ended ip' st' _ _ s all_read = let same : 0 + n ≡ n = omega arith in (refl, ap pos same)
        ended ip' st' _ _ s (no_blocks d l h z) =
            let q : mapped ip st ((off + d) / bsize) ≢ 0 =
              there (off + d) (omega arith) (omega arith) (omega arith) in
            absurd (q (sym (s ((off + d) / bsize) (omega arith) q) ∙ z))
        ended ip' st' _ _ s (bad_address d m l h) = absurd (omega (arith, writable (dst + d) m))

        go :
            (o : Option Reading)
            → readi sb ready dst off n ip st ≡ o
            → Readi dst off n ip st o
            → (rd : Reading) × (readi sb ready dst off n ip st ≡ some rd)
              × (rd.value ≡ pos n)
              × (rd.bytes ≡ stretch n off (byte_at ip st))
        go _ q (beyond o) = absurd (omega arith)
        go _ q (delivered rd l s h) =
            let (e, z) = ended rd.inode rd.store h.d rd.value h.kept.stays (
              subst (λ (k : ℕ). Ending sb ready 0 off dst k rd.inode rd.store h.d rd.value) all
                h.stop) in
            (rd, q, z, h.bytes ∙ ap (λ (k : ℕ). stretch k off (byte_at ip st)) e)

-- The parts of what `writei` returns.
abbrev value_of : Inode → Store → Option (ℤ × Inode × Store) → ℕ
value_of ip st none = 0
value_of ip st (some (pos k, ip', st')) = k + 1
value_of ip st (some (negsuc k, ip', st')) = 0

abbrev pub left_by : Inode → Store → Option (ℤ × Inode × Store) → Inode × Store
left_by ip st none = (ip, st)
left_by ip st (some (z, ip', st')) = (ip', st')

module _ (sb : Superblock) (ready written_to : ℕ → ℕ → ℕ) (memory : ℕ → ℕ) (inum : ℕ) (ip : Inode)
    (st : Store) (v : IsFormatted sb st) (f : IsFile sb ip st) (fits : sb.size ≤ 2 ^ 32)
    (fit : IsFit ip) (ne : ip.type ≢ 0) (own : Foreign sb ip st (iblock sb inum))
    (small : ip.size ≤ maxfile * bsize) (src dst off n : ℕ) (off_fits : off < 2 ^ 32)
    (n_fits : n < 2 ^ 32) where
  read_back :
      (ip' : Inode) (st' : Store) (c size : ℕ)
      → off + n ≤ maxfile * bsize
      → n ≤ c
      → off + n ≤ size
      → size ≤ maxfile * bsize
      → ((a m : ℕ) → m ≤ written_to a m)
      → Updated sb ready memory inum off src c ip st size ip' st'
      → (rd : Reading) × (readi sb written_to dst off n ip' st' ≡ some rd)
        × (rd.value ≡ pos n)
        × (rd.bytes ≡ stretch n src memory)
  read_back ip' st' c size in_file le in_size within_file writable u =
      let (rd, q, z, b) =
        readi-mapped sb written_to ip' st' u.formatted u.file fits (omega (arith, u.new_size)) dst
          off n off_fits n_fits (omega (arith, u.new_size)) writable
          (λ k l m o. u.present k l m (omega arith)) in
      (
        rd,
        q,
        z,
        b
            ∙ stretch-stretch n off src (byte_at ip' st') memory (λ i l.
              let same : src + (off + i - off) ≡ src + i = omega arith in
              u.written (off + i) (omega arith) (omega arith) (omega arith) ∙ ap memory same),
      )

  -- On a formatted map of at most 2 ^ 32 blocks, for a file that holds its blocks alone and is not larger
  -- than the largest file, whose dinode is in a block in use of its own: if `writei` returns the number
  -- of bytes asked for, then `readi` of the same range to a destination that can be written delivers
  -- just those bytes.
  pub readi-writei :
      (ip' : Inode) (st' : Store)
      → writei sb ready memory inum src off n ip st ≡ some (pos n, ip', st')
      → ((a m : ℕ) → m ≤ written_to a m)
      → (rd : Reading) × (readi sb written_to dst off n ip' st' ≡ some rd)
        × (rd.value ≡ pos n)
        × (rd.bytes ≡ stretch n src memory)
  readi-writei ip' st' e writable =
      go (writei sb ready memory inum src off n ip st) e
        (writei-Writei sb ready memory inum ip st v f fits fit ne own src off n off_fits n_fits)
    where
      go :
          (o : Option (ℤ × Inode × Store))
          → o ≡ some (pos n, ip', st')
          → Writei sb ready memory inum src off n ip st o
          → (rd : Reading) × (readi sb written_to dst off n ip' st' ≡ some rd)
            × (rd.value ≡ pos n)
            × (rd.bytes ≡ stretch n src memory)
      go _ q (refused o) = absurd (omega (arith, ap (value_of ip st) q))
      go _ q (wrote d extra jp st2 l m k t u) =
          let count : d ≡ n = omega (arith, ap (value_of ip st) q) in
          subst
            (λ (p : Inode × Store).
              (rd : Reading) × (readi sb written_to dst off n p.0 p.1 ≡ some rd)
              × (rd.value ≡ pos n)
              × (rd.bytes ≡ stretch n src memory))
            (ap (left_by ip st) q)
            (read_back jp st2 (d + extra) (grown sb ready memory ip.size (off + d)) m (omega arith)
              (ground arith) (ground arith) writable u)
