-- ===== src/Kernel/Fs/Inode/Mapped.antt =====
-- The blocks that an inode holds, as `bmap` finds them, and how an allocation extends them.
use osn_mp.Common.{
  ℕ, ◌-◌, ◌≤◌, ◌<◌, Bool, true, false, ◌||◌, ltb, ◌==◌, ◌≡◌, ◌≢◌, refl, ◌⊎◌, arith, ap, sym, ◌∙◌,
  Bool-cases, inl, inr, if◌then◌else◌,
}
use osn_mp.Kernel.Fs.{Store, Superblock, bblock}
use osn_mp.Kernel.Fs.Words.{word}
use osn_mp.Kernel.Fs.Bitmap.Blocks.{IsBytes, used}
use osn_mp.Kernel.Fs.Inode.{Inode, ndirect}

-- `MAXFILE`
abbrev pub maxfile : ℕ
maxfile = 268

-- The address of the block with the number `n` in the content, or 0.
abbrev pub mapped : Inode → Store → ℕ → ℕ
mapped ip st n =
    if ltb n ndirect
    then ip.addrs n
    else if ip.addrs ndirect == 0
    then 0
    else word (st.content (ip.addrs ndirect)) (n - ndirect)

-- The addresses that the inode holds: those of its content, and that of the indirect block.
abbrev pub held : Inode → Store → ℕ → ℕ
held ip st k = if k == maxfile then ip.addrs ndirect else mapped ip st k

-- Inodes that differ at most in their addresses.
pub record IsLike (ip ip' : Inode) : Type 0 where
  pub type : ip'.type ≡ ip.type
  pub major : ip'.major ≡ ip.major
  pub minor : ip'.minor ≡ ip.minor
  pub nlink : ip'.nlink ≡ ip.nlink
  pub size : ip'.size ≡ ip.size

pub IsLike-refl : (ip : Inode) → IsLike ip ip
IsLike-refl ip = record { type = refl; major = refl; minor = refl; nlink = refl; size = refl }

pub IsLike-placed : (ip : Inode) (addrs : ℕ → ℕ) → IsLike ip (record ip { addrs = addrs })
IsLike-placed ip addrs = record {
  type = refl;
  major = refl;
  minor = refl;
  nlink = refl;
  size = refl;
}

pub IsLike-trans : (a b c : Inode) → IsLike a b → IsLike b c → IsLike a c
IsLike-trans a b c h g = record {
  type = g.type ∙ h.type;
  major = g.major ∙ h.major;
  minor = g.minor ∙ h.minor;
  nlink = g.nlink ∙ h.nlink;
  size = g.size ∙ h.size;
}

module _ (sb : Superblock) where
  -- The addresses held are of blocks in use outside the map, and differ.
  pub record IsHeld (own : ℕ → ℕ) (u : ℕ → Bool) : Type 0 where
    pub inside : (k : ℕ) → k ≤ maxfile → own k ≢ 0 → own k < sb.size
    pub marked : (k : ℕ) → k ≤ maxfile → own k ≢ 0 → u (own k) ≡ true
    pub not_map : (k c : ℕ) → k ≤ maxfile → own k ≢ 0 → c < sb.size → own k ≢ bblock sb c
    pub apart : (j k : ℕ) → j ≤ maxfile → k ≤ maxfile → own j ≢ 0 → own j ≡ own k → j ≡ k

  pub record IsFile (ip : Inode) (st : Store) : Type 0 where
    pub holds : IsHeld (held ip st) (used sb st)
    pub bytes : ip.addrs ndirect ≢ 0 → IsBytes (st.content (ip.addrs ndirect))

  -- A block in use that is neither the inode's nor the map's: one of another file, or of the inodes.
  pub record Foreign (ip : Inode) (st : Store) (d : ℕ) : Type 0 where
    pub inside : d < sb.size
    pub marked : used sb st d ≡ true
    pub not_held : (k : ℕ) → k ≤ maxfile → held ip st k ≢ d
    pub not_map : (c : ℕ) → c < sb.size → d ≢ bblock sb c

  -- A free block that is given the place of a 0.
  module _ (own own' : ℕ → ℕ) (u u' : ℕ → Bool) (b k : ℕ) (le : k ≤ maxfile) (h : IsHeld own u)
      (lt : b < sb.size) (free : u b ≡ false) (off_map : (c : ℕ) → c < sb.size → b ≢ bblock sb c)
      (others : (j : ℕ) → j ≤ maxfile → j ≢ k → own' j ≡ own j) (this : own' k ≡ b)
      (mark : (c : ℕ) → c < sb.size → u' c ≡ (b == c || u c)) where
    new_or_old :
        (j : ℕ)
        → j ≤ maxfile
        → own' j ≢ 0
        → ((j ≡ k) × (own' j ≡ b)) ⊎ ((j ≢ k) × (own' j ≡ own j) × (own j ≢ 0))
    new_or_old j l n = elim (Bool-cases (j == k)) [
      | inl e ↦ let same : j ≡ k = ground arith in inl (same, ap own' same ∙ this)
      | inr e ↦
          let ne : j ≢ k = λ q. ground arith in
          inr (ne, others j l ne, (λ z. n (others j l ne ∙ z)))
    ]

    or_left : (a c : Bool) → a ≡ true → (a || c) ≡ true
    or_left a c e = ground arith

    or_right : (a c : Bool) → c ≡ true → (a || c) ≡ true
    or_right a c e = ground arith

    differs : (x : ℕ) → u x ≡ true → b ≢ x
    differs x e q = let t : u b ≡ true = ap u q ∙ e in ground arith

    pub extended : IsHeld own' u'
    extended = record {
      inside = λ j l n. elim (new_or_old j l n) [
        | inl q ↦ omega (arith, q.1)
        | inr q ↦ omega (arith, q.1, h.inside j l q.2)
      ];
      marked = λ j l n. elim (new_or_old j l n) [
        | inl q ↦ ap u' q.1 ∙ mark b lt ∙ or_left (b == b) (u b) (ground arith)
        | inr q ↦
            ap u' q.1
            ∙ mark (own j) (h.inside j l q.2)
            ∙ or_right (b == own j) (u (own j)) (h.marked j l q.2)
      ];
      not_map = λ j c l n m. elim (new_or_old j l n) [
        | inl q ↦ λ e. off_map c m (sym q.1 ∙ e)
        | inr q ↦ λ e. h.not_map j c l q.2 m (sym q.1 ∙ e)
      ];
      apart = λ i j l m n e. elim (new_or_old i l n) [
        | inl q ↦ elim (new_or_old j m (λ z. n (e ∙ z))) [
          | inl p ↦ q.0 ∙ sym p.0
          | inr p ↦ absurd (differs (own j) (h.marked j m p.2) (sym q.1 ∙ e ∙ p.1))
        ]
        | inr q ↦ elim (new_or_old j m (λ z. n (e ∙ z))) [
          | inl p ↦ absurd (differs (own i) (h.marked i l q.2) (sym p.1 ∙ sym e ∙ q.1))
          | inr p ↦ h.apart i j l m q.2 (sym q.1 ∙ e ∙ p.1)
        ]
      ];
    }
