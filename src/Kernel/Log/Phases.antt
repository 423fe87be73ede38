-- ===== src/Kernel/Log/Phases.antt =====
-- The phases that a commit takes the disk through, and what recovery makes of each.
use osn_mp.Common.{
  ℕ, zero, suc, ◌+◌, ◌≤◌, ◌<◌, List, [], ◌∷◌, ◌++◌, Bool, true, false, ◌≡◌, ◌≢◌, ◌⊎◌, inl, inr,
  refl, arith, sym, ◌∙◌, ap, ap₂, subst, if◌then◌else◌,
}
use osn_mp.Common.Arrays.{update, update_self, update_ne}
use osn_mp.Kernel.Log.{
  bunpin, modify, Disk, Words, Write, Log, Cache, log_blocks, install_from, install_trans,
  read_head, head_of, initlog, zero_log, uncached,
}
use osn_mp.Kernel.Log.Loops.{
  apply, Along, Along-weaken, Along-append, apply-append, read_blocks_lem,
}

-- `b` is neither the header block nor one of the log's blocks.
abbrev pub IsHome : ℕ → ℕ → Type 0
IsHome start b = b < start ⊎ start + log_blocks < b

-- A transaction: the home blocks `block 0 … block (n - 1)` are to hold what `content` has for them,
-- on a disk that held `before`.
pub record Transaction : Type 0 where
  pub start : ℕ
  pub n : ℕ
  pub block : ℕ → ℕ
  pub content : Disk
  pub before : Disk

pub record IsFit (t : Transaction) : Type 0 where
  pub homes : (i : ℕ) → i < t.n → IsHome t.start (t.block i)
  pub fits : t.n ≤ log_blocks

-- No block of the transaction.
abbrev pub IsUntouched : Transaction → ℕ → Type 0
IsUntouched t b = (i : ℕ) → i < t.n → t.block i ≢ b

-- The header is clear and the home blocks are as before.
pub record Old (t : Transaction) (d : Disk) : Type 0 where
  pub clear : d t.start 0 ≡ 0
  pub same : (b : ℕ) → IsHome t.start b → d b ≡ t.before b

-- The header names the transaction and the log holds its blocks.
pub record Logged (t : Transaction) (d : Disk) : Type 0 where
  pub size : d t.start 0 ≡ t.n
  pub blocks : (i : ℕ) → i < t.n → d t.start (i + 1) ≡ t.block i
  pub copies : (i : ℕ) → i < t.n → d (t.start + i + 1) ≡ t.content (t.block i)
  pub kept : (b : ℕ) → IsHome t.start b → IsUntouched t b → d b ≡ t.before b

-- The header is clear and the home blocks are those of the transaction.
pub record New (t : Transaction) (d : Disk) : Type 0 where
  pub clear : d t.start 0 ≡ 0
  pub installed : (i : ℕ) → i < t.n → d (t.block i) ≡ t.content (t.block i)
  pub kept : (b : ℕ) → IsHome t.start b → IsUntouched t b → d b ≡ t.before b

-- `log` names the blocks of the transaction.
pub record Names (t : Transaction) (log : Log) : Type 0 where
  pub place : log.start ≡ t.start
  pub size : log.n ≡ t.n
  pub blocks : (i : ℕ) → i < t.n → log.block i ≡ t.block i

content-bunpin :
    (recovering : Bool) (c : Cache) (b : ℕ)
    → (if recovering then c else bunpin c b).content ≡ c.content
content-bunpin true c b = refl
content-bunpin false c b = refl

module _ (t : Transaction) (fit : IsFit t) where
  -- The first `k` blocks are installed.
  abbrev pub Installed : ℕ → Disk → Type 0
  Installed k d = (i : ℕ) → i < k → d (t.block i) ≡ t.content (t.block i)

  abbrev pub HasCopies : Disk → Type 0
  HasCopies content = (i : ℕ) → i < t.n → content (t.start + i + 1) ≡ t.content (t.block i)

  pub home-ne-start : (b : ℕ) → IsHome t.start b → b ≢ t.start
  home-ne-start b h = omega arith

  pub home-ne-copy : (b i : ℕ) → IsHome t.start b → i < t.n → b ≢ t.start + i + 1
  home-ne-copy b i h l = omega (arith, fit.fits)

  Logged-install :
      (d : Disk) (k : ℕ) (w : Words) → k < t.n → Logged t d → Logged t (update d (t.block k) w)
  Logged-install d k w l g =
      let home = fit.homes k l in
      record {
        size =
            ap (λ (v : Words). v 0) (update_ne d (t.block k) t.start w (home-ne-start _ home))
            ∙ g.size;
        blocks = λ i h.
            ap (λ (v : Words). v (i + 1)) (update_ne d (t.block k) t.start w (home-ne-start _ home))
            ∙ g.blocks i h;
        copies = λ i h.
            update_ne d (t.block k) (t.start + i + 1) w (home-ne-copy _ i home h) ∙ g.copies i h;
        kept = λ b h u. update_ne d (t.block k) b w (u k l) ∙ g.kept b h u;
      }

  Installed-install :
      (d : Disk) (k : ℕ)
      → Installed k d
      → Installed (k + 1) (update d (t.block k) (t.content (t.block k)))
  Installed-install d k h i l = ground (arith, h i)

  HasCopies-install :
      (content : Disk) (k : ℕ) (w : Words)
      → k < t.n
      → HasCopies content
      → HasCopies (update content (t.block k) w)
  HasCopies-install content k w l h i m =
      update_ne content (t.block k) (t.start + i + 1) w (home-ne-copy _ i (fit.homes k l) m) ∙ h i m

  -- The copying loop keeps the log readable, and installs the blocks in order.
  install_from-Logged :
      (recovering : Bool) (m k : ℕ) (log : Log) (c : Cache) (d : Disk)
      → k + m ≡ t.n
      → Names t log
      → HasCopies c.content
      → Logged t d
      → Installed k d
      → Along (Logged t) (install_from recovering m k log c).1 d
        × Installed t.n (apply (install_from recovering m k log c).1 d)
        × Logged t (apply (install_from recovering m k log c).1 d)
  unfolding install_from
  install_from-Logged recovering zero k log c d e names copies g done =
      (g, subst (λ (k : ℕ). Installed k d) (omega arith) done, g)
  install_from-Logged recovering (suc m) k log c d e names copies g done =
      let l : k < t.n = omega arith in
      let dst = log.block k in
      let w = c.content (log.start + k + 1) in
      let same : w ≡ t.content (t.block k) =
        ap (λ (s : ℕ). c.content (s + k + 1)) names.place ∙ copies k l in
      let d' : update d dst w ≡ update d (t.block k) (t.content (t.block k)) =
        ap₂ (λ (b : ℕ) (v : Words). update d b v) (names.blocks k l) same in
      let content : HasCopies (update c.content dst w) =
        subst (λ (b : ℕ). HasCopies (update c.content b w)) (sym (names.blocks k l))
          (HasCopies-install c.content k w l copies) in
      let rest =
        install_from-Logged recovering m (k + 1) log
          (if recovering then modify c dst w else bunpin (modify c dst w) dst) (update d dst w)
          (omega arith) names
          (subst HasCopies (sym (content-bunpin recovering (modify c dst w) dst)) content)
          (subst (Logged t) (sym d') (Logged-install d k _ l g))
          (subst (Installed (k + 1)) (sym d') (Installed-install d k done)) in
      ((g, rest.0), rest.1, rest.2)

  -- A header with a clear count ends the transaction.
  Old-clear : (d : Disk) (hb : Words) → hb 0 ≡ 0 → Old t d → Old t (update d t.start hb)
  Old-clear d hb z g = record {
    clear = ap (λ (v : Words). v 0) (update_self d t.start hb) ∙ z;
    same = λ b h. update_ne d t.start b hb (λ e. home-ne-start b h (sym e)) ∙ g.same b h;
  }

  New-clear :
      (d : Disk) (hb : Words)
      → hb 0 ≡ 0
      → Installed t.n d
      → ((b : ℕ) → IsHome t.start b → IsUntouched t b → d b ≡ t.before b)
      → New t (update d t.start hb)
  New-clear d hb z done kept = record {
    clear = ap (λ (v : Words). v 0) (update_self d t.start hb) ∙ z;
    installed = λ i l.
        update_ne d t.start (t.block i) hb (λ e. home-ne-start _ (fit.homes i l) (sym e))
        ∙ done i l;
    kept = λ b h u. update_ne d t.start b hb (λ e. home-ne-start b h (sym e)) ∙ kept b h u;
  }

  -- The log is in the middle of a transaction that it can finish, or has finished it.
  abbrev pub Committed : Disk → Type 0
  Committed d = Logged t d ⊎ New t d

  -- The writes of a recovery from the disk `d`.
  abbrev pub recovery : Disk → List Write
  recovery d = (initlog t.start d).2

  recovery-clear :
      (d : Disk) → d t.start 0 ≡ 0 → recovery d ≡ (t.start, update (d t.start) 0 0) ∷ []
  unfolding initlog head_of
  recovery-clear d z = rw z

  pub recovery-Old :
      (d : Disk) → Old t d → Along (Old t) (recovery d) d × Old t (apply (recovery d) d)
  recovery-Old d g =
      let g' = Old-clear d (update (d t.start) 0 0) refl g in
      rw (recovery-clear d g.clear) ((g, g'), g')

  pub recovery-New :
      (d : Disk) → New t d → Along (New t) (recovery d) d × New t (apply (recovery d) d)
  recovery-New d g =
      let g' = New-clear d (update (d t.start) 0 0) refl g.installed g.kept in
      rw (recovery-clear d g.clear) ((g, g'), g')

  pub install_trans-Logged :
      (recovering : Bool) (log : Log) (c : Cache) (d : Disk)
      → Names t log
      → HasCopies c.content
      → Logged t d
      → Along (Logged t) (install_trans recovering log c).1 d
        × Installed t.n (apply (install_trans recovering log c).1 d)
        × Logged t (apply (install_trans recovering log c).1 d)
  unfolding install_trans
  install_trans-Logged recovering log c d names copies g =
      install_from-Logged recovering log.n 0 log c d (omega (arith, names.size)) names copies g
        (λ i l. absurd (omega arith))

  -- An installation and the clear header behind it.
  pub install-New :
      (ws : List Write) (d : Disk) (hb : Words)
      → hb 0 ≡ 0
      → Along (Logged t) ws d × Installed t.n (apply ws d) × Logged t (apply ws d)
      → Along Committed (ws ++ (t.start, hb) ∷ []) d × New t (apply (ws ++ (t.start, hb) ∷ []) d)
  install-New ws d hb z (along, done, g) =
      let g' = New-clear (apply ws d) hb z done g.kept in
      (
        Along-append Committed ws ((t.start, hb) ∷ []) d
            (Along-weaken (Logged t) Committed ws d (λ e h. inl h) along) (inl g, inr g'),
        rw (apply-append ws ((t.start, hb) ∷ []) d) g',
      )

  read_head-Names :
      (log : Log) (c : Cache) → log.start ≡ t.start → Logged t c.content → Names t (read_head log c)
  unfolding read_head
  read_head-Names log c e g = rw e record {
    place = refl;
    size = g.size;
    blocks = λ i l.
        read_blocks_lem (c.content t.start 0) 0 (c.content t.start) log.block i (omega arith)
          (omega (arith, g.size))
        ∙ g.blocks i l;
  }

  pub recovery-Logged :
      (d : Disk) → Logged t d → Along Committed (recovery d) d × New t (apply (recovery d) d)
  unfolding initlog head_of
  recovery-Logged d g = install-New _ d _ refl (
      install_trans-Logged true (read_head (zero_log t.start) (uncached d)) (uncached d) d
        (read_head-Names (zero_log t.start) (uncached d) refl g) g.copies g)
