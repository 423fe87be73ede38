-- ===== src/Kernel/Log/Crash.antt =====
-- A commit is atomic: whenever the machine stops, and however often it stops again while it recovers.
use osn_mp.Common.{
  ℕ, zero, suc, ◌+◌, ◌<◌, List, [], ◌∷◌, ◌++◌, true, false, ◌≡◌, ◌⊎◌, inl, inr, refl, arith, sym,
  ◌∙◌, ap, ap₂, subst, take, append_assoc, ltb, Bool-cases,
}
use osn_mp.Common.Arrays.{update, update_self, update_ne}
use osn_mp.Kernel.Log.{
  Disk, Words, Write, Log, Cache, write_log_from, write_log, head_of, write_head, cleared, modify,
  commit, initlog, install_trans,
}
use osn_mp.Kernel.Log.Loops.{
  apply, Along, Along-take, Along-weaken, Along-append, apply-append, write_blocks_lem,
  write_blocks-below,
}
use osn_mp.Kernel.Log.Phases.{
  Transaction, IsFit, Old, Logged, New, Names, Committed, recovery, recovery-Old, recovery-New,
  recovery-Logged, install_trans-Logged, install-New, home-ne-copy, home-ne-start,
}

-- The disk after a recovery that is broken off behind `j` writes, for each `j` of the list, and one
-- that is not.
abbrev pub reboots : ℕ → List ℕ → Disk → Disk
reboots start [] d = apply (initlog start d).2 d
reboots start (j ∷ js) d = reboots start js (apply (take j (initlog start d).2) d)

add_cancel : (s k i : ℕ) → s + k + 1 ≡ s + i + 1 → k ≡ i
add_cancel s k i h = omega arith

module _ (t : Transaction) (fit : IsFit t) where
  reboots-Old : (js : List ℕ) (d : Disk) → Old t d → Old t (reboots t.start js d)
  reboots-Old [] d g = (recovery-Old t fit d g).1
  reboots-Old (j ∷ js) d g =
      reboots-Old js (apply (take j (recovery t fit d)) d)
        (Along-take (Old t) (recovery t fit d) d j (recovery-Old t fit d g).0)

  reboots-Committed : (js : List ℕ) (d : Disk) → Committed t fit d → New t (reboots t.start js d)
  reboots-Committed [] d (inl g) = (recovery-Logged t fit d g).1
  reboots-Committed [] d (inr g) = (recovery-New t fit d g).1
  reboots-Committed (j ∷ js) d (inl g) =
      reboots-Committed js (apply (take j (recovery t fit d)) d)
        (Along-take (Committed t fit) (recovery t fit d) d j (recovery-Logged t fit d g).0)
  reboots-Committed (j ∷ js) d (inr g) =
      reboots-Committed js (apply (take j (recovery t fit d)) d) (
        Along-take (Committed t fit) (recovery t fit d) d j (
          Along-weaken (New t) (Committed t fit) (recovery t fit d) d (λ e h. inr h)
            (recovery-New t fit d g).0))

  -- The first `k` blocks are copied to the log.
  abbrev Copied : ℕ → Disk → Type 0
  Copied k d = (i : ℕ) → i < k → d (t.start + i + 1) ≡ t.content (t.block i)

  abbrev HasContent : Disk → Type 0
  HasContent content = (i : ℕ) → i < t.n → content (t.block i) ≡ t.content (t.block i)

  -- What a round of `write_log` does to the disk and to the cache.
  Old-copy :
      (d : Disk) (k : ℕ) (w : Words) → k < t.n → Old t d → Old t (update d (t.start + k + 1) w)
  Old-copy d k w l g = record {
    clear =
        ap (λ (v : Words). v 0) (update_ne d (t.start + k + 1) t.start w (omega arith)) ∙ g.clear;
    same = λ b h.
        update_ne d (t.start + k + 1) b w (λ e. home-ne-copy t fit b k h l (sym e)) ∙ g.same b h;
  }

  Copied-copy :
      (d : Disk) (k : ℕ)
      → Copied k d
      → Copied (k + 1) (update d (t.start + k + 1) (t.content (t.block k)))
  Copied-copy d k h i l = ground (arith, h i, add_cancel (t.start) k i)

  HasContent-copy :
      (content : Disk) (k : ℕ) (w : Words)
      → k < t.n
      → HasContent content
      → HasContent (update content (t.start + k + 1) w)
  HasContent-copy content k w l h i m =
      update_ne content (t.start + k + 1) (t.block i) w
        (λ e. home-ne-copy t fit (t.block i) k (fit.homes i m) l (sym e))
      ∙ h i m

  write_log_from-Old :
      (m k : ℕ) (log : Log) (c : Cache) (d : Disk)
      → k + m ≡ t.n
      → Names t log
      → HasContent c.content
      → Copied k c.content
      → Old t d
      → Copied k d
      → Along (Old t) (write_log_from m k log c).1 d
        × Copied t.n (apply (write_log_from m k log c).1 d)
        × Copied t.n (write_log_from m k log c).0.content
        × Old t (apply (write_log_from m k log c).1 d)
  unfolding write_log_from
  write_log_from-Old zero k log c d e names content cached g done = (
    g,
    subst (λ (k : ℕ). Copied k d) (omega arith) done,
    subst (λ (k : ℕ). Copied k c.content) (omega arith) cached,
    g,
  )
  write_log_from-Old (suc m) k log c d e names content cached g done =
      let l : k < t.n = omega arith in
      let to = log.start + k + 1 in
      let w = c.content (log.block k) in
      let same : w ≡ t.content (t.block k) = ap c.content (names.blocks k l) ∙ content k l in
      let moved : (d : Disk) → update d to w ≡ update d (t.start + k + 1) (t.content (t.block k)) =
        λ d. ap₂ (λ (s : ℕ) (v : Words). update d (s + k + 1) v) names.place same in
      let rest =
        write_log_from-Old m (k + 1) log (modify c to w) (update d to w) (omega arith) names
          (subst HasContent (sym (moved c.content)) (HasContent-copy c.content k _ l content))
          (subst (Copied (k + 1)) (sym (moved c.content)) (Copied-copy c.content k cached))
          (subst (Old t) (sym (moved d)) (Old-copy d k _ l g))
          (subst (Copied (k + 1)) (sym (moved d)) (Copied-copy d k done)) in
      ((g, rest.0), rest.1, rest.2, rest.3)

  -- The header written: the point of no return.
  Logged-head :
      (log : Log) (d : Disk) (hb : Words)
      → Names t log
      → Old t d
      → Copied t.n d
      → Logged t (update d t.start (head_of log hb))
  unfolding head_of
  Logged-head log d hb names g copied = record {
    size =
        ap (λ (v : Words). v 0) (update_self d t.start _)
        ∙ (write_blocks-below log.n 0 log.block (update hb 0 log.n) 0 (omega arith) ∙ names.size);
    blocks = λ i l.
        ap (λ (v : Words). v (i + 1)) (update_self d t.start _)
        ∙ (write_blocks_lem log.n 0 log.block (update hb 0 log.n) i (omega arith)
              (omega (arith, names.size))
            ∙ names.blocks i l);
    copies = λ i l. update_ne d t.start (t.start + i + 1) _ (omega arith) ∙ copied i l;
    kept = λ b h u. update_ne d t.start b _ (λ e. home-ne-start t fit b h (sym e)) ∙ g.same b h;
  }

-- What `commit` is to do with `log` and the cache `c`, on the disk `d`.
abbrev pub transaction : Log → Cache → Disk → Transaction
transaction log c d = record {
  start = log.start;
  n = log.n;
  block = log.block;
  content = c.content;
  before = d;
}

module _ (log : Log) (c : Cache) (d : Disk) (fit : IsFit (transaction log c d))
    (clear : d log.start 0 ≡ 0) where
  abbrev t : Transaction
  t = transaction log c d

  abbrev Phase : Disk → Type 0
  Phase e = Old t e ⊎ Committed t fit e

  start-Old : Old t d
  start-Old = record { clear = clear; same = λ b h. refl }

  log-Names : Names t log
  log-Names = record { place = refl; size = refl; blocks = λ i l. refl }

  -- The writes of `write_log`, the header, those of `install_trans` and the clear header.
  abbrev in_order : List Write → Words → List Write → Words → List Write
  in_order copies hb installs last =
      ((copies ++ (log.start, hb) ∷ []) ++ installs) ++ (log.start, last) ∷ []

  in_order-Along :
      (copies : List Write) (hb : Words) (installs : List Write) (last : Words)
      → Along (Old t) copies d
      → Old t (apply copies d)
      → Along
          (Committed t fit)
          (installs ++ (log.start, last) ∷ [])
          (update (apply copies d) log.start hb)
        × New t (apply (installs ++ (log.start, last) ∷ []) (update (apply copies d) log.start hb))
      → Along Phase (in_order copies hb installs last) d
        × New t (apply (in_order copies hb installs last) d)
  in_order-Along copies hb installs last old g (along, new) =
      let rest = installs ++ (log.start, last) ∷ [] in
      simp append_assoc (
        Along-append Phase copies ((log.start, hb) ∷ rest) d
            (Along-weaken (Old t) Phase copies d (λ e h. inl h) old)
            (inl g, Along-weaken (Committed t fit) Phase rest _ (λ e h. inr h) along),
        rw (apply-append copies ((log.start, hb) ∷ rest) d) new,
      )

  commit-Along :
      ltb 0 log.n ≡ true → Along Phase (commit log c).2 d × New t (apply (commit log c).2 d)
  unfolding commit write_log write_head
  commit-Along some_blocks =
      let w1 = write_log log c in
      let (old, copied, cached, g1) =
        write_log_from-Old t fit log.n 0 log c d (omega arith) log-Names (λ i l. refl)
          (λ i l. absurd (omega arith)) start-Old (λ i l. absurd (omega arith)) in
      let hb = head_of log (w1.0.content log.start) in
      let c2 = modify w1.0 log.start hb in
      let w3 = install_trans false log c2 in
      rw some_blocks (
        in_order-Along w1.1 hb w3.1 (head_of (cleared log) (w3.0.content log.start)) old g1 (
          install-New t fit w3.1 _ _ (unfold head_of in refl) (
            install_trans-Logged t fit false log c2 _ log-Names
              (λ i l.
                update_ne w1.0.content log.start (log.start + i + 1) hb (omega arith) ∙ cached i l)
              (Logged-head t fit log _ (w1.0.content log.start) log-Names g1 copied))))

  commit-none : ltb 0 log.n ≡ false → (commit log c).2 ≡ []
  unfolding commit
  commit-none none_logged = rw none_logged

  start-New : ltb 0 log.n ≡ false → New t d
  start-New none_logged = record {
    clear = clear;
    installed = λ i l. absurd (ground arith);
    kept = λ b h u. refl;
  }

  commit-Phase : Along Phase (commit log c).2 d × New t (apply (commit log c).2 d)
  commit-Phase = elim (Bool-cases (ltb 0 log.n)) [
    | inl e ↦ commit-Along e
    | inr e ↦ rw (commit-none e) (inl start-Old, start-New e)
  ]

  reboots-Phase :
      (js : List ℕ) (e : Disk)
      → Phase e
      → Old t (reboots log.start js e) ⊎ New t (reboots log.start js e)
  reboots-Phase js e (inl g) = inl (reboots-Old t fit js e g)
  reboots-Phase js e (inr g) = inr (reboots-Committed t fit js e g)

  -- Where the logged blocks are distinct from the log's own and fit into it, and the header on the
  -- disk is clear: stop the machine behind any number `k` of the writes of a commit, and then any
  -- number of times while it recovers, and let a recovery finish. The header is clear, and either
  -- every block outside the log is as it was before the commit, or each logged block is as it was in
  -- the cache and every other block outside the log as before. Behind all the writes of the commit
  -- it is the latter.
  pub commit-IsAtomic :
      (js : List ℕ)
      → ((k : ℕ)
          → Old t (reboots log.start js (apply (take k (commit log c).2) d))
            ⊎ New t (reboots log.start js (apply (take k (commit log c).2) d)))
        × New t (reboots log.start js (apply (commit log c).2 d))
  commit-IsAtomic js =
      let (along, new) = commit-Phase in
      (
        λ k. reboots-Phase js _ (Along-take Phase (commit log c).2 d k along),
        reboots-Committed t fit js (apply (commit log c).2 d) (inr new),
      )
