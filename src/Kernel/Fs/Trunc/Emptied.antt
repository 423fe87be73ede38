-- ===== src/Kernel/Fs/Trunc/Emptied.antt =====
-- `itrunc` frees just the blocks of the file.
use osn_mp.Common.{
  ℕ, zero, suc, ◌+◌, ◌-◌, ◌≤◌, ◌<◌, true, false, some, ltb, ◌==◌, ◌≡◌, refl, arith, ap, sym, subst,
  ◌∙◌, Bool-cases, inl, inr,
}
use osn_mp.Common.Arrays.{update, update_ne}
use osn_mp.Kernel.Fs.{Store, Superblock}
use osn_mp.Kernel.Fs.Words.{word}
use osn_mp.Kernel.Fs.Bitmap.{bfree}
use osn_mp.Kernel.Fs.Bitmap.Blocks.{IsFormatted}
use osn_mp.Kernel.Fs.Inode.{Inode, ndirect, nindirect}
use osn_mp.Kernel.Fs.Inode.Mapped.{maxfile, held, IsFile}
use osn_mp.Kernel.Fs.Trunc.{free_slots, free_words}
use osn_mp.Kernel.Fs.Trunc.Freeing.{Freeing, Freeing-skip, Freeing-bfree}

module _ (sb : Superblock) (ip : Inode) (st : Store) (v : IsFormatted sb st)
    (f : IsFile sb ip st) where
  abbrev pub Freed : ℕ → Store → Type 0
  Freed i st' = Freeing sb (held ip st) st f.holds i st'

  held_slot : (i : ℕ) → i < ndirect → held ip st i ≡ ip.addrs i
  held_slot i l =
      let e : (i == maxfile) ≡ false = ground arith in
      let d : ltb i ndirect ≡ true = ground arith in rw (e, d) refl

  held-word :
      (j : ℕ)
      → j < nindirect
      → (ip.addrs ndirect == 0) ≡ false
      → held ip st (j + ndirect) ≡ word (st.content (ip.addrs ndirect)) j
  held-word j l z =
      let e : (j + ndirect == maxfile) ≡ false = ground arith in
      let d : ltb (j + ndirect) ndirect ≡ false = ground arith in
      let same : j + ndirect - ndirect ≡ j = omega arith in
      rw (e, d, z) (ap (word (st.content (ip.addrs ndirect))) same)

  skip_one : (i : ℕ) (st' : Store) → held ip st i ≡ 0 → Freed i st' → Freed (i + 1) st'
  skip_one i st' z g =
      Freeing-skip sb (held ip st) st f.holds i (i + 1) st' (omega arith)
        (λ k l m. let same : i ≡ k = omega arith in subst (λ (n : ℕ). held ip st n ≡ 0) same z) g

  pub free_slots-Freed :
      (m i : ℕ) (addrs : ℕ → ℕ) (st1 : Store)
      → i + m ≡ ndirect
      → ((k : ℕ) → i ≤ k → addrs k ≡ ip.addrs k)
      → ((k : ℕ) → k < i → addrs k ≡ 0)
      → Freed i st1
      → (a : ℕ → ℕ) × (st2 : Store) × (free_slots sb m i addrs st1 ≡ some (a, st2))
        × ((k : ℕ) → ndirect ≤ k → a k ≡ ip.addrs k)
        × ((k : ℕ) → k < ndirect → a k ≡ 0)
        × Freed ndirect st2
  unfolding free_slots
  free_slots-Freed zero i addrs st1 e same clear g =
      let at : i ≡ ndirect = omega arith in
      (
        addrs,
        st1,
        refl,
        (λ k l. same k (omega arith)),
        (λ k l. clear k (omega arith)),
        subst (λ (n : ℕ). Freed n st1) at g,
      )
  free_slots-Freed (suc m) i addrs st1 e same clear g = elim (Bool-cases (addrs i == 0)) [
    | inl z ↦
        let zi : addrs i ≡ 0 = ground arith in
        rw z (
          free_slots-Freed m (i + 1) addrs st1 (omega arith) (λ k l. same k (omega arith))
            (λ k l. elim (Bool-cases (ltb k i)) [
              | inl q ↦ clear k (ground arith)
              | inr q ↦ let eq : i ≡ k = ground arith in subst (λ (n : ℕ). addrs n ≡ 0) eq zi
            ])
            (skip_one i st1 (held_slot i (omega arith) ∙ sym (same i (omega arith)) ∙ zi) g))
    | inr z ↦
        let at : held ip st i ≡ addrs i = held_slot i (omega arith) ∙ sym (same i (omega arith)) in
        let (st2, q, g2) =
          Freeing-bfree sb (held ip st) st f.holds i st1 (omega arith)
            (λ n. let n' : addrs i ≡ 0 = sym at ∙ n in ground arith) g in
        let q' : bfree sb (addrs i) st1 ≡ some st2 =
          subst (λ (b : ℕ). bfree sb b st1 ≡ some st2) at q in
        rw (free_slots, z, q')
          (free_slots-Freed m (i + 1) (update addrs i 0) st2 (omega arith)
            (λ k l. update_ne addrs i k 0 (λ n. omega arith) ∙ same k (omega arith))
            (λ k l. elim (Bool-cases (i == k)) [
              | inl n ↦ rw n refl
              | inr n ↦ rw n (clear k (ground arith))
            ])
            g2)
  ]

  module _ (has : (ip.addrs ndirect == 0) ≡ false) where
    abbrev ind : ℕ
    ind = ip.addrs ndirect

    ind_kept : (i : ℕ) (st1 : Store) → Freed i st1 → st1.content ind ≡ st.content ind
    ind_kept i st1 g =
        g.blocks ind (λ c. f.holds.not_map maxfile c (omega arith) (λ z. ground arith))

    pub free_words-Freed :
        (m j : ℕ) (st1 : Store)
        → j + m ≡ nindirect
        → Freed (j + ndirect) st1
        → (st2 : Store) × (free_words sb m j ind st1 ≡ some st2) × Freed maxfile st2
    unfolding free_words
    free_words-Freed zero j st1 e g =
        let at : j + ndirect ≡ maxfile = omega arith in
        (st1, refl, subst (λ (n : ℕ). Freed n st1) at g)
    free_words-Freed (suc m) j st1 e g =
        let at : held ip st (j + ndirect) ≡ word (st1.content ind) j =
          held-word j (omega arith) has
          ∙ ap (λ blk. word blk j) (sym (ind_kept (j + ndirect) st1 g)) in
        let next : j + ndirect + 1 ≡ j + 1 + ndirect = omega arith in
        elim (Bool-cases (word (st1.content ind) j == 0)) [
          | inl z ↦
              let zi : word (st1.content ind) j ≡ 0 = ground arith in
              rw z (
                free_words-Freed m (j + 1) st1 (omega arith)
                  (subst (λ (n : ℕ). Freed n st1) next (skip_one (j + ndirect) st1 (at ∙ zi) g)))
          | inr z ↦
              let (st2, q, g2) =
                Freeing-bfree sb (held ip st) st f.holds (j + ndirect) st1 (omega arith)
                  (λ n. let n' : word (st1.content ind) j ≡ 0 = sym at ∙ n in ground arith) g in
              let q' : bfree sb (word (st1.content ind) j) st1 ≡ some st2 =
                subst (λ (b : ℕ). bfree sb b st1 ≡ some st2) at q in
              rw (free_words, z, q')
                (free_words-Freed m (j + 1) st2 (omega arith)
                  (subst (λ (n : ℕ). Freed n st2) next g2))
        ]
