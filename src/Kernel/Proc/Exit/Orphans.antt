-- ===== src/Kernel/Proc/Exit/Orphans.antt =====
-- What `kexit` leaves behind: a zombie, no orphans, and a parent that is awake.
use osn_mp.Common.{
  ℕ, zero, suc, ◌<◌, false, none, some, ◌≡◌, ◌≢◌, ◌⊎◌, inl, inr, refl, arith, ◌==◌, ltb,
  if◌then◌else◌, Bool-cases, lt→ltb, subst, sym, ap, ◌∙◌,
}
use osn_mp.Common.Int.{ℤ}
use osn_mp.Common.Arrays.{update, update_ne}
use osn_mp.Kernel.Proc.{Proc, zombie, Table, nproc, is_sleeping}
use osn_mp.Kernel.Proc.Sleep.{wake, wakeup}
use osn_mp.Kernel.Proc.Sleep.Wakeups.{wakeup_lem}
use osn_mp.Kernel.Proc.Exit.{
  is_child, adopt, reparent_first, reparent, parent_channel, exited, kexit,
}

module _ (address : ℕ → ℕ) (init : ℕ) where
  wakeup-parent : (chan : ℕ) (t : Table) (j : ℕ) → (wakeup chan t j).parent ≡ (t j).parent
  wakeup-parent chan t j = ground (arith, wakeup_lem chan t j)

  adopt-parent :
      (p i : ℕ) (t : Table) (j : ℕ)
      → (adopt address init p i t j).parent ≡ (
          if i == j
          then (if is_child p (t j).parent then some init else (t j).parent)
          else (t j).parent)
  adopt-parent p i t j = elim (Bool-cases (is_child p (t i).parent)) [
    | inl e ↦ rw e (
        ground (
          arith,
          wakeup-parent (address init) (update t i (record (t i) { parent = some init })) j,
        ))
    | inr e ↦ rw e (ground arith)
  ]

  -- `reparent` gives the children of `p` to `init`, and changes no other parent.
  pub reparent_first-parent :
      (n p : ℕ) (t : Table) (j : ℕ)
      → (reparent_first address init n p t j).parent ≡ (
          if ltb j n
          then (if is_child p (t j).parent then some init else (t j).parent)
          else (t j).parent)
  unfolding reparent_first
  reparent_first-parent zero p t j = ground arith
  reparent_first-parent (suc n) p t j =
      ground (
        arith,
        adopt-parent p n (reparent_first address init n p t) j,
        reparent_first-parent n p t j,
      )

-- A process that was woken, or one that nothing happened to.
abbrev Woken : Proc → Proc → Type 0
Woken p p' = ((p'.state ≡ p.state) × (p'.chan ≡ p.chan)) ⊎ (is_sleeping p'.state ≡ false)

Woken-wake : (chan : ℕ) (p p' : Proc) → Woken p p' → Woken p (wake chan p')
Woken-wake chan p p' w = ground arith

awake-wake :
    (p p' : Proc) (chan : ℕ) → Woken p p' → p.chan ≡ chan → is_sleeping (wake chan p').state ≡ false
awake-wake p p' chan w c = ground arith

Woken-wakeup : (chan : ℕ) (t : Table) (p : Proc) (j : ℕ) → Woken p (t j) → Woken p (wakeup chan t j)
Woken-wakeup chan t p j w = elim (Bool-cases (ltb j nproc)) [
  | inl e ↦
      let q : wakeup chan t j ≡ wake chan (t j) = ground (arith, wakeup_lem chan t j) in
      rw q (Woken-wake chan p (t j) w)
  | inr e ↦ let q : wakeup chan t j ≡ t j = ground (arith, wakeup_lem chan t j) in rw q w
]

module _ (address : ℕ → ℕ) (init : ℕ) where
  Woken-adopt :
      (p i : ℕ) (t : Table) (q : Proc) (j : ℕ)
      → Woken q (t j)
      → Woken q (adopt address init p i t j)
  Woken-adopt p i t q j w = elim (Bool-cases (is_child p (t i).parent)) [
    | inl e ↦ rw e (Woken-wakeup (address init) _ q j (ground arith))
    | inr e ↦ rw e w
  ]

  Woken-reparent_first :
      (n p : ℕ) (t : Table) (j : ℕ) → Woken (t j) (reparent_first address init n p t j)
  unfolding reparent_first
  Woken-reparent_first zero p t j = inl (refl, refl)
  Woken-reparent_first (suc n) p t j =
      Woken-adopt p n (reparent_first address init n p t) (t j) j (Woken-reparent_first n p t j)

  Woken-reparent : (p : ℕ) (t : Table) (j : ℕ) → Woken (t j) (reparent address init p t j)
  unfolding reparent
  Woken-reparent p t j = Woken-reparent_first nproc p t j

  reparent-parent :
      (p : ℕ) (t : Table) (j : ℕ)
      → j < nproc
      → (reparent address init p t j).parent
        ≡ (if is_child p (t j).parent then some init else (t j).parent)
  unfolding reparent
  reparent-parent p t j h = reparent_first-parent address init nproc p t j ∙ (rw (lt→ltb j nproc h))

  -- What `kexit` of the process `i` leaves behind.
  pub record Exited (i : ℕ) (status : ℤ) (now : ℕ) (t u : Table) : Type 0 where
    pub zombie_now : (u i).state ≡ zombie
    pub status_kept : (u i).xstate ≡ status
    pub ended_at : (u i).end_time ≡ now
    pub adopted :
        (j : ℕ)
        → j < nproc
        → (u j).parent ≡ (if is_child i (t j).parent then some init else (t j).parent)
    pub parent_awake :
        (q : ℕ)
        → (t i).parent ≡ some q
        → q < nproc
        → q ≢ i
        → (t q).chan ≡ address q
        → is_sleeping (u q).state ≡ false

  module _ (i : ℕ) (status : ℤ) (now : ℕ) (t : Table) (h : i < nproc) where
    abbrev adopted_by_init : Table
    adopted_by_init = reparent address init i t

    abbrev parent_woken : Table
    parent_woken = wakeup (parent_channel address init (adopted_by_init i).parent) adopted_by_init

    abbrev left : Table
    left = update parent_woken i (exited address init status now (parent_woken i))

    left-parent :
        (j : ℕ)
        → j < nproc
        → (left j).parent ≡ (if is_child i (t j).parent then some init else (t j).parent)
    left-parent j l =
        (ground arith)
        ∙ wakeup-parent address init (parent_channel address init (adopted_by_init i).parent)
            adopted_by_init j
        ∙ reparent-parent i t j l

    left-awake :
        (q : ℕ)
        → (t i).parent ≡ some q
        → q < nproc
        → q ≢ i
        → (t q).chan ≡ address q
        → is_sleeping (left q).state ≡ false
    left-awake q e l ne c =
        subst (λ p. is_sleeping p.state ≡ false) (sym seen)
          (awake-wake (t q) (adopted_by_init q) (address q) (Woken-reparent i t q) c)
      where
        par : (adopted_by_init i).parent ≡ some q
        par = reparent-parent i t i h ∙ rw e (ground arith)

        seen : left q ≡ wake (address q) (adopted_by_init q)
        seen =
            update_ne parent_woken i q _ (λ k. ne (sym k))
            ∙ ap (λ o. wakeup (parent_channel address init o) adopted_by_init q) par
            ∙ wakeup_lem (address q) adopted_by_init q
            ∙ rw (lt→ltb q nproc l)

    left-Exited : Exited i status now t left
    left-Exited = record {
      zombie_now = ground arith;
      status_kept = ground arith;
      ended_at = ground arith;
      adopted = left-parent;
      parent_awake = left-awake;
    }

  -- Where `kexit` does not panic, the process is a zombie with its exit state and time, every
  -- child of it in the table is a child of `initproc` and every other process keeps its parent, and
  -- a parent that slept on its own channel, as in `kwait`, does not sleep any more.
  pub kexit-Exited :
      (i : ℕ) (status : ℤ) (now : ℕ) (t : Table) {u : Table}
      → i < nproc
      → kexit address init i status now t ≡ some u
      → Exited i status now t u
  unfolding kexit
  kexit-Exited i status now t {u} h e =
      subst (Exited i status now t) (of_test e) (left-Exited i status now t h)
    where
      of_test :
          (if i == init then none else some (left i status now t h)) ≡ some u
          → left i status now t h ≡ u
      of_test e = elim (Bool-cases (i == init)) [
        | inl b ↦ let k : none ≡ some u = rw b at e in cc
        | inr b ↦ let k : some (left i status now t h) ≡ some u = rw b at e in cc
      ]
