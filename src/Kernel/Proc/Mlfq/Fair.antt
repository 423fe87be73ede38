-- ===== src/Kernel/Proc/Mlfq/Fair.antt =====
-- No process starves: round robin within a queue, and the boost between the queues.
use osn_mp.Common.{
  ℕ, suc, ◌+◌, ◌%◌, ◌<◌, true, false, Option, none, some, ◌≡◌, ◌≢◌, ◌⊎◌, inl, inr, arith, ap, subst,
  ◌∙◌, dec_lt,
}
use osn_mp.Kernel.Proc.{Table, nproc, is_runnable}
use osn_mp.Kernel.Proc.Loops.{for_each_lem}
use osn_mp.Kernel.Proc.Mlfq.{
  nmlfq, Scheduler, is_candidate, search_from, remember, pick, boost, mlfq_boost, boost_due,
  boost_step, schedule,
}
use osn_mp.Kernel.Proc.Mlfq.Pick.{
  Scanned, scan-Scanned, round_of, round_of_lem, search_from-Searched, Picked, IsIdle, pick-outcome,
  true-ne-false,
}

-- The next scan starts behind the process that was chosen, so it comes to `j` sooner.
closer :
    (start q j idx : ℕ) (t : Table)
    → Scanned 1 nproc start q t idx
    → j < nproc
    → is_candidate q (t j) ≡ true
    → idx ≢ j
    → round_of idx j < round_of start j
closer start q j idx t v h c ne = elim (dec_lt v.round (round_of start j)) [
  | yes l ↦ omega (arith, v.is_there, v.from)
  | no n ↦ elim (dec_lt (round_of start j) v.round) [
    | yes g ↦ absurd (true-ne-false c (skipped g))
    | no m ↦
        absurd
          (ne (v.is_there ∙ ap (λ r. (start + r) % nproc) (omega arith) ∙ round_of_lem start j h))
  ]
]
  where
    skipped : round_of start j < v.round → is_candidate q (t j) ≡ false
    skipped g =
        subst (λ l. is_candidate q (t l) ≡ false) (round_of_lem start j h)
          (v.first (round_of start j) (omega arith) g)

-- A queue is served `n` times while `j` is runnable in it and is not the one served. Between two
-- such choices the process table may change in any way, and other queues may be served.
pub data Waiting (j q : ℕ) : Scheduler → ℕ → Type 0 where
  done : {s : Scheduler} → Waiting j q s 0
  passed :
      {s s' : Scheduler} {n : ℕ} (idx : ℕ)
      → (pick s).0 ≡ some (idx, q)
      → is_candidate q (s.table j) ≡ true
      → idx ≢ j
      → s'.last q ≡ (pick s).1.last q
      → Waiting j q s' n
      → Waiting j q s (suc n)

pick-hit :
    (s : Scheduler) (idx q : ℕ)
    → (pick s).0 ≡ some (idx, q)
    → Scanned 1 nproc (s.last q) q s.table idx × ((pick s).1.last q ≡ idx)
unfolding pick
pick-hit s idx q h = (
  scan-Scanned nproc 1 (s.last q) q s.table idx (search_from-Searched nmlfq 0 s idx q h).hit,
  remember-last s idx q (search_from nmlfq 0 s) h,
)
  where
    remember-last :
        (s : Scheduler) (idx q : ℕ) (o : Option (ℕ × ℕ))
        → o ≡ some (idx, q)
        → (remember o s).last q ≡ idx
    remember-last s idx q none e = cc
    remember-last s idx q (some (i, r)) e = ground arith

Waiting-lt :
    {j q : ℕ} → j < nproc → {s : Scheduler} {n : ℕ} → Waiting j q s n → n < round_of (s.last q) j
Waiting-lt h done = omega arith
Waiting-lt {j} {q} h (passed {s} {s'} {n} idx e c ne l w) =
    let (scanned, at) = pick-hit s idx q e in
    let near : round_of idx j < round_of (s.last q) j =
      closer (s.last q) q j idx s.table scanned h c ne in
    let there : s'.last q ≡ idx = l ∙ at in
    omega (arith, subst (λ r. n < round_of r j) there (Waiting-lt h w))

-- A runnable process is passed over by its queue at most `NPROC - 1` times in a row: among any
-- `NPROC` choices from its queue while it is runnable there, one is the process itself.
pub Waiting-bounded : {j q : ℕ} {s : Scheduler} {n : ℕ} → j < nproc → Waiting j q s n → n < nproc
Waiting-bounded h w = omega (arith, Waiting-lt h w)

boosted :
    (t : Table) (j : ℕ)
    → j < nproc
    → is_runnable (t j).state ≡ true
    → (is_runnable (mlfq_boost t j).state ≡ true) × ((mlfq_boost t j).queue ≡ 0)
unfolding mlfq_boost
boosted t j h r = ground (arith, for_each_lem nproc boost t j)

-- When a boost is due and some process of the table is runnable, whatever its queue, the round of
-- the scheduler dispatches a process, and finds it in queue 0.
pub schedule-boost :
    (cur now : ℕ) (s : Scheduler) (j : ℕ)
    → boost_due cur s.last_boost ≡ true
    → j < nproc
    → is_runnable (s.table j).state ≡ true
    → (idx : ℕ) × ((schedule cur now s).0 ≡ some (idx, 0))
unfolding schedule
schedule-boost cur now s j due h r =
    let step : boost_step cur s ≡ record s { table = mlfq_boost s.table; last_boost = cur } =
      unfold boost_step in rw due in
    rw step (of_pick (pick-outcome (record s { table = mlfq_boost s.table; last_boost = cur })))
  where
    s' : Scheduler
    s' = record s { table = mlfq_boost s.table; last_boost = cur }

    of_pick :
        ((idx level : ℕ) × ((pick s').0 ≡ some (idx, level)) × Picked s' idx level (pick s').1)
          ⊎ ((pick s' ≡ (none, s')) × IsIdle s')
        → (idx : ℕ) × ((pick s').0 ≡ some (idx, 0))
    of_pick (inl (idx, level, e, v)) =
        let (r', z) = boosted s.table j h r in
        let low : level ≡ 0 = omega (arith, v.best j h r') in
        (idx, subst (λ l. (pick s').0 ≡ some (idx, l)) low e)
    of_pick (inr (e, idle)) =
        let (r', z) = boosted s.table j h r in absurd (omega (arith, idle j h r'))
