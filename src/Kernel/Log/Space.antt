-- ===== src/Kernel/Log/Space.antt =====
-- The log has room for what the operations that `begin_op` lets in may write: `log_write` does not
-- panic, nor does `end_op`, in any order of the calls of any number of processes.
use osn_mp.Common.{
  ℕ, zero, suc, ◌+◌, ◌≤◌, ◌<◌, List, [], ◌∷◌, ◌++◌, Bool, true, false, none, some, ◌≡◌, ◌≢◌, ◌⊎◌,
  inl, inr, refl, arith, length, All, sym, subst, ap, ◌∙◌,
}
use osn_mp.Kernel.Log.{
  Log, Cache, log_blocks, max_op_blocks, begin_op, end_op, panic, ended, end_commit, log_write,
  commit,
}
use osn_mp.Kernel.Log.Steps.{
  begins, writes, ends, commits, here, next, System, Step, Reach, total, IsBudget, IsRoomy,
  total-le, All-middle, All-insert, total-middle, length-middle,
}

log_write-fields :
    (b : ℕ) (log : Log) (c : Cache) (log' : Log) (c' : Cache)
    → log_write b log c ≡ some (log', c')
    → (log'.outstanding ≡ log.outstanding)
      × (log'.committing ≡ log.committing)
      × (log.n ≤ log'.n)
      × (log'.n ≤ log.n + 1)
      × (0 < log.outstanding)
unfolding log_write
log_write-fields b log c log' c' e = ground arith

commit-n : (log : Log) (c : Cache) → (commit log c).0.n ≡ 0
unfolding commit
commit-n log c = ground arith

commit-outstanding : (log : Log) (c : Cache) → (commit log c).0.outstanding ≡ log.outstanding
unfolding commit
commit-outstanding log c = ground arith

begin-IsRoomy :
    (s : System) (log : Log)
    → begin_op s.log ≡ some log
    → IsRoomy s
    → IsRoomy (record s { log = log; budgets = max_op_blocks ∷ s.budgets })
unfolding begin_op
begin-IsRoomy s log e v =
    let le = total-le s.budgets v.limited in
    record {
      counted = ground (arith, v.counted);
      room = ground (arith, v.counted, v.room);
      limited = (omega arith, v.limited);
      alone = ground arith;
      idle = ground arith;
    }

module _ (s : System) (v : IsRoomy s) (before behind : List ℕ) (left : ℕ)
    (e : s.budgets ≡ before ++ left ∷ behind) where
  all : IsBudget left × All IsBudget (before ++ behind)
  all = All-middle before left behind (subst (All IsBudget) e v.limited)

  sum : total s.budgets ≡ left + total (before ++ behind)
  sum = ap total e ∙ total-middle before left behind

  many : s.log.outstanding ≡ suc (length (before ++ behind))
  many = v.counted ∙ (ap length e ∙ length-middle before left behind)

  write-IsRoomy :
      (left' b : ℕ) (log : Log) (c : Cache)
      → log_write b s.log s.cache ≡ some (log, c)
      → log.n + left' ≡ s.log.n + left
      → IsRoomy (record { log = log; cache = c; budgets = before ++ left' ∷ behind })
  write-IsRoomy left' b log c w spent =
      let (same, steady, more, less, some_run) = log_write-fields b s.log s.cache log c w in
      let sum' = total-middle before left' behind in
      record {
        counted = same ∙ (many ∙ sym (length-middle before left' behind));
        room = omega (arith, sum, sum', v.room);
        limited = All-insert before left' behind (omega (arith, all.0)) all.1;
        alone = λ h. same ∙ v.alone (sym steady ∙ h);
        idle = λ h z. absurd (omega arith);
      }

  end-IsRoomy :
      (do_commit : Bool) (log : Log)
      → end_op s.log ≡ ended do_commit log
      → IsRoomy (record s { log = log; budgets = before ++ behind })
  unfolding end_op
  end-IsRoomy do_commit log w = record {
    counted = ground (arith, many);
    room = ground (arith, sum, v.room);
    limited = all.1;
    alone = ground arith;
    idle = ground arith;
  }

  -- The log has room for each block that the operation may still add.
  log_write-total : (b : ℕ) → 0 < left → log_write b s.log s.cache ≢ none
  unfolding log_write
  log_write-total b some_left = ground (arith, many, sum, v.room)

  end_op-total : end_op s.log ≢ panic
  unfolding end_op
  end_op-total = ground (arith, many, v.alone)

commit-IsRoomy :
    (s : System)
    → s.log.committing ≡ true
    → IsRoomy s
    → IsRoomy
        (record s { log = end_commit (commit s.log s.cache).0; cache = (commit s.log s.cache).1 })
unfolding end_commit
commit-IsRoomy s c v =
    let none_left = commit-outstanding s.log s.cache ∙ v.alone c in
    let count = total-le s.budgets v.limited in
    record {
      counted = omega (arith, none_left, v.alone c, v.counted);
      room = omega (arith, commit-n s.log s.cache, v.alone c, v.counted, count);
      limited = v.limited;
      alone = λ h. none_left;
      idle = λ h z. commit-n s.log s.cache;
    }

Step-IsRoomy : {s u : System} → Step s u → IsRoomy s → IsRoomy u
Step-IsRoomy (begins s log e) v = begin-IsRoomy s log e v
Step-IsRoomy (writes s before behind left left' b log c e w spent) v =
    write-IsRoomy s v before behind left e left' b log c w spent
Step-IsRoomy (ends s before behind left do_commit log e w) v =
    end-IsRoomy s v before behind left e do_commit log w
Step-IsRoomy (commits s c) v = commit-IsRoomy s c v

Reach-IsRoomy : {s u : System} → IsRoomy s → Reach s u → IsRoomy u
Reach-IsRoomy v here = v
Reach-IsRoomy v (next r st) = Step-IsRoomy st (Reach-IsRoomy v r)

-- A log with nothing in it, no operation running and none committing.
pub record IsIdle (s : System) : Type 0 where
  pub empty : s.log.n ≡ 0
  pub quiet : s.log.outstanding ≡ 0
  pub steady : s.log.committing ≡ false
  pub none_runs : s.budgets ≡ []

IsIdle-IsRoomy : (s : System) → IsIdle s → IsRoomy s
IsIdle-IsRoomy s v = record {
  counted = omega (arith, v.quiet, ap length v.none_runs);
  room = omega (arith, v.empty, ap total v.none_runs);
  limited = subst (All IsBudget) (sym v.none_runs) tt;
  alone = λ h. v.quiet;
  idle = λ h z. v.empty;
}

module _ (s u : System) (idle : IsIdle s) (r : Reach s u) where
  reached : IsRoomy u
  reached = Reach-IsRoomy (IsIdle-IsRoomy s idle) r

  -- From an idle log, whatever calls processes make, for an operation that runs: `log_write` of any
  -- block does not panic if the operation may still add a block, `end_op` does not panic, and the
  -- log holds at most LOGBLOCKS blocks.
  pub Reach-log_write :
      (before behind : List ℕ) (left b : ℕ)
      → u.budgets ≡ before ++ left ∷ behind
      → ((left ≡ 0) ⊎ (log_write b u.log u.cache ≢ none))
        × (end_op u.log ≢ panic)
        × (u.log.n ≤ log_blocks)
  Reach-log_write before behind zero b e =
      (inl refl, end_op-total u reached before behind zero e, omega (arith, reached.room))
  Reach-log_write before behind (suc left) b e = (
    inr (log_write-total u reached before behind (suc left) e b (omega arith)),
    end_op-total u reached before behind (suc left) e,
    omega (arith, reached.room),
  )

  -- From an idle log, whatever calls processes make: where no operation runs and none commits, the
  -- log is empty and `begin_op` lets the next operation in.
  pub Reach-begin_op :
      u.budgets ≡ [] → u.log.committing ≡ false → (u.log.n ≡ 0) × (begin_op u.log ≢ none)
  unfolding begin_op
  Reach-begin_op e c =
      let z : u.log.outstanding ≡ 0 = reached.counted ∙ ap length e in
      let n : u.log.n ≡ 0 = reached.idle c z in (n, ground arith)
