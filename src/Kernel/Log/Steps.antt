-- ===== src/Kernel/Log/Steps.antt =====
-- The calls that processes make of the log of xv6/kernel/log.c, as steps.
use osn_mp.Common.{
  ℕ, suc, ◌+◌, ◌*◌, ◌≤◌, List, [], ◌∷◌, ◌++◌, Bool, true, false, some, ◌≡◌, refl, arith, length,
  All, length-append,
}
use osn_mp.Kernel.Log.{
  Log, Cache, log_blocks, max_op_blocks, begin_op, end_op, ended, end_commit, log_write, commit,
}

-- The log and, for each operation between its `begin_op` and its `end_op`, the number of blocks that
-- it may still add to the log.
pub record System : Type 0 where
  pub log : Log
  pub cache : Cache
  pub budgets : List ℕ

-- The calls that processes make, in any order. An operation adds at most MAXOPBLOCKS blocks.
pub data Step : System → System → Type 0 where
  begins :
      (s : System) (log : Log)
      → begin_op s.log ≡ some log
      → Step s (record s { log = log; budgets = max_op_blocks ∷ s.budgets })
  writes :
      (s : System) (before behind : List ℕ) (left left' b : ℕ) (log : Log) (cache : Cache)
      → s.budgets ≡ before ++ left ∷ behind
      → log_write b s.log s.cache ≡ some (log, cache)
      → log.n + left' ≡ s.log.n + left
      → Step s (record { log = log; cache = cache; budgets = before ++ left' ∷ behind })
  ends :
      (s : System) (before behind : List ℕ) (left : ℕ) (do_commit : Bool) (log : Log)
      → s.budgets ≡ before ++ left ∷ behind
      → end_op s.log ≡ ended do_commit log
      → Step s (record s { log = log; budgets = before ++ behind })
  commits :
      (s : System)
      → s.log.committing ≡ true
      → Step s
          (record s { log = end_commit (commit s.log s.cache).0; cache = (commit s.log s.cache).1 })

pub data Reach (s : System) : System → Type 0 where
  here : Reach s s
  next : {t u : System} → Reach s t → Step t u → Reach s u

-- The sum of the budgets.
abbrev pub total : List ℕ → ℕ
total [] = 0
total (x ∷ xs) = x + total xs

abbrev pub IsBudget : ℕ → Type 0
IsBudget left = left ≤ max_op_blocks

pub record IsRoomy (s : System) : Type 0 where
  pub counted : s.log.outstanding ≡ length s.budgets
  pub room : s.log.n + total s.budgets ≤ log_blocks
  pub limited : All IsBudget s.budgets
  pub alone : s.log.committing ≡ true → s.log.outstanding ≡ 0
  pub idle : s.log.committing ≡ false → s.log.outstanding ≡ 0 → s.log.n ≡ 0

pub total-le : (xs : List ℕ) → All IsBudget xs → total xs ≤ length xs * max_op_blocks
total-le [] h = omega arith
total-le (x ∷ xs) (h, hs) = omega (arith, total-le xs hs)

-- An operation among the others, and the others alone.
pub All-middle :
    (xs : List ℕ) (x : ℕ) (ys : List ℕ)
    → All IsBudget (xs ++ x ∷ ys)
    → IsBudget x × All IsBudget (xs ++ ys)
All-middle [] x ys h = h
All-middle (z ∷ xs) x ys (h, hs) = let (a, b) = All-middle xs x ys hs in (a, (h, b))

pub All-insert :
    (xs : List ℕ) (x : ℕ) (ys : List ℕ)
    → IsBudget x
    → All IsBudget (xs ++ ys)
    → All IsBudget (xs ++ x ∷ ys)
All-insert [] x ys h hs = (h, hs)
All-insert (z ∷ xs) x ys h (k, hs) = (k, All-insert xs x ys h hs)

pub total-middle : (xs : List ℕ) (x : ℕ) (ys : List ℕ) → total (xs ++ x ∷ ys) ≡ x + total (xs ++ ys)
total-middle [] x ys = refl
total-middle (z ∷ xs) x ys = omega (arith, total-middle xs x ys)

pub length-middle :
    (xs : List ℕ) (x : ℕ) (ys : List ℕ) → length (xs ++ x ∷ ys) ≡ suc (length (xs ++ ys))
length-middle xs x ys = omega (arith, length-append {0} xs (x ∷ ys), length-append {0} xs ys)
