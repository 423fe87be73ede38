-- ===== src/Kernel/Log/Tests.antt =====
-- A transaction of one block on a small disk: crashes at each point, and the theorems at it.
use osn_mp.Common.{
  ℕ, zero, ◌≤◌, List, [], ◌∷◌, none, ◌≡◌, ◌≢◌, ◌⊎◌, inr, refl, arith, ◌==◌, take, if◌then◌else◌,
}
use osn_mp.Kernel.Log.{
  Disk, Log, Cache, log_blocks, zero_log, uncached, commit, begin_op, end_op, panic, log_write,
  initlog,
}
use osn_mp.Kernel.Log.Loops.{apply}
use osn_mp.Kernel.Log.Phases.{IsFit, Old, New}
use osn_mp.Kernel.Log.Crash.{reboots, transaction, commit-IsAtomic}
use osn_mp.Kernel.Log.Steps.{System, begins, Reach, here, next}
use osn_mp.Kernel.Log.Space.{IsIdle, Reach-log_write}

-- The log begins at block 2, and the block 40 is logged, with 7 in its words.
abbrev one_block : Log
one_block = record (zero_log 2) { outstanding = 1; n = 1; block = λ i. 40 }

abbrev blank : Disk
blank b w = 0

abbrev cached : Cache
cached = record { content = λ b w. if b == 40 then 7 else 0; pins = λ b. 0 }

abbrev after_crash : ℕ → List ℕ → ℕ
after_crash k js = reboots 2 js (apply (take k (commit one_block cached).2) blank) 40 3

lost : after_crash 1 [] ≡ 0
unfolding commit initlog
lost = refl

kept_by_the_log : after_crash 2 [] ≡ 7
unfolding commit initlog
kept_by_the_log = refl

kept_though_recovery_stops : after_crash 3 (0 ∷ 1 ∷ []) ≡ 7
unfolding commit initlog
kept_though_recovery_stops = refl

one_block-IsFit : IsFit (transaction one_block cached blank)
one_block-IsFit = record { homes = λ i l. inr (omega arith); fits = omega arith }

commit-IsAtomic_example :
    ((k : ℕ)
      → Old
          (transaction one_block cached blank)
          (reboots 2 (1 ∷ []) (apply (take k (commit one_block cached).2) blank))
        ⊎ New
            (transaction one_block cached blank)
            (reboots 2 (1 ∷ []) (apply (take k (commit one_block cached).2) blank)))
    × New
        (transaction one_block cached blank)
        (reboots 2 (1 ∷ []) (apply (commit one_block cached).2 blank))
commit-IsAtomic_example = commit-IsAtomic one_block cached blank one_block-IsFit refl (1 ∷ [])

abbrev idle : System
idle = record { log = zero_log 2; cache = uncached blank; budgets = [] }

idle-IsIdle : IsIdle idle
idle-IsIdle = record { empty = refl; quiet = refl; steady = refl; none_runs = refl }

abbrev one_runs : System
one_runs = record {
  log = record (zero_log 2) { outstanding = 1 };
  cache = uncached blank;
  budgets = 10 ∷ [];
}

one_runs-Reach : Reach idle one_runs
unfolding begin_op
one_runs-Reach = next here (begins idle (record (zero_log 2) { outstanding = 1 }) refl)

Reach-log_write_example :
    ((10 ≡ zero) ⊎ (log_write 40 one_runs.log one_runs.cache ≢ none))
    × (end_op one_runs.log ≢ panic)
    × (one_runs.log.n ≤ log_blocks)
Reach-log_write_example = Reach-log_write idle one_runs idle-IsIdle one_runs-Reach [] [] 10 40 refl
