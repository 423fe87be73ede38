-- ===== src/Kernel/Proc/Sleep/Wakeups.antt =====
-- No wakeup is lost between `sleep_prepare` and `sleep`, whatever other processes do meanwhile.
use osn_mp.Common.{
  ℕ, ◌<◌, List, [], ◌∷◌, Bool, true, false, ◌||◌, not, Option, none, some, ◌≡◌, ◌≢◌, refl, arith,
  ◌==◌, if◌then◌else◌, ltb,
}
use osn_mp.Kernel.Proc.{Proc, running, Table, nproc, is_sleeping, find_from}
use osn_mp.Kernel.Proc.Loops.{for_each_lem, find_from-some, find_from-first, find_from-none}
use osn_mp.Kernel.Proc.Sleep.{sleep_prepare, sleep, wake, wakeup, kill, kill_found, kkill}

pub wakeup_lem :
    (chan : ℕ) (t : Table) (j : ℕ)
    → wakeup chan t j ≡ (if ltb j nproc then wake chan (t j) else t j)
unfolding wakeup
wakeup_lem chan t j = for_each_lem nproc (wake chan) t j

-- What other processes may do to the table.
pub data Event : Type 0 where
  wakes : (chan : ℕ) → Event
  kills : (pid : ℕ) → Event

abbrev pub happen : Event → Table → Table
happen (wakes chan) t = wakeup chan t
happen (kills pid) t = (kkill pid t).0

abbrev pub all_happen : List Event → Table → Table
all_happen [] t = t
all_happen (e ∷ es) t = all_happen es (happen e t)

abbrev pub is_wake : ℕ → Event → Bool
is_wake chan (wakes c) = c == chan
is_wake chan (kills pid) = false

abbrev pub has_wake : ℕ → List Event → Bool
has_wake chan [] = false
has_wake chan (e ∷ es) = is_wake chan e || has_wake chan es

abbrev pub is_kill : ℕ → Event → Bool
is_kill pid (wakes c) = false
is_kill pid (kills q) = q == pid

abbrev pub has_kill : ℕ → List Event → Bool
has_kill pid [] = false
has_kill pid (e ∷ es) = is_kill pid e || has_kill pid es

or_assoc : (a b c : Bool) → (a || b) || c ≡ a || (b || c)
or_assoc a b c = ground arith

or_regroup : (w a b c d : Bool) → w || ((a || b) || (c || d)) ≡ (w || (a || c)) || (b || d)
or_regroup w a b c d = ground arith

-- What an event means for one process, if no other has its identifier.
abbrev Effect : Event → Proc → Proc → Type 0
Effect (wakes c) p p' = p' ≡ wake c p
Effect (kills q) p p' = p' ≡ (if q == p.pid then kill p else p)

abbrev pub HasOwnPid : Table → ℕ → Type 0
HasOwnPid t i = (j : ℕ) → j < nproc → (t j).pid ≡ (t i).pid → j ≡ i

kill_found-Effect :
    (q : ℕ) (t : Table) (i : ℕ) (o : Option ℕ)
    → i < nproc
    → HasOwnPid t i
    → find_from nproc 0 (λ p. p.pid == q) t ≡ o
    → Effect (kills q) (t i) ((kill_found t o).0 i)
kill_found-Effect q t i none h own e =
    ground (arith, find_from-none nproc 0 (λ (p : Proc). p.pid == q) t i e)
kill_found-Effect q t i (some j) h own e = ground (
  arith,
  own j,
  find_from-some nproc 0 (λ (p : Proc). p.pid == q) t j e,
  find_from-first nproc 0 (λ (p : Proc). p.pid == q) t j i e,
)

happen-Effect :
    (e : Event) (t : Table) (i : ℕ) → i < nproc → HasOwnPid t i → Effect e (t i) (happen e t i)
unfolding kkill
happen-Effect (wakes c) t i h own = ground (arith, wakeup_lem c t i)
happen-Effect (kills q) t i h own = kill_found-Effect q t i _ h own refl

kill_found-pid : (t : Table) (o : Option ℕ) (j : ℕ) → ((kill_found t o).0 j).pid ≡ (t j).pid
kill_found-pid t none j = refl
kill_found-pid t (some i) j = ground arith

happen-pid : (e : Event) (t : Table) (j : ℕ) → (happen e t j).pid ≡ (t j).pid
unfolding kkill
happen-pid (wakes c) t j = ground (arith, wakeup_lem c t j)
happen-pid (kills q) t j = kill_found-pid t _ j

happen-HasOwnPid : (e : Event) (t : Table) (i : ℕ) → HasOwnPid t i → HasOwnPid (happen e t) i
happen-HasOwnPid e t i own j h q = own j h (omega (arith, happen-pid e t j, happen-pid e t i))

all_happen-HasOwnPid :
    (es : List Event) (t : Table) (i : ℕ) → HasOwnPid t i → HasOwnPid (all_happen es t) i
all_happen-HasOwnPid [] t i own = own
all_happen-HasOwnPid (e ∷ es) t i own =
    all_happen-HasOwnPid es (happen e t) i (happen-HasOwnPid e t i own)

sleep-pid : (mlfq : Bool) (t : Table) (i j : ℕ) → (sleep mlfq i t j).pid ≡ (t j).pid
unfolding sleep
sleep-pid mlfq t i j = ground arith

sleep-HasOwnPid : (mlfq : Bool) (t : Table) (i : ℕ) → HasOwnPid t i → HasOwnPid (sleep mlfq i t) i
sleep-HasOwnPid mlfq t i own j h q =
    own j h (omega (arith, sleep-pid mlfq t i j, sleep-pid mlfq t i i))

-- Between the two calls: the process runs, and its channel is cleared by the first wakeup.
record Preparing (chan pid : ℕ) (woken : Bool) (p : Proc) : Type 0 where
  runs : p.state ≡ running
  ident : p.pid ≡ pid
  set : p.chan ≡ (if woken then 0 else chan)

-- Behind `sleep`: it sleeps on its channel if nothing has woken it.
record Resting (chan pid : ℕ) (woken : Bool) (p : Proc) : Type 0 where
  ident : p.pid ≡ pid
  rests : is_sleeping p.state ≡ not woken
  set : woken ≡ false → p.chan ≡ chan

module _ (chan pid : ℕ) (nonzero : chan ≢ 0) where
  Preparing-Effect :
      (woken : Bool) (e : Event) {p p' : Proc}
      → Effect e p p'
      → Preparing chan pid woken p
      → Preparing chan pid (woken || is_wake chan e) p'
  Preparing-Effect true (wakes c) f v = ground arith
  Preparing-Effect false (wakes c) f v = ground arith
  Preparing-Effect true (kills q) f v = ground arith
  Preparing-Effect false (kills q) f v = ground arith

  Resting-Effect :
      (woken : Bool) (e : Event) {p p' : Proc}
      → Effect e p p'
      → Resting chan pid woken p
      → Resting chan pid (woken || (is_wake chan e || is_kill pid e)) p'
  Resting-Effect true (wakes c) f v = ground arith
  Resting-Effect false (wakes c) f v = ground (arith, v.set refl)
  Resting-Effect true (kills q) f v = ground arith
  Resting-Effect false (kills q) f v = ground (arith, v.set refl)

  module _ (i : ℕ) (in_table : i < nproc) where
    Preparing-all :
        (es : List Event) (woken : Bool) (t : Table)
        → HasOwnPid t i
        → Preparing chan pid woken (t i)
        → Preparing chan pid (woken || has_wake chan es) (all_happen es t i)
    Preparing-all [] true t own v = v
    Preparing-all [] false t own v = v
    Preparing-all (e ∷ es) woken t own v =
        rw (← or_assoc woken (is_wake chan e) (has_wake chan es)) (
          Preparing-all es (woken || is_wake chan e) (happen e t) (happen-HasOwnPid e t i own)
            (Preparing-Effect woken e (happen-Effect e t i in_table own) v))

    Resting-all :
        (es : List Event) (woken : Bool) (t : Table)
        → HasOwnPid t i
        → Resting chan pid woken (t i)
        → Resting chan pid (woken || (has_wake chan es || has_kill pid es)) (all_happen es t i)
    Resting-all [] true t own v = v
    Resting-all [] false t own v = v
    Resting-all (e ∷ es) woken t own v =
        rw (or_regroup woken (is_wake chan e) (has_wake chan es) (is_kill pid e) (has_kill pid es))
          (Resting-all es (woken || (is_wake chan e || is_kill pid e)) (happen e t)
            (happen-HasOwnPid e t i own)
            (Resting-Effect woken e (happen-Effect e t i in_table own) v))

sleep-Resting :
    (mlfq : Bool) (chan pid : ℕ) (woken : Bool) (t : Table) (i : ℕ)
    → chan ≢ 0
    → Preparing chan pid woken (t i)
    → Resting chan pid woken (sleep mlfq i t i)
unfolding sleep
sleep-Resting mlfq chan pid true t i n v = ground arith
sleep-Resting mlfq chan pid false t i n v = ground arith

-- A running process, which alone has its identifier, prepares to sleep on a channel; any wakeups
-- and kills happen; it calls `sleep`; more happen. Then it sleeps exactly if its channel was woken
-- neither before nor after its `sleep` and it was not killed after it.
pub sleep-sleep_prepare :
    (mlfq : Bool) (i chan : ℕ) (t : Table) {u : Table} (before after : List Event)
    → i < nproc
    → HasOwnPid t i
    → (t i).state ≡ running
    → sleep_prepare i chan t ≡ some u
    → is_sleeping (all_happen after (sleep mlfq i (all_happen before u)) i).state
      ≡ not (has_wake chan before || (has_wake chan after || has_kill (t i).pid after))
unfolding sleep_prepare
sleep-sleep_prepare mlfq i chan t {u} before after h own r e =
    (Resting-all chan (t i).pid nonzero i h after (has_wake chan before) _
      (sleep-HasOwnPid mlfq _ i own_then)
      (sleep-Resting mlfq chan (t i).pid (has_wake chan before) (all_happen before u) i nonzero
        (Preparing-all chan (t i).pid nonzero i h before false u own_u prepared))).rests
  where
    nonzero : chan ≢ 0
    nonzero = ground arith

    prepared : Preparing chan (t i).pid false (u i)
    prepared = ground arith

    own_u : HasOwnPid u i
    own_u j k q = own j k (ground arith)

    own_then : HasOwnPid (all_happen before u) i
    own_then = all_happen-HasOwnPid before u i own_u
