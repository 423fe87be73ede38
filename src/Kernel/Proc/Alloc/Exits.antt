-- ===== src/Kernel/Proc/Alloc/Exits.antt =====
-- What `allocproc` returns and leaves behind on each of its exits.
use osn_mp.Common.{
  ℕ, ◌+◌, ◌%◌, ◌^◌, ◌<◌, ◌++◌, Bool, true, false, Option, none, some, ◌≡◌, ◌≢◌, ◌⊎◌, inl, inr, refl,
  arith,
}
use osn_mp.Common.Int.{minus_one}
use osn_mp.Kernel.Proc.{Proc, unused, used, Kernel, nproc, is_unused, find_from}
use osn_mp.Kernel.Proc.Loops.{find_from-some, find_from-none}
use osn_mp.Kernel.Proc.Alloc.{freeproc, allocpid, found, found_in, allocproc, frame_of}

-- The new process of a successful call: its slot was not in use, it holds what was allocated and a
-- new identifier, it starts in the highest queue with no time used, and no other slot changed.
pub record Allocated (page table : Option ℕ) (k : Kernel) (i : ℕ) (k' : Kernel) : Type 0 where
  pub in_table : i < nproc
  pub was_unused : is_unused (k.proc i).state ≡ true
  pub now_used : (k'.proc i).state ≡ used
  pub new_pid : (k'.proc i).pid ≡ k.nextpid
  pub next_pid : k'.nextpid ≡ (k.nextpid + 1) % 2 ^ 32
  pub holds_frame : (k'.proc i).trapframe ≡ page
  pub holds_table : (k'.proc i).pagetable ≡ table
  pub top_queue : (k'.proc i).queue ≡ 0
  pub no_ticks : (k'.proc i).ticks_used ≡ 0
  pub created : (k'.proc i).creation_time ≡ k.ticks
  pub never_ran : (k'.proc i).first_run_time ≡ minus_one
  pub kept : k'.freed ≡ k.freed
  pub others : (j : ℕ) → i ≢ j → k'.proc j ≡ k.proc j

found-Allocated :
    (f t : ℕ) (i : ℕ) (k : Kernel)
    → i < nproc
    → is_unused (k.proc i).state ≡ true
    → Allocated (some f) (some t) k i (found (some f) (some t) i k).1
unfolding found allocpid
found-Allocated f t i k h u = record {
  in_table = h;
  was_unused = u;
  now_used = ground arith;
  new_pid = ground arith;
  next_pid = refl;
  holds_frame = ground arith;
  holds_table = ground arith;
  top_queue = ground arith;
  no_ticks = ground arith;
  created = ground arith;
  never_ran = ground arith;
  kept = refl;
  others = λ j n. ground arith;
}

-- A slot was claimed and given up again: it is unused, its identifier is spent, and the page that
-- was allocated for it, and whatever page table it still had, are given back.
pub record GivenUp (page : Option ℕ) (k : Kernel) (i : ℕ) (k' : Kernel) : Type 0 where
  pub in_table : i < nproc
  pub was_unused : is_unused (k.proc i).state ≡ true
  pub still_unused : (k'.proc i).state ≡ unused
  pub no_pid : (k'.proc i).pid ≡ 0
  pub returned : k'.freed ≡ k.freed ++ frame_of page
  pub others : (j : ℕ) → i ≢ j → k'.proc j ≡ k.proc j

module _ (i : ℕ) (k : Kernel) (h : i < nproc) (u : is_unused (k.proc i).state ≡ true) where
  found-GivenUp_frame :
      (table : Option ℕ) → (k.proc i).pagetable ≡ none → GivenUp none k i (found none table i k).1
  unfolding found allocpid freeproc
  found-GivenUp_frame table e = record {
    in_table = h;
    was_unused = u;
    still_unused = ground arith;
    no_pid = ground arith;
    returned = ground arith;
    others = λ j n. ground arith;
  }

  found-GivenUp_table : (f : ℕ) → GivenUp (some f) k i (found (some f) none i k).1
  unfolding found allocpid freeproc
  found-GivenUp_table f = record {
    in_table = h;
    was_unused = u;
    still_unused = ground arith;
    no_pid = ground arith;
    returned = ground arith;
    others = λ j n. ground arith;
  }

-- The three ways in which `allocproc` may end.
pub data Outcome (page table : Option ℕ) (k : Kernel) (r : Option ℕ × Kernel) : Type 0 where
  success :
      (i f t : ℕ)
      → page ≡ some f
      → table ≡ some t
      → r.0 ≡ some i
      → Allocated page table k i r.1
      → Outcome page table k r
  given_up :
      (i : ℕ)
      → (page ≡ none) ⊎ (table ≡ none)
      → r.0 ≡ none
      → GivenUp page k i r.1
      → Outcome page table k r
  full :
      ((j : ℕ) → j < nproc → is_unused (k.proc j).state ≡ false)
      → r ≡ (none, k)
      → Outcome page table k r

found-Outcome :
    (page table : Option ℕ) (i : ℕ) (k : Kernel)
    → i < nproc
    → is_unused (k.proc i).state ≡ true
    → (k.proc i).pagetable ≡ none
    → Outcome page table k (found page table i k)
found-Outcome none table i k h u e =
    given_up i (inl refl) (unfold found in refl) (found-GivenUp_frame i k h u table e)
found-Outcome (some f) none i k h u e =
    given_up i (inr refl) (unfold found in refl) (found-GivenUp_table i k h u f)
found-Outcome (some f) (some t) i k h u e =
    success i f t refl refl (unfold found in refl) (found-Allocated f t i k h u)

-- If no unused slot holds a page table, `allocproc` ends in one of three ways. It returns a slot
-- that was unused, in use now, with a new identifier, the two allocations, the highest queue and
-- fresh times, and nothing else changed. Or an allocation failed: it returns no slot, the claimed
-- one is unused again, and the page that was allocated is given back. Or every slot is in use, and
-- it returns none and changes nothing.
pub allocproc-Outcome :
    (page table : Option ℕ) (k : Kernel)
    → ((i : ℕ) → is_unused (k.proc i).state ≡ true → (k.proc i).pagetable ≡ none)
    → Outcome page table k (allocproc page table k)
unfolding allocproc
allocproc-Outcome page table k clean = of_slot (find_from nproc 0 test k.proc) refl
  where
    test : Proc → Bool
    test = λ p. is_unused p.state

    of_slot :
        (o : Option ℕ)
        → find_from nproc 0 test k.proc ≡ o
        → Outcome page table k (found_in page table k o)
    of_slot none e = full (λ j h. find_from-none nproc 0 test k.proc j e (omega arith) h) refl
    of_slot (some i) e =
        let (low, high, u) = find_from-some nproc 0 test k.proc i e in
        found-Outcome page table i k high u (clean i u)

-- `allocproc` leaves the mark of a kill in the slot that it hands out.
pub killed-allocproc :
    (f t : ℕ) (k : Kernel) (i : ℕ)
    → find_from nproc 0 (λ p. is_unused p.state) k.proc ≡ some i
    → ((allocproc (some f) (some t) k).0 ≡ some i)
      × (((allocproc (some f) (some t) k).1.proc i).killed ≡ (k.proc i).killed)
unfolding allocproc found allocpid
killed-allocproc f t k i h = rw h (refl, ground arith)
