-- ===== src/Kernel/Proc/Alloc/Pids.antt =====
-- Process identifiers are never shared, and what `allocproc` does on each of its exits.
use osn_mp.Common.{ℕ, ◌-◌, ◌^◌, ◌<◌, true, false, Option, none, some, ◌≡◌, refl, arith}
use osn_mp.Kernel.Proc.{Proc, used, Kernel, nproc, put, is_unused, find_from}
use osn_mp.Kernel.Proc.Alloc.{freeproc, allocpid, found, found_in, allocproc}

-- Identifiers of processes in use are positive, below `nextpid` and pairwise distinct, and `nextpid` is
-- not negative; a slot not in use has the identifier 0.
pub record PidsValid (k : Kernel) : Type 0 where
  pub next_pos : 0 < k.nextpid
  pub not_negative : k.nextpid < 2 ^ 31
  pub below : (i : ℕ) → (k.proc i).pid < k.nextpid
  pub live : (i : ℕ) → is_unused (k.proc i).state ≡ false → 0 < (k.proc i).pid
  pub free : (i : ℕ) → is_unused (k.proc i).state ≡ true → (k.proc i).pid ≡ 0
  pub distinct :
      (i j : ℕ)
      → is_unused (k.proc i).state ≡ false
      → is_unused (k.proc j).state ≡ false
      → (k.proc i).pid ≡ (k.proc j).pid
      → i ≡ j

-- `freeproc` keeps the identifiers valid.
pub freeproc-PidsValid : (k : Kernel) (i : ℕ) → PidsValid k → PidsValid (freeproc k i)
unfolding freeproc
freeproc-PidsValid k i v = record {
  next_pos = v.next_pos;
  not_negative = v.not_negative;
  below = λ j. ground (arith, v.below j, v.next_pos);
  live = λ j h. ground (arith, v.live j);
  free = λ j h. ground (arith, v.free j);
  distinct = λ a b ha hb e. ground (arith, v.distinct a b);
}

-- A write to a process that keeps its identifier and its being in use.
put-PidsValid :
    (k : Kernel) (i : ℕ) (p : Proc)
    → p.pid ≡ (k.proc i).pid
    → is_unused p.state ≡ is_unused (k.proc i).state
    → PidsValid k
    → PidsValid (put k i p)
put-PidsValid k i p e s v = record {
  next_pos = v.next_pos;
  not_negative = v.not_negative;
  below = λ j. ground (arith, v.below i, v.below j);
  live = λ j h. ground (arith, v.live i, v.live j);
  free = λ j h. ground (arith, v.free i, v.free j);
  distinct = λ a b ha hb q. ground (arith, v.distinct a b, v.distinct i b, v.distinct a i);
}

-- A slot that was not in use is given the next identifier.
claim-PidsValid :
    (k : Kernel) (i : ℕ)
    → k.nextpid < 2 ^ 31 - 1
    → PidsValid k
    → PidsValid (put (allocpid k).1 i (record (k.proc i) { pid = k.nextpid; state = used }))
unfolding allocpid
claim-PidsValid k i small v = record {
  next_pos = omega (arith, v.next_pos);
  not_negative = omega arith;
  below = λ j. ground (arith, v.below j);
  live = λ j h. ground (arith, v.live j, v.next_pos);
  free = λ j h. ground (arith, v.free j);
  distinct = λ a b ha hb q. ground (arith, v.distinct a b, v.below a, v.below b);
}

found-PidsValid :
    (page table : Option ℕ) (i : ℕ) (k : Kernel)
    → k.nextpid < 2 ^ 31 - 1
    → PidsValid k
    → PidsValid (found page table i k).1
unfolding found allocpid
found-PidsValid none table i k small v =
    freeproc-PidsValid _ i (put-PidsValid _ i _ refl refl (claim-PidsValid k i small v))
found-PidsValid (some f) none i k small v =
    freeproc-PidsValid _ i
      (put-PidsValid _ i _ refl refl (put-PidsValid _ i _ refl refl (claim-PidsValid k i small v)))
found-PidsValid (some f) (some t) i k small v =
    put-PidsValid _ i _ refl refl
      (put-PidsValid _ i _ refl refl (put-PidsValid _ i _ refl refl (claim-PidsValid k i small v)))

-- While `nextpid` is below the largest `int`, `allocproc` keeps identifiers valid on every exit.
pub allocproc-PidsValid :
    (page table : Option ℕ) (k : Kernel)
    → k.nextpid < 2 ^ 31 - 1
    → PidsValid k
    → PidsValid (allocproc page table k).1
unfolding allocproc
allocproc-PidsValid page table k small v =
    of_slot (find_from nproc 0 (λ p. is_unused p.state) k.proc)
  where
    of_slot : (o : Option ℕ) → PidsValid (found_in page table k o).1
    of_slot none = v
    of_slot (some i) = found-PidsValid page table i k small v
