-- ===== src/Kernel/Proc/Loops.antt =====
-- What the two loops over the process table do.
use osn_mp.Common.{
  ℕ, zero, suc, ◌+◌, ◌≤◌, ◌<◌, Bool, true, false, none, some, ◌≡◌, arith, refl, if◌then◌else◌, ltb,
}
use osn_mp.Kernel.Proc.{Proc, Table, for_each, find_from}

-- The body is applied once, to each process of the range.
pub for_each_lem :
    (n : ℕ) (body : Proc → Proc) (t : Table) (j : ℕ)
    → for_each n body t j ≡ (if ltb j n then body (t j) else t j)
unfolding for_each
for_each_lem zero body t j = ground arith
for_each_lem (suc n) body t j = ground (arith, for_each_lem n body t j, for_each_lem n body t n)

pub find_from-some :
    (n i : ℕ) (test : Proc → Bool) (t : Table) (j : ℕ)
    → find_from n i test t ≡ some j
    → (i ≤ j) × (j < i + n) × (test (t j) ≡ true)
unfolding find_from
find_from-some zero i test t j h = cc
find_from-some (suc n) i test t j h = ground (arith, find_from-some n (suc i) test t j)

-- It is the first one.
pub find_from-first :
    (n i : ℕ) (test : Proc → Bool) (t : Table) (j l : ℕ)
    → find_from n i test t ≡ some j
    → i ≤ l
    → l < j
    → test (t l) ≡ false
unfolding find_from
find_from-first zero i test t j l h a b = cc
find_from-first (suc n) i test t j l h a b = ground (arith, find_from-first n (suc i) test t j l)

pub find_from-none :
    (n i : ℕ) (test : Proc → Bool) (t : Table) (l : ℕ)
    → find_from n i test t ≡ none
    → i ≤ l
    → l < i + n
    → test (t l) ≡ false
unfolding find_from
find_from-none zero i test t l h a b = absurd (omega arith)
find_from-none (suc n) i test t l h a b = ground (arith, find_from-none n (suc i) test t l)

-- The loop depends on the outcomes of the test only.
pub find_from_ext :
    (n i : ℕ) (test other : Proc → Bool) (t u : Table)
    → ((j : ℕ) → test (t j) ≡ other (u j))
    → find_from n i test t ≡ find_from n i other u
unfolding find_from
find_from_ext zero i test other t u h = refl
find_from_ext (suc n) i test other t u h =
    ground (arith, h i, find_from_ext n (suc i) test other t u h)
