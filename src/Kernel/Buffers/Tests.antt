-- ===== src/Kernel/Buffers/Tests.antt =====
-- Runs of the buffer cache, and the theorems at them.
use osn_mp.Common.{ℕ, ◌+◌, ◌<◌, [], ◌∷◌, ◌++◌, false, none, some, ◌≡◌, ◌⊎◌, refl, arith}
use mathlib.Core.Option
use osn_mp.Kernel.Buffers.{Cache, nbuf, head, binit, bget, bread, brelse, walk, put, fill, taken}
use osn_mp.Kernel.Buffers.Ring.{IsRing}
use osn_mp.Kernel.Buffers.Recency.{down, dropped, binit-IsRing, brelse-Released}
use osn_mp.Kernel.Buffers.Coherent.{IsCoherent, Read, bread-Read}

abbrev blank : ℕ → Cache
blank refcnt = record {
  buf = λ b. record { valid = false; dev = 0; blockno = 0; refcnt = refcnt; words = λ i. 0 };
  next = λ b. 0;
  prev = λ b. 0;
}

-- All buffers are free.
abbrev fresh : Cache
fresh = binit (blank 0)

-- All buffers are in use.
abbrev crowded : Cache
crowded = binit (blank 1)

abbrev disk : ℕ → ℕ → ℕ → ℕ
disk dev blockno i = blockno + i

abbrev after_one : Cache
after_one = fill disk 0 (put fresh 0 (taken 1 5 (fresh.buf 0)))

oldest_first : bread disk 1 5 fresh ≡ some (0, after_one)
unfolding bread bget walk binit
oldest_first = refl

read_again :
    Option.map (λ (r : ℕ × Cache). (r.1.buf r.0).words 2) (bread disk 1 5 after_one) ≡ some 7
unfolding bread bget walk binit
read_again = refl

no_buffers : bget 1 5 crowded ≡ none
unfolding bget walk binit
no_buffers = refl

released_to_the_front : (brelse 7 crowded).next head ≡ 7
unfolding brelse binit
released_to_the_front = refl

fresh-IsCoherent : IsCoherent disk (down nbuf) fresh
unfolding binit
fresh-IsCoherent = record { unique = λ i j hi hj d b n. absurd (n refl); clean = λ i h r v. cc }

bread-Read_example : Read disk (down nbuf) 1 5 fresh 0 after_one
bread-Read_example =
    bread-Read disk (down nbuf) 1 5 fresh 0 after_one (omega arith) fresh-IsCoherent
      (binit-IsRing (blank 0)) (omega arith) oldest_first

crowded-used : 0 < (crowded.buf 29).refcnt
unfolding binit
crowded-used = omega arith

brelse-Released_example :
    ((brelse 29 crowded).buf ≡ (dropped 29 crowded).buf)
    × (((crowded.buf 29).refcnt ≡ 1 × IsRing (29 ∷ ([] ++ down 29)) (brelse 29 crowded))
        ⊎ (1 < (crowded.buf 29).refcnt × IsRing ([] ++ 29 ∷ down 29) (brelse 29 crowded)))
brelse-Released_example =
    brelse-Released [] 29 (down 29) crowded (binit-IsRing (blank 1)) crowded-used
