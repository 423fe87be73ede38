-- ===== src/Kernel/Buffers/Lookup.antt =====
-- `bget` finds the buffer of a block, or takes the free one that was released longest ago.
use osn_mp.Common.{
  ℕ, zero, suc, ◌+◌, ◌≤◌, ◌<◌, List, [], ◌∷◌, ◌++◌, Bool, true, false, Option, none, some, ◌≡◌, ◌≢◌,
  inl, inr, refl, arith, sym, ◌∙◌, ap, All, All-append, length, length-append, append_assoc, ◌==◌,
  Bool-cases, if◌then◌else◌,
}
use mathlib.Core.List.{reverse, reverse-cons, reverse-append, reverse-reverse}
use osn_mp.Kernel.Buffers.{
  Cache, head, nbuf, put, walk, holds, is_free, taken, recycle, found_or_recycle, bget,
}
use osn_mp.Kernel.Buffers.Ring.{Segment, Avoids, IsRing}

-- The first node of a list that passes the test.
abbrev first : (ℕ → Bool) → List ℕ → Option ℕ
first test [] = none
first test (x ∷ xs) = if test x then some x else first test xs

-- A loop along the links does what the list says; a round for each node and one more suffice.
walk-Segment :
    (next prev : ℕ → ℕ) (test : ℕ → Bool) (fuel a : ℕ) (xs : List ℕ)
    → Segment next prev a xs head
    → Avoids head xs
    → length xs < fuel
    → walk next test fuel (next a) ≡ first test xs
unfolding walk
walk-Segment next prev test zero a xs s h f = absurd (omega arith)
walk-Segment next prev test (suc fuel) a [] s h f = rw s.0
walk-Segment next prev test (suc fuel) a (x ∷ xs) s h f =
    let rest = walk-Segment next prev test fuel x xs s.2 h.1 (omega arith) in
    let other : (x == head) ≡ false = ground (arith, h.0) in rw (s.0, other, rest)

-- The links read backwards.
Segment-append :
    (next prev : ℕ → ℕ) (a : ℕ) (xs : List ℕ) (y : ℕ) (ys : List ℕ) (z : ℕ)
    → Segment next prev a xs y
    → Segment next prev y ys z
    → Segment next prev a (xs ++ y ∷ ys) z
Segment-append next prev a [] y ys z s t = (s.0, s.1, t)
Segment-append next prev a (x ∷ xs) y ys z s t =
    (s.0, s.1, Segment-append next prev x xs y ys z s.2 t)

Segment-reverse :
    (next prev : ℕ → ℕ) (a : ℕ) (xs : List ℕ) (z : ℕ)
    → Segment next prev a xs z
    → Segment prev next z (reverse xs) a
Segment-reverse next prev a [] z s = (s.1, s.0)
Segment-reverse next prev a (x ∷ xs) z s = rw (reverse-cons x xs) (
    Segment-append prev next z (reverse xs) x [] a (Segment-reverse next prev x xs z s.2)
      (s.1, s.0))

All-reverse : (P : ℕ → Type 0) (xs : List ℕ) → All P xs → All P (reverse xs)
All-reverse P [] h = tt
All-reverse P (x ∷ xs) h =
    rw (reverse-cons x xs) (All-append P (reverse xs) (x ∷ []) (All-reverse P xs h.1) (h.0, tt))

length-reverse : (xs : List ℕ) → length (reverse xs) ≡ length xs
length-reverse [] = refl
length-reverse (x ∷ xs) =
    rw (reverse-cons x xs)
      (omega (arith, length-append {0} (reverse xs) (x ∷ []), length-reverse xs))

-- What the first node that passes a test is.
data First (test : ℕ → Bool) (xs : List ℕ) : Option ℕ → Type 0 where
  at :
      (pre : List ℕ) (b : ℕ) (post : List ℕ)
      → xs ≡ pre ++ b ∷ post
      → test b ≡ true
      → All (λ x. test x ≡ false) pre
      → First test xs (some b)
  nowhere : All (λ x. test x ≡ false) xs → First test xs none

first-First : (test : ℕ → Bool) (xs : List ℕ) → First test xs (first test xs)
first-First test [] = nowhere tt
first-First test (x ∷ xs) = elim (Bool-cases (test x)) [
  | inl e ↦ rw e (at [] x xs refl e tt)
  | inr e ↦ rw e (onward e (first-First test xs))
]
  where
    onward : {o : Option ℕ} → test x ≡ false → First test xs o → First test (x ∷ xs) o
    onward e (at pre b post w t h) = at (x ∷ pre) b post (ap (λ l. x ∷ l) w) t (e, h)
    onward e (nowhere h) = nowhere (e, h)

module _ (dev blockno : ℕ) (xs : List ℕ) (c : Cache) where
  abbrev IsElsewhere : ℕ → Type 0
  IsElsewhere x = holds dev blockno (c.buf x) ≡ false

  -- The ways in which `bget` ends: the buffer of the block, the last free buffer of the ring, or no
  -- buffer.
  pub data Got (r : Option (ℕ × Cache)) : Type 0 where
    cached :
        (pre : List ℕ) (b : ℕ) (post : List ℕ)
        → xs ≡ pre ++ b ∷ post
        → holds dev blockno (c.buf b) ≡ true
        → r ≡ some (b, put c b (record (c.buf b) { refcnt = (c.buf b).refcnt + 1 }))
        → Got r
    recycled :
        (pre : List ℕ) (b : ℕ) (post : List ℕ)
        → xs ≡ pre ++ b ∷ post
        → All IsElsewhere xs
        → (c.buf b).refcnt ≡ 0
        → All (λ x. (c.buf x).refcnt ≢ 0) post
        → r ≡ some (b, put c b (taken dev blockno (c.buf b)))
        → Got r
    busy : All IsElsewhere xs → All (λ x. (c.buf x).refcnt ≢ 0) xs → r ≡ none → Got r

  free→zero : (x : ℕ) → is_free (c.buf x) ≡ true → (c.buf x).refcnt ≡ 0
  free→zero x h = ground arith

  in_use :
      (ys : List ℕ) → All (λ x. is_free (c.buf x) ≡ false) ys → All (λ x. (c.buf x).refcnt ≢ 0) ys
  in_use [] h = tt
  in_use (y ∷ ys) h = (ground (arith, h.0), in_use ys h.1)

  order :
      (pre : List ℕ) (b : ℕ) (post : List ℕ)
      → reverse xs ≡ pre ++ b ∷ post
      → xs ≡ reverse post ++ b ∷ reverse pre
  order pre b post w =
      sym (reverse-reverse xs)
      ∙ (ap reverse w
          ∙ (reverse-append pre (b ∷ post)
              ∙ (ap (λ l. l ++ reverse pre) (reverse-cons b post)
                  ∙ append_assoc (reverse post) (b ∷ []) (reverse pre))))

  recycle-Got :
      (o : Option ℕ)
      → All IsElsewhere xs
      → First (λ b. is_free (c.buf b)) (reverse xs) o
      → Got (recycle dev blockno c o)
  recycle-Got o none_holds (nowhere h) =
      busy none_holds
        (rw (reverse-reverse xs) at
          (All-reverse (λ x. (c.buf x).refcnt ≢ 0) (reverse xs) (in_use (reverse xs) h)))
        refl
  recycle-Got o none_holds (at pre b post w t h) =
      recycled (reverse post) b (reverse pre) (order pre b post w) none_holds (free→zero b t)
        (All-reverse (λ x. (c.buf x).refcnt ≢ 0) pre (in_use pre h)) refl

  -- For a ring of at most NBUF buffers, `bget` finds the buffer of the block and counts one more use;
  -- or no buffer holds the block, and it takes the last free buffer of the ring, which was released
  -- longest ago, for the block; or no buffer is free and it panics.
  pub bget-Got : IsRing xs c → length xs ≤ nbuf → Got (bget dev blockno c)
  unfolding bget
  bget-Got r l =
      let forward =
        walk-Segment c.next c.prev (λ b. holds dev blockno (c.buf b)) (suc nbuf) head xs r.links
          r.proper (omega arith) in
      let back =
        walk-Segment c.prev c.next (λ b. is_free (c.buf b)) (suc nbuf) head (reverse xs)
          (Segment-reverse c.next c.prev head xs head r.links)
          (All-reverse (λ x. head ≢ x) xs r.proper) (omega (arith, length-reverse xs)) in
      rw forward (of_first (first-First (λ b. holds dev blockno (c.buf b)) xs) back)
    where
      of_first :
          {o : Option ℕ}
          → First (λ b. holds dev blockno (c.buf b)) xs o
          → walk c.prev (λ b. is_free (c.buf b)) (suc nbuf) (c.prev head)
            ≡ first (λ b. is_free (c.buf b)) (reverse xs)
          → Got (found_or_recycle dev blockno c o)
      of_first (at pre b post w t h) back = cached pre b post w t refl
      of_first (nowhere h) back =
          rw back (recycle-Got _ h (first-First (λ b. is_free (c.buf b)) (reverse xs)))
