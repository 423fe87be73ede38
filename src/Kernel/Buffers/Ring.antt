-- ===== src/Kernel/Buffers/Ring.antt =====
-- The links of the buffer cache: a ring through the head in the order of a list.
use osn_mp.Common.{ℕ, List, [], ◌∷◌, ◌++◌, ◌≡◌, ◌≢◌, arith, sym, ◌∙◌, subst, All}
use osn_mp.Common.Arrays.{update, update_self, update_ne}
use osn_mp.Kernel.Buffers.{Cache, head, link_front}

-- From `a` the links `next` lead through `xs` to `z`, and the links `prev` back.
abbrev pub Segment : (ℕ → ℕ) → (ℕ → ℕ) → ℕ → List ℕ → ℕ → Type 0
Segment next prev a [] z = (next a ≡ z) × (prev z ≡ a)
Segment next prev a (x ∷ xs) z = (next a ≡ x) × (prev x ≡ a) × Segment next prev x xs z

abbrev pub Avoids : ℕ → List ℕ → Type 0
Avoids b xs = All (λ x. b ≢ x) xs

abbrev pub IsDistinct : List ℕ → Type 0
IsDistinct [] = Unit
IsDistinct (x ∷ xs) = Avoids x xs × IsDistinct xs

-- The ring through the head, in the order `xs`.
pub record IsRing (xs : List ℕ) (c : Cache) : Type 0 where
  pub links : Segment c.next c.prev head xs head
  pub apart : IsDistinct xs
  pub proper : Avoids head xs

Segment-next :
    (next prev : ℕ → ℕ) (p v a : ℕ) (xs : List ℕ) (z : ℕ)
    → p ≢ a
    → Avoids p xs
    → Segment next prev a xs z
    → Segment (update next p v) prev a xs z
Segment-next next prev p v a [] z n h s = (update_ne next p a v n ∙ s.0, s.1)
Segment-next next prev p v a (x ∷ xs) z n h s =
    (update_ne next p a v n ∙ s.0, s.1, Segment-next next prev p v x xs z h.0 h.1 s.2)

Segment-prev :
    (next prev : ℕ → ℕ) (q v a : ℕ) (xs : List ℕ) (z : ℕ)
    → q ≢ z
    → Avoids q xs
    → Segment next prev a xs z
    → Segment next (update prev q v) a xs z
Segment-prev next prev q v a [] z n h s = (s.0, update_ne prev q z v n ∙ s.1)
Segment-prev next prev q v a (x ∷ xs) z n h s =
    (s.0, update_ne prev q x v h.0 ∙ s.1, Segment-prev next prev q v x xs z n h.1 s.2)

-- Whatever holds of all nodes before, or behind, holds of the neighbour.
module _ (P : ℕ → Type 0) (next prev : ℕ → ℕ) where
  prev-in :
      (a : ℕ) (pre : List ℕ) (b : ℕ) (post : List ℕ) (z : ℕ)
      → Segment next prev a (pre ++ b ∷ post) z
      → P a
      → All P pre
      → P (prev b)
  prev-in a [] b post z s h hs = subst P (sym s.1) h
  prev-in a (x ∷ pre) b post z s h hs = prev-in x pre b post z s.2 hs.0 hs.1

  next-in :
      (a : ℕ) (pre : List ℕ) (b : ℕ) (post : List ℕ) (z : ℕ)
      → Segment next prev a (pre ++ b ∷ post) z
      → All P post
      → P z
      → P (next b)
  next-in a [] b [] z s hs h = subst P (sym s.2.0) h
  next-in a [] b (y ∷ ys) z s hs h = subst P (sym s.2.0) hs.0
  next-in a (x ∷ pre) b post z s hs h = next-in x pre b post z s.2 hs h

pub All-left : (P : ℕ → Type 0) (xs ys : List ℕ) → All P (xs ++ ys) → All P xs
All-left P [] ys h = tt
All-left P (x ∷ xs) ys h = (h.0, All-left P xs ys h.1)

pub All-right : (P : ℕ → Type 0) (xs ys : List ℕ) → All P (xs ++ ys) → All P ys
All-right P [] ys h = h
All-right P (x ∷ xs) ys h = All-right P xs ys h.1

-- Taking `b` out of a segment.
pub Segment-unlink :
    (next prev : ℕ → ℕ) (a : ℕ) (pre : List ℕ) (b : ℕ) (post : List ℕ) (z : ℕ)
    → Segment next prev a (pre ++ b ∷ post) z
    → IsDistinct (pre ++ b ∷ post)
    → Avoids a (pre ++ b ∷ post)
    → Avoids z (pre ++ b ∷ post)
    → Segment (update next (prev b) (next b)) (update prev (next b) (prev b)) a (pre ++ post) z
Segment-unlink next prev a [] b [] z s d ha hz =
    rw (s.1, s.2.0) (update_self next a z, update_self prev z a)
Segment-unlink next prev a [] b (y ∷ ys) z s d ha hz =
    subst (λ (p : ℕ). Segment (update next p (next b)) (update prev (next b) p) a (y ∷ ys) z)
      (sym s.1)
      (subst (λ (q : ℕ). Segment (update next a q) (update prev q a) a (y ∷ ys) z) (sym s.2.0)
        (
          update_self next a y,
          update_self prev y a,
          Segment-next next _ a y y ys z ha.1.0 ha.1.1
              (Segment-prev next prev y a y ys z (λ e. hz.1.0 (sym e)) d.1.0 s.2.2),
        ))
Segment-unlink next prev a (w ∷ ws) b post z s d ha hz =
    let tail = All-right (λ x. w ≢ x) ws (b ∷ post) d.0 in
    (
      update_ne next (prev b) a (next b) (λ e.
            prev-in (λ x. a ≢ x) next prev w ws b post z s.2 ha.0
              (All-left (λ x. a ≢ x) ws (b ∷ post) ha.1) (sym e))
          ∙ s.0,
      update_ne prev (next b) w (prev b) (λ e.
            next-in (λ x. w ≢ x) next prev w ws b post z s.2 tail.1 (λ e. hz.0 (sym e)) (sym e))
          ∙ s.1,
      Segment-unlink next prev w ws b post z s.2 d.1 d.0 hz.1,
    )

-- Putting `b` first.
pub link_front-links :
    (b : ℕ) (xs : List ℕ) (c : Cache)
    → Segment c.next c.prev head xs head
    → IsDistinct xs
    → Avoids head xs
    → b ≢ head
    → Avoids b xs
    → Segment (link_front b c).next (link_front b c).prev head (b ∷ xs) head
unfolding link_front
link_front-links b [] c s d hh n hb = ground arith
link_front-links b (x ∷ xs) c s d hh n hb =
    let next = update c.next b (c.next head) in
    let prev = update c.prev b head in
    let first : next head ≡ x = update_ne c.next b head (c.next head) n ∙ s.0 in
    let old = Segment-prev c.next c.prev b head x xs head n hb.1 s.2 in
    let old' = Segment-next c.next prev b (c.next head) x xs head hb.0 hb.1 old in
    let old'' =
      Segment-prev next prev (next head) b x xs head (λ e. hh.0 (sym e ∙ first))
        (subst (λ (y : ℕ). Avoids y xs) (sym first) d.0) old' in
    (
      update_self next head b,
      ground arith,
      (
        ground arith,
        rw first (update_self prev x b),
        Segment-next next (update prev (next head) b) head b x xs head hh.0 hh.1 old'',
      ),
    )
