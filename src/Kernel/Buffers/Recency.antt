-- ===== src/Kernel/Buffers/Recency.antt =====
-- The ring stands in the order of the last use: `binit` makes it, and `brelse` moves a buffer that
-- nobody uses any more to its front.
use osn_mp.Common.{
  ℕ, zero, suc, ◌+◌, ◌-◌, ◌≤◌, ◌<◌, List, [], ◌∷◌, ◌++◌, ◌≡◌, ◌≢◌, ◌⊎◌, inl, inr, refl, arith, sym,
  subst, All-append, ◌==◌, Bool-cases,
}
use osn_mp.Common.Arrays.{update}
use osn_mp.Kernel.Buffers.{Cache, head, nbuf, put, link_front, unlink, link_from, binit, brelse}
use osn_mp.Kernel.Buffers.Ring.{
  Segment, Avoids, IsDistinct, IsRing, Segment-unlink, link_front-links, All-left, All-right,
}

-- `b` among distinct nodes.
IsDistinct-middle :
    (pre : List ℕ) (b : ℕ) (post : List ℕ)
    → IsDistinct (pre ++ b ∷ post)
    → Avoids b (pre ++ post) × IsDistinct (pre ++ post)
IsDistinct-middle [] b post d = d
IsDistinct-middle (w ∷ ws) b post d =
    let (hb, hs) = IsDistinct-middle ws b post d.1 in
    let left = All-left (λ x. w ≢ x) ws (b ∷ post) d.0 in
    let right = All-right (λ x. w ≢ x) ws (b ∷ post) d.0 in
    (((λ e. right.0 (sym e)), hb), (All-append (λ x. w ≢ x) ws post left right.1, hs))

Avoids-middle :
    (h : ℕ) (pre : List ℕ) (b : ℕ) (post : List ℕ)
    → Avoids h (pre ++ b ∷ post)
    → (h ≢ b) × Avoids h (pre ++ post)
Avoids-middle h pre b post a =
    let right = All-right (λ x. h ≢ x) pre (b ∷ post) a in
    (right.0, All-append (λ x. h ≢ x) pre post (All-left (λ x. h ≢ x) pre (b ∷ post) a) right.1)

link_front-IsRing :
    (b : ℕ) (xs : List ℕ) (c : Cache)
    → IsRing xs c
    → b ≢ head
    → Avoids b xs
    → IsRing (b ∷ xs) (link_front b c)
link_front-IsRing b xs c r n h = record {
  links = link_front-links b xs c r.links r.apart r.proper n h;
  apart = (h, r.apart);
  proper = ((λ e. n (sym e)), r.proper);
}

unlink-IsRing :
    (pre : List ℕ) (b : ℕ) (post : List ℕ) (c : Cache)
    → IsRing (pre ++ b ∷ post) c
    → IsRing (pre ++ post) (unlink b c)
unfolding unlink
unlink-IsRing pre b post c r =
    let same : update c.prev (c.next b) (c.prev b) b ≡ c.prev b = ground arith in
    record {
      links =
          subst
            (λ (p : ℕ).
              Segment (update c.next p (c.next b)) (update c.prev (c.next b) (c.prev b)) head
                (pre ++ post) head)
            (sym same)
            (Segment-unlink c.next c.prev head pre b post head r.links r.apart r.proper r.proper);
      apart = (IsDistinct-middle pre b post r.apart).1;
      proper = (Avoids-middle head pre b post r.proper).1;
    }

-- The count of `b` is one less, and no other field of a buffer changes.
abbrev pub dropped : ℕ → Cache → Cache
dropped b c = put c b (record (c.buf b) { refcnt = (c.buf b).refcnt - 1 })

-- `brelse` of a buffer in use, in the ring between `pre` and `post`, takes one from its count and
-- changes no other field of any buffer. If nobody uses it any more, the ring begins with it and goes
-- on with the others in their order; if somebody does, the ring stays as it is.
pub brelse-Released :
    (pre : List ℕ) (b : ℕ) (post : List ℕ) (c : Cache)
    → IsRing (pre ++ b ∷ post) c
    → 0 < (c.buf b).refcnt
    → (((brelse b c).buf ≡ (dropped b c).buf)
        × (((c.buf b).refcnt ≡ 1 × IsRing (b ∷ (pre ++ post)) (brelse b c))
            ⊎ (1 < (c.buf b).refcnt × IsRing (pre ++ b ∷ post) (brelse b c))))
unfolding brelse
brelse-Released pre b post c r used =
    let r' : IsRing (pre ++ b ∷ post) (dropped b c) = record {
      links = r.links;
      apart = r.apart;
      proper = r.proper;
    } in
    elim (Bool-cases ((c.buf b).refcnt - 1 == 0)) [
      | inl e ↦
          let moved =
            link_front-IsRing b (pre ++ post) (unlink b (dropped b c))
              (unlink-IsRing pre b post (dropped b c) r')
              (λ h. (Avoids-middle head pre b post r.proper).0 (sym h))
              (IsDistinct-middle pre b post r.apart).0 in
          rw e (unfold link_front unlink in refl, inl (ground arith, moved))
      | inr e ↦ rw e (refl, inr (ground arith, r'))
    ]

-- The buffers below `n`, the last one first.
abbrev pub down : ℕ → List ℕ
down zero = []
down (suc n) = n ∷ down n

down-Avoids : (n b : ℕ) → n ≤ b → Avoids b (down n)
down-Avoids zero b h = tt
down-Avoids (suc n) b h = (omega arith, down-Avoids n b (omega arith))

link_from-IsRing :
    (m b : ℕ) (c : Cache)
    → b + m ≤ nbuf
    → IsRing (down b) c
    → IsRing (down (b + m)) (link_from m b c)
unfolding link_from
link_from-IsRing zero b c h r = subst (λ (n : ℕ). IsRing (down n) c) (omega arith) r
link_from-IsRing (suc m) b c h r =
    let one_up : suc b ≡ b + 1 = omega arith in
    let one_more = link_front-IsRing b (down b) c r (omega arith) (down-Avoids b b (omega arith)) in
    subst (λ (n : ℕ). IsRing (down n) (link_from m (b + 1) (link_front b c))) (omega arith)
      (link_from-IsRing m (b + 1) (link_front b c) (omega arith)
        (subst (λ (n : ℕ). IsRing (down n) (link_front b c)) one_up one_more))

-- `binit` makes a ring of all the buffers.
pub binit-IsRing : (c : Cache) → IsRing (down nbuf) (binit c)
unfolding binit
binit-IsRing c =
    link_from-IsRing nbuf 0
      (record c { next = update c.next head head; prev = update c.prev head head }) (omega arith)
      (record { links = (ground arith, ground arith); apart = tt; proper = tt })
