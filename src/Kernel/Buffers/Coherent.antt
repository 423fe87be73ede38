-- ===== src/Kernel/Buffers/Coherent.antt =====
-- `bread` shows the words of its block, and no call of it changes what the cache shows of any block.
use osn_mp.Common.{
  ℕ, ◌+◌, ◌≤◌, ◌<◌, List, [], ◌∷◌, ◌++◌, true, false, none, some, ◌≡◌, ◌≢◌, ◌⊎◌, inl, inr, refl,
  arith, sym, ◌∙◌, ap, ap₂, subst, ℕ_discrete, All, length, Bool-cases, if◌then◌else◌,
}
use osn_mp.Common.Arrays.{update_self, update_ne}
use osn_mp.Kernel.Buffers.{Cache, Buf, nbuf, put, holds, taken, fill, filled, bget, bread}
use osn_mp.Kernel.Buffers.Ring.{IsRing}
use osn_mp.Kernel.Buffers.Lookup.{Got, cached, recycled, busy, bget-Got}

abbrev pub In : ℕ → List ℕ → Type 0
In i [] = ⊥
In i (x ∷ xs) = (i ≡ x) ⊎ In i xs

In-middle : (pre : List ℕ) (b : ℕ) (post : List ℕ) → In b (pre ++ b ∷ post)
In-middle [] b post = inl refl
In-middle (x ∷ pre) b post = inr (In-middle pre b post)

All-In : (P : ℕ → Type 0) (xs : List ℕ) (i : ℕ) → All P xs → In i xs → P i
All-In P [] i h m = elim m [ ]
All-In P (x ∷ xs) i h (inl e) = subst P (sym e) h.0
All-In P (x ∷ xs) i h (inr m) = All-In P xs i h.1 m

abbrev pub IsOf : ℕ → ℕ → Buf → Type 0
IsOf d n x = (x.dev ≡ d) × (x.blockno ≡ n)

IsOf-cases : (d n dev blockno : ℕ) → ((d ≡ dev) × (n ≡ blockno)) ⊎ (d ≡ dev → n ≡ blockno → ⊥)
IsOf-cases d n dev blockno = elim (ℕ_discrete d dev) [
  | yes e ↦ elim (ℕ_discrete n blockno) [ yes f ↦ inl (e, f) | no f ↦ inr (λ x. f) ]
  | no e ↦ inr (λ x y. e x)
]

-- The buffers are those of `xs`; the devices' numbers are not 0, which unused buffers have.
module _ (disk : ℕ → ℕ → ℕ → ℕ) (xs : List ℕ) where
  -- No block has two buffers, and a buffer that nobody uses shows what the disk holds.
  pub record IsCoherent (c : Cache) : Type 0 where
    pub unique :
        (i j : ℕ)
        → In i xs
        → In j xs
        → (c.buf i).dev ≡ (c.buf j).dev
        → (c.buf i).blockno ≡ (c.buf j).blockno
        → (c.buf i).dev ≢ 0
        → i ≡ j
    pub clean :
        (i : ℕ)
        → In i xs
        → (c.buf i).refcnt ≡ 0
        → (c.buf i).valid ≡ true
        → (c.buf i).words ≡ disk (c.buf i).dev (c.buf i).blockno

  -- The cache shows the words `w` for a block: those of a valid buffer of the block, or the disk's
  -- where no buffer of the block is valid.
  abbrev pub Shows : Cache → ℕ → ℕ → (ℕ → ℕ) → Type 0
  Shows c d n w =
      ((i : ℕ) × In i xs × IsOf d n (c.buf i) × ((c.buf i).valid ≡ true) × ((c.buf i).words ≡ w))
      ⊎ (((i : ℕ) → In i xs → IsOf d n (c.buf i) → (c.buf i).valid ≡ false) × (w ≡ disk d n))

  -- What a read comes to: the buffer `b` has the block, in use, with the words that the cache showed
  -- of it, and the cache shows of each block what it showed before.
  pub record Read (dev blockno : ℕ) (c : Cache) (b : ℕ) (c' : Cache) : Type 0 where
    pub member : In b xs
    pub holder : IsOf dev blockno (c'.buf b)
    pub used : 0 < (c'.buf b).refcnt
    pub shown : Shows c dev blockno (c'.buf b).words
    pub kept : (d n : ℕ) (w : ℕ → ℕ) → d ≢ 0 → Shows c d n w → Shows c' d n w
    pub coherent : IsCoherent c'

  Shows-unique :
      (c : Cache) (d n : ℕ) (w w' : ℕ → ℕ)
      → d ≢ 0
      → IsCoherent c
      → Shows c d n w
      → Shows c d n w'
      → w ≡ w'
  Shows-unique c d n w w' z v (inl (i, hi, oi, vi, wi)) (inl (j, hj, oj, vj, wj)) =
      let same : i ≡ j =
        v.unique i j hi hj (oi.0 ∙ sym oj.0) (oi.1 ∙ sym oj.1) (λ e. z (sym oi.0 ∙ e)) in
      sym wi ∙ (ap (λ (k : ℕ). (c.buf k).words) same ∙ wj)
  Shows-unique c d n w w' z v (inl (i, hi, oi, vi, wi)) (inr (h, e)) =
      absurd (ground (arith, h i hi oi))
  Shows-unique c d n w w' z v (inr (h, e)) (inl (i, hi, oi, vi, wi)) =
      absurd (ground (arith, h i hi oi))
  Shows-unique c d n w w' z v (inr (h, e)) (inr (h', e')) = e ∙ sym e'

  -- The buffer `b` is given to a block that it has already, or it is free and no buffer has the block.
  module _ (dev blockno : ℕ) (c c' : Cache) (b : ℕ) (z : dev ≢ 0) (v : IsCoherent c) (m : In b xs)
      (before : IsOf dev blockno (c.buf b)
        ⊎ (((c.buf b).refcnt ≡ 0) × ((i : ℕ) → In i xs → IsOf dev blockno (c.buf i) → ⊥)))
      (self : IsOf dev blockno (c'.buf b)) (valid : (c'.buf b).valid ≡ true)
      (used : 0 < (c'.buf b).refcnt) (others : (i : ℕ) → i ≢ b → c'.buf i ≡ c.buf i)
      (shown : Shows c dev blockno (c'.buf b).words) where
    sole : (i : ℕ) → In i xs → IsOf dev blockno (c.buf i) → i ≡ b
    sole i h o = elim before [
      | inl o' ↦ v.unique i b h m (o.0 ∙ sym o'.0) (o.1 ∙ sym o'.1) (λ e. z (sym o.0 ∙ e))
      | inr (free, none_has) ↦ absurd (none_has i h o)
    ]

    -- A buffer of another block is as before, and is not `b`.
    another :
        (i d n : ℕ)
        → (d ≡ dev → n ≡ blockno → ⊥)
        → IsOf d n (c'.buf i)
        → (i ≢ b) × (c'.buf i ≡ c.buf i)
    another i d n other o =
        let apart : i ≢ b = λ e.
          other (sym o.0 ∙ (ap (λ (k : ℕ). (c'.buf k).dev) e ∙ self.0))
            (sym o.1 ∙ (ap (λ (k : ℕ). (c'.buf k).blockno) e ∙ self.1)) in
        (apart, others i apart)

    at_b : (i : ℕ) → i ≡ b → IsOf dev blockno (c'.buf i)
    at_b i e =
        (ap (λ (k : ℕ). (c'.buf k).dev) e ∙ self.0, ap (λ (k : ℕ). (c'.buf k).blockno) e ∙ self.1)

    dev_as : (i : ℕ) → i ≢ b → (c'.buf i).dev ≡ (c.buf i).dev
    dev_as i n = ap (λ (x : Buf). x.dev) (others i n)

    blockno_as : (i : ℕ) → i ≢ b → (c'.buf i).blockno ≡ (c.buf i).blockno
    blockno_as i n = ap (λ (x : Buf). x.blockno) (others i n)

    -- The buffer `b` was free if it was another block's.
    was_free : (d n : ℕ) → (d ≡ dev → n ≡ blockno → ⊥) → IsOf d n (c.buf b) → (c.buf b).refcnt ≡ 0
    was_free d n other o = elim before [
      | inl o' ↦ absurd (other (sym o.0 ∙ o'.0) (sym o.1 ∙ o'.1))
      | inr (free, none_has) ↦ free
    ]

    unique' :
        (i j : ℕ)
        → In i xs
        → In j xs
        → (c'.buf i).dev ≡ (c'.buf j).dev
        → (c'.buf i).blockno ≡ (c'.buf j).blockno
        → (c'.buf i).dev ≢ 0
        → i ≡ j
    unique' i j hi hj e f n = elim (ℕ_discrete i b) [
      | yes ib ↦ elim (ℕ_discrete j b) [
        | yes jb ↦ ib ∙ sym jb
        | no jb ↦ absurd (
            jb (
              sole j hj (
                sym (dev_as j jb) ∙ (sym e ∙ (at_b i ib).0),
                sym (blockno_as j jb) ∙ (sym f ∙ (at_b i ib).1),
              )))
      ]
      | no ib ↦ elim (ℕ_discrete j b) [
        | yes jb ↦ absurd (
            ib (
              sole i hi (
                sym (dev_as i ib) ∙ (e ∙ (at_b j jb).0),
                sym (blockno_as i ib) ∙ (f ∙ (at_b j jb).1),
              )))
        | no jb ↦
            v.unique i j hi hj (sym (dev_as i ib) ∙ (e ∙ dev_as j jb))
              (sym (blockno_as i ib) ∙ (f ∙ blockno_as j jb)) (λ q. n (dev_as i ib ∙ q))
      ]
    ]

    clean' :
        (i : ℕ)
        → In i xs
        → (c'.buf i).refcnt ≡ 0
        → (c'.buf i).valid ≡ true
        → (c'.buf i).words ≡ disk (c'.buf i).dev (c'.buf i).blockno
    clean' i h r w = elim (ℕ_discrete i b) [
      | yes ib ↦ absurd (omega (arith, ap (λ (k : ℕ). (c'.buf k).refcnt) ib))
      | no ib ↦ rw (others i ib) (v.clean i h (rw (others i ib) at r) (rw (others i ib) at w))
    ]

    other_block :
        (d n : ℕ) (w : ℕ → ℕ) → d ≢ 0 → (d ≡ dev → n ≡ blockno → ⊥) → Shows c d n w → Shows c' d n w
    other_block d n w nz other (inr (h, e)) =
        inr (
          λ i hi o. let (apart, same) = another i d n other o in rw same (h i hi (rw same at o)),
          e,
        )
    other_block d n w nz other (inl (i, hi, oi, vi, wi)) = elim (ℕ_discrete i b) [
      | no ib ↦ inl (i, hi, rw (others i ib) oi, rw (others i ib) vi, rw (others i ib) wi)
      | yes ib ↦ inr (
        λ j hj o.
            let (apart, same) = another j d n other o in
            absurd (
              apart (
                sym (
                  v.unique i j hi hj (oi.0 ∙ sym (sym (dev_as j apart) ∙ o.0))
                    (oi.1 ∙ sym (sym (blockno_as j apart) ∙ o.1)) (λ q. nz (sym oi.0 ∙ q)))
                ∙ ib)),
        let free = was_free d n other (subst (λ (k : ℕ). IsOf d n (c.buf k)) ib oi) in
            sym wi
            ∙ (v.clean i hi (ap (λ (k : ℕ). (c.buf k).refcnt) ib ∙ free) vi ∙ ap₂ disk oi.0 oi.1),
      )
    ]

    kept : (d n : ℕ) (w : ℕ → ℕ) → d ≢ 0 → Shows c d n w → Shows c' d n w
    kept d n w nz s = elim (IsOf-cases d n dev blockno) [
      | inl (e, f) ↦ inl (
        b,
        m,
        rw (e, f) self,
        valid,
        Shows-unique c dev blockno (c'.buf b).words w z v shown
            (subst (λ (n : ℕ). Shows c dev n w) f (subst (λ (d : ℕ). Shows c d n w) e s)),
      )
      | inr other ↦ other_block d n w nz other s
    ]

    read : Read dev blockno c b c'
    read = record {
      member = m;
      holder = self;
      used = used;
      shown = shown;
      kept = kept;
      coherent = record { unique = unique'; clean = clean' };
    }

  -- A buffer behind `if(!b->valid)`.
  abbrev filled_buf : Buf → Buf
  filled_buf x = if x.valid then x else record x { words = disk x.dev x.blockno; valid = true }

  fill-put : (c : Cache) (b : ℕ) (x : Buf) → (fill disk b (put c b x)).buf b ≡ filled_buf x
  fill-put c b x = elim (Bool-cases x.valid) [
    | inl e ↦ simp (update_self c.buf b x, e)
    | inr e ↦ simp (update_self c.buf b x, e) (ground arith)
  ]

  fill-put_ne :
      (c : Cache) (b : ℕ) (x : Buf) (i : ℕ) → i ≢ b → (fill disk b (put c b x)).buf i ≡ c.buf i
  fill-put_ne c b x i n = elim (Bool-cases x.valid) [
    | inl e ↦ simp (update_self c.buf b x, e) (update_ne c.buf b i x (λ q. n (sym q)))
    | inr e ↦ simp (update_self c.buf b x, e) (ground arith)
  ]

  fill-put-links :
      (c : Cache) (b : ℕ) (x : Buf)
      → ((fill disk b (put c b x)).next ≡ c.next) × ((fill disk b (put c b x)).prev ≡ c.prev)
  fill-put-links c b x = elim (Bool-cases ((put c b x).buf b).valid) [
    | inl e ↦ rw e (refl, refl)
    | inr e ↦ rw e (refl, refl)
  ]

  module _ (dev blockno : ℕ) (z : dev ≢ 0) (c : Cache) (v : IsCoherent c) (b : ℕ)
      (m : In b xs) where
    cached-Read :
        IsOf dev blockno (c.buf b)
        → Read dev blockno c b
            (fill disk b (put c b (record (c.buf b) { refcnt = (c.buf b).refcnt + 1 })))
    cached-Read o =
        let x : Buf = record (c.buf b) { refcnt = (c.buf b).refcnt + 1 } in
        let e = fill-put c b x in
        read dev blockno c (fill disk b (put c b x)) b z v m (inl o) (rw e (ground arith))
          (rw e (ground arith)) (rw e (ground arith)) (fill-put_ne c b x)
          (rw e (elim (Bool-cases (c.buf b).valid) [
            | inl y ↦ rw y (inl (b, m, o, y, refl))
            | inr y ↦ rw y (
                inr (
                  λ i h o'.
                      ap (λ (k : ℕ). (c.buf k).valid)
                        (v.unique i b h m (o'.0 ∙ sym o.0) (o'.1 ∙ sym o.1) (λ q. z (sym o'.0 ∙ q)))
                      ∙ y,
                  ap₂ disk o.0 o.1,
                ))
          ]))

    given-Read :
        (c.buf b).refcnt ≡ 0
        → ((i : ℕ) → In i xs → IsOf dev blockno (c.buf i) → ⊥)
        → Read dev blockno c b (fill disk b (put c b (taken dev blockno (c.buf b))))
    given-Read free none_has =
        let x = taken dev blockno (c.buf b) in
        let e = fill-put c b x in
        read dev blockno c (fill disk b (put c b x)) b z v m (inr (free, none_has))
          (rw e (refl, refl)) (rw e refl) (rw e (omega arith)) (fill-put_ne c b x)
          (rw e (inr (λ i h o. absurd (none_has i h o), refl)))

  -- On a coherent cache with the ring `xs` of at most NBUF buffers, and for a device that is not 0:
  -- where `bread` returns a buffer, it is in use, has the block and the words that the cache showed
  -- of it; the cache goes on showing of each block what it showed, though a buffer may have changed
  -- hands; and no block has two buffers.
  pub bread-Read :
      (dev blockno : ℕ) (c : Cache) (b : ℕ) (c' : Cache)
      → dev ≢ 0
      → IsCoherent c
      → IsRing xs c
      → length xs ≤ nbuf
      → bread disk dev blockno c ≡ some (b, c')
      → Read dev blockno c b c'
  unfolding bread
  bread-Read dev blockno c b c' z v r l e = of_Got (bget-Got dev blockno xs c r l)
    where
      result :
          (a : ℕ) (d : Cache)
          → bget dev blockno c ≡ some (a, d)
          → Read dev blockno c a (fill disk a d)
          → Read dev blockno c b c'
      result a d g h =
          let same : filled disk (some (a, d)) ≡ some (b, c') = ap (filled disk) (sym g) ∙ e in
          let first : a ≡ b = cc in
          let second : fill disk a d ≡ c' = cc in
          subst (λ (k : ℕ). Read dev blockno c k c') first
            (subst (λ (k : Cache). Read dev blockno c a k) second h)

      of_Got : Got dev blockno xs c (bget dev blockno c) → Read dev blockno c b c'
      of_Got (cached pre a post w h g) =
          let m : In a xs = subst (In a) (sym w) (In-middle pre a post) in
          result a _ g (cached-Read dev blockno z c v a m (ground arith))
      of_Got (recycled pre a post w none_has free used g) =
          let m : In a xs = subst (In a) (sym w) (In-middle pre a post) in
          result a _ g (
            given-Read dev blockno z c v a m free (λ i h o. absurd (
              let q : holds dev blockno (c.buf i) ≡ false =
                All-In (λ k. holds dev blockno (c.buf k) ≡ false) xs i none_has h in
              ground arith)))
      of_Got (busy none_has used g) =
          absurd (let n : filled disk (bget dev blockno c) ≡ none = ap (filled disk) g in cc)
