-- ===== src/Kernel/Pages/Given.antt =====
-- `kfree`, `kalloc` and `kinit` on the set of free pages.
use osn_mp.Common.{
  ℕ, zero, suc, ◌+◌, ◌-◌, ◌*◌, ◌/◌, ◌%◌, ◌≤◌, ◌<◌, List, [], ◌∷◌, true, false, not, ◌||◌, Option,
  some, ◌==◌, ◌≡◌, ◌≢◌, refl, arith, ap, sym, ◌∙◌, subst, All, leb, ltb,
}
use osn_mp.Common.Arrays.{update, update_self, update_ne}
use osn_mp.Kernel.Pages.{
  Kmem, pgsize, phystop, set_page, junk_freed, junk_given, kfree, free_pages, freerange, kinit,
  kalloc, pgroundup,
}
use osn_mp.Kernel.Pages.Chain.{
  IsPage, IsChain, IsFree, SameOutside, set_page-SameOutside, IsChain-outside,
}

module _ (kernel_end : ℕ) where
  pub record Freed (pa : ℕ) (s : Kmem) (l : List ℕ) (r : Option Kmem) : Type 0 where
    pub state : Kmem
    pub result : r ≡ some state
    pub free : IsFree kernel_end state (pa ∷ l)
    pub outside : SameOutside kernel_end pa s.memory state.memory

  kfree-guard :
      (pa : ℕ)
      → IsPage kernel_end pa
      → (not (pa % pgsize == 0) || ltb pa kernel_end || leb phystop pa) ≡ false
  kfree-guard pa h = ground (arith, h.aligned, h.above, h.below)

  -- `kfree` of a page that is not free adds it to the free pages, and changes no other page.
  pub kfree-Freed :
      (pa : ℕ) (s : Kmem) (l : List ℕ)
      → IsPage kernel_end pa
      → All (λ y. y ≢ pa) l
      → IsFree kernel_end s l
      → Freed pa s l (kfree kernel_end pa s)
  unfolding kfree
  kfree-Freed pa s l h n f = rw (kfree-guard pa h) (record {
    state = record {
      memory = update (set_page pa junk_freed s.memory) pa s.freelist;
      freelist = pa;
    };
    result = refl;
    free = record {
      chain = (
        refl,
        subst (λ (k : ℕ). IsChain kernel_end m' k l)
            (sym (update_self (set_page pa junk_freed s.memory) pa s.freelist))
            (IsChain-outside kernel_end pa s.memory m' s.freelist l h.aligned same f.pages n
              f.chain),
      );
      pages = (h, f.pages);
      distinct = (n, f.distinct);
    };
    outside = same;
  })
    where
      m' : ℕ → ℕ
      m' = update (set_page pa junk_freed s.memory) pa s.freelist

      same : SameOutside kernel_end pa s.memory m'
      same a o =
          update_ne (set_page pa junk_freed s.memory) pa a s.freelist (λ e. omega arith)
          ∙ set_page-SameOutside kernel_end pa junk_freed s.memory a o

  pub data Given (s : Kmem) (l : List ℕ) : Type 0 where
    none_left : l ≡ [] → kalloc s ≡ (0, s) → Given s l
    given :
        (x : ℕ) (r : List ℕ) (s' : Kmem)
        → l ≡ x ∷ r
        → kalloc s ≡ (x, s')
        → IsFree kernel_end s' r
        → All (λ y. y ≢ x) r
        → SameOutside kernel_end x s.memory s'.memory
        → Given s l

  -- For a kernel that does not end at 0, `kalloc` takes a page from the free pages and changes no other
  -- page, and the page is not free any more; where there is no free page, it returns 0 and changes
  -- nothing.
  pub kalloc-Given : (s : Kmem) (l : List ℕ) → 0 < kernel_end → IsFree kernel_end s l → Given s l
  unfolding kalloc
  kalloc-Given s [] pos f =
      let e : (s.freelist == 0) ≡ true = ground (arith, f.chain) in none_left refl (rw e refl)
  kalloc-Given s (x ∷ r) pos f =
      let at : s.freelist ≡ x = f.chain.0 in
      let e : (s.freelist == 0) ≡ false = ground (arith, f.pages.0.above) in
      let m' : ℕ → ℕ = set_page x junk_given s.memory in
      let same : SameOutside kernel_end x s.memory m' =
        set_page-SameOutside kernel_end x junk_given s.memory in
      given x r (record { memory = m'; freelist = s.memory x }) refl
        (rw e (
          ap
            (λ (k : ℕ).
              (k, record { memory = set_page k junk_given s.memory; freelist = s.memory k }))
            at))
        (record {
          chain =
              IsChain-outside kernel_end x s.memory m' (s.memory x) r f.pages.0.aligned same
                f.pages.1 f.distinct.0 f.chain.1;
          pages = f.pages.1;
          distinct = f.distinct.1;
        })
        f.distinct.0 same

  -- The free pages behind `n` rounds of `freerange` from `p`.
  abbrev pub with_pages : ℕ → ℕ → List ℕ → List ℕ
  with_pages zero p l = l
  with_pages (suc n) p l = with_pages n (p + pgsize) (p ∷ l)

  pub record Ranged (n p : ℕ) (l : List ℕ) (r : Option Kmem) : Type 0 where
    pub state : Kmem
    pub result : r ≡ some state
    pub free : IsFree kernel_end state (with_pages n p l)

  All-below : (l : List ℕ) (p q : ℕ) → p ≤ q → All (λ y. y < p) l → All (λ y. y < q) l
  All-below [] p q le h = tt
  All-below (y ∷ r) p q le h = (omega (arith, h.0), All-below r p q le h.1)

  All-apart : (l : List ℕ) (p : ℕ) → All (λ y. y < p) l → All (λ y. y ≢ p) l
  All-apart [] p h = tt
  All-apart (y ∷ r) p h = ((λ e. omega (arith, h.0)), All-apart r p h.1)

  -- With `n` whole pages up to `pa_end` and at least as many rounds and one.
  free_pages-Ranged :
      (n fuel p pa_end : ℕ) (s : Kmem) (l : List ℕ)
      → n < fuel
      → p + n * pgsize ≤ pa_end
      → pa_end < p + n * pgsize + pgsize
      → p % pgsize ≡ 0
      → kernel_end ≤ p
      → pa_end ≤ phystop
      → All (λ y. y < p) l
      → IsFree kernel_end s l
      → Ranged n p l (free_pages kernel_end fuel p pa_end s)
  unfolding free_pages
  free_pages-Ranged n zero p pa_end s l hf a b al ab be hl f = absurd (omega arith)
  free_pages-Ranged zero (suc fuel) p pa_end s l hf a b al ab be hl f =
      let e : leb (p + pgsize) pa_end ≡ false = ground arith in
      rw e (record { state = s; result = refl; free = f })
  free_pages-Ranged (suc n) (suc fuel) p pa_end s l hf a b al ab be hl f =
      let e : leb (p + pgsize) pa_end ≡ true = ground arith in
      let page : IsPage kernel_end p = record { aligned = al; above = ab; below = omega arith } in
      let k = kfree-Freed p s l page (All-apart l p hl) f in
      let t =
        free_pages-Ranged n fuel (p + pgsize) pa_end k.state (p ∷ l) (omega arith) (omega arith)
          (omega arith) (omega arith) (omega arith) be
          (omega arith, All-below l p (p + pgsize) (omega arith) hl) k.free in
      record { state = t.state; result = rw (free_pages, e, k.result) t.result; free = t.free }

  -- From an empty list, for a kernel that ends below PHYSTOP, `kinit` never panics and frees every whole
  -- page from the first page boundary behind the kernel up to PHYSTOP, each once.
  pub kinit-Ranged :
      (s : Kmem)
      → s.freelist ≡ 0
      → kernel_end ≤ phystop
      → Ranged
          ((phystop - pgroundup kernel_end kernel_end) / pgsize)
          (pgroundup kernel_end kernel_end)
          []
          (kinit kernel_end s)
  unfolding kinit freerange
  kinit-Ranged s e le =
      free_pages-Ranged ((phystop - pgroundup kernel_end kernel_end) / pgsize)
        (phystop / pgsize + 1) (pgroundup kernel_end kernel_end) phystop s [] (omega arith)
        (omega arith) (omega arith) (omega arith) (omega arith) (omega arith) tt
        (record { chain = e; pages = tt; distinct = tt })
