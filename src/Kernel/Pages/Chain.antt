-- ===== src/Kernel/Pages/Chain.antt =====
-- The pages that the list of free pages leads to.
use osn_mp.Common.{ℕ, ◌+◌, ◌%◌, ◌≤◌, ◌<◌, List, [], ◌∷◌, ◌≡◌, ◌≢◌, ◌⊎◌, arith, sym, subst, All}
use osn_mp.Kernel.Pages.{Kmem, pgsize, phystop, set_page}

module _ (kernel_end : ℕ) where
  -- A page that `kfree` takes.
  pub record IsPage (pa : ℕ) : Type 0 where
    pub aligned : pa % pgsize ≡ 0
    pub above : kernel_end ≤ pa
    pub below : pa < phystop

  abbrev pub IsDistinct : List ℕ → Type 0
  IsDistinct [] = Unit
  IsDistinct (x ∷ r) = All (λ y. y ≢ x) r × IsDistinct r

  -- Following the first words from `p` gives these pages, and then 0.
  abbrev pub IsChain : (ℕ → ℕ) → ℕ → List ℕ → Type 0
  IsChain memory p [] = p ≡ 0
  IsChain memory p (x ∷ r) = (p ≡ x) × IsChain memory (memory x) r

  -- The free pages are those of the list, each once.
  pub record IsFree (s : Kmem) (l : List ℕ) : Type 0 where
    pub chain : IsChain s.memory s.freelist l
    pub pages : All IsPage l
    pub distinct : IsDistinct l

  -- Memory that is the same outside of a page.
  abbrev pub SameOutside : ℕ → (ℕ → ℕ) → (ℕ → ℕ) → Type 0
  SameOutside pa m m' = (a : ℕ) → (a < pa) ⊎ (pa + pgsize ≤ a) → m' a ≡ m a

  pub set_page-SameOutside : (pa word : ℕ) (m : ℕ → ℕ) → SameOutside pa m (set_page pa word m)
  unfolding set_page
  set_page-SameOutside pa word m a h = ground arith

  pub IsChain-outside :
      (pa : ℕ) (m m' : ℕ → ℕ) (p : ℕ) (l : List ℕ)
      → pa % pgsize ≡ 0
      → SameOutside pa m m'
      → All IsPage l
      → All (λ y. y ≢ pa) l
      → IsChain m p l
      → IsChain m' p l
  IsChain-outside pa m m' p [] al same hp hn c = c
  IsChain-outside pa m m' p (x ∷ r) al same hp hn c =
      let e : m' x ≡ m x = same x (omega (arith, hp.0.aligned, hn.0)) in
      (
        c.0,
        subst (λ (k : ℕ). IsChain m' k r) (sym e)
            (IsChain-outside pa m m' (m x) r al same hp.1 hn.1 c.1),
      )
