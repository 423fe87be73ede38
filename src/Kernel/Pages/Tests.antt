-- ===== src/Kernel/Pages/Tests.antt =====
-- Runs of the page allocator, and the theorems at them.
use osn_mp.Common.{ℕ, ◌*◌, ◌+◌, [], ◌∷◌, some, none, ◌≡◌, refl, arith}
use mathlib.Core.Option
use osn_mp.Kernel.Pages.{Kmem, pgsize, kfree, free_pages, freerange, kalloc}
use osn_mp.Kernel.Pages.Chain.{IsPage, IsFree}
use osn_mp.Kernel.Pages.Given.{Freed, Given, kfree-Freed, kalloc-Given}

abbrev kernel_end : ℕ
kernel_end = 0x80001234

abbrev nothing_free : Kmem
nothing_free = record { memory = λ a. 7; freelist = 0 }

abbrev page : ℕ
page = 0x80002000

abbrev one_free : Kmem
one_free = record { memory = λ a. 0; freelist = page }

two_pages :
    Option.map
      (λ (s : Kmem). (kalloc s).0)
      (freerange kernel_end kernel_end (page + 2 * pgsize + 5) nothing_free)
    ≡ some (page + pgsize)
unfolding freerange free_pages kfree kalloc
two_pages = refl

unaligned_panics : kfree kernel_end (page + 8) nothing_free ≡ none
unfolding kfree
unaligned_panics = refl

page-IsPage : IsPage kernel_end page
page-IsPage = record { aligned = omega arith; above = omega arith; below = omega arith }

one_free-IsFree : IsFree kernel_end one_free (page ∷ [])
one_free-IsFree = record { chain = (refl, refl); pages = (page-IsPage, tt); distinct = (tt, tt) }

kfree-Freed_example :
    Freed kernel_end
      (page + pgsize)
      one_free
      (page ∷ [])
      (kfree kernel_end (page + pgsize) one_free)
kfree-Freed_example =
    kfree-Freed kernel_end (page + pgsize) one_free (page ∷ [])
      (record { aligned = omega arith; above = omega arith; below = omega arith })
      ((λ e. omega arith), tt) one_free-IsFree

kalloc-Given_example : Given kernel_end one_free (page ∷ [])
kalloc-Given_example = kalloc-Given kernel_end one_free (page ∷ []) (omega arith) one_free-IsFree
