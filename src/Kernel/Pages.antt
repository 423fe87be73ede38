-- ===== src/Kernel/Pages.antt =====
-- xv6/kernel/kalloc.c: the list of free pages, which is kept in the pages. Each function runs under
-- `kmem.lock`. Memory is a function from the addresses of 64-bit words; `kernel_end` is the address
-- `end` of kernel.ld. A panic is none.
pub mod Chain
pub mod Given
mod Tests
use osn_mp.Common.{
  ℕ, zero, suc, ◌+◌, ◌-◌, ◌*◌, ◌/◌, ◌%◌, Bool, true, false, ◌&&◌, ◌||◌, not, Option, none, some,
  ltb, leb, ◌==◌, if◌then◌else◌,
}
use osn_mp.Common.Arrays.{update}

abbrev pub pgsize : ℕ
pgsize = 4096

-- `PHYSTOP`
abbrev pub phystop : ℕ
phystop = 0x88000000

-- `kmem`, and the memory with the `next` of each free page as its first word.
pub record Kmem : Type 0 where
  pub memory : ℕ → ℕ
  pub freelist : ℕ

-- `memset(pa, c, PGSIZE)`, where `word` is eight times the byte `c`.
unfoldable pub set_page : ℕ → ℕ → (ℕ → ℕ) → ℕ → ℕ
set_page pa word memory a = if leb pa a && ltb a (pa + pgsize) then word else memory a

abbrev pub junk_freed : ℕ
junk_freed = 0x0101010101010101

abbrev pub junk_given : ℕ
junk_given = 0x0505050505050505

module _ (kernel_end : ℕ) where
  unfoldable pub kfree : ℕ → Kmem → Option Kmem
  kfree pa s =
      if not (pa % pgsize == 0) || ltb pa kernel_end || leb phystop pa
      then none
      else some (record {
        memory = update (set_page pa junk_freed s.memory) pa s.freelist;
        freelist = pa;
      })

  -- The loop of `freerange` at `p`, with at most `fuel` rounds.
  unfoldable pub free_pages : ℕ → ℕ → ℕ → Kmem → Option Kmem
  free_pages zero p pa_end s = some s
  free_pages (suc fuel) p pa_end s =
      if leb (p + pgsize) pa_end
      then elim (kfree p s) [ none ↦ none | some s' ↦ free_pages fuel (p + pgsize) pa_end s' ]
      else some s

  -- `PGROUNDUP`
  abbrev pub pgroundup : ℕ → ℕ
  pgroundup a = (a + pgsize - 1) / pgsize * pgsize

  unfoldable pub freerange : ℕ → ℕ → Kmem → Option Kmem
  freerange pa_start pa_end s = free_pages (pa_end / pgsize + 1) (pgroundup pa_start) pa_end s

  unfoldable pub kinit : Kmem → Option Kmem
  kinit s = freerange kernel_end phystop s

-- The page, or 0, and the state.
unfoldable pub kalloc : Kmem → ℕ × Kmem
kalloc s = if s.freelist == 0 then (0, s) else (
  s.freelist,
  record { memory = set_page s.freelist junk_given s.memory; freelist = s.memory s.freelist },
)
