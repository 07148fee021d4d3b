-- ===== src/Kalloc/Range.antt =====
-- `freerange` puts every whole page of its range on the free list.
use nice_system_calls.Common.{
  ℕ, zero, suc, ◌+◌, ◌-◌, ◌*◌, ◌/◌, ◌%◌, ◌^◌, ◌≤◌, ◌<◌, ◌≡◌, inl, inr, List, [], ◌∷◌, arith, leb,
  Bool-cases, Returns, Returns-bind,
}
use nice_system_calls.Common.Distinct.{Below, Below-In, Below-mono}
use nice_system_calls.Kalloc.{Kmem, pgsize, kernbase, phystop, kfree, free_pages, freerange}
use nice_system_calls.Kalloc.Freelist.{Chain, kfree_lem}

-- The `n` pages from `p` on, put before `pages` one after the other.
abbrev pub pages_up : ℕ → ℕ → List ℕ → List ℕ
pages_up zero p pages = pages
pages_up (suc n) p pages = pages_up n (p + pgsize) (p ∷ pages)

free_pages_lem :
    (end rounds p vend : ℕ) (k : Kmem) (pages : List ℕ)
    → p % pgsize ≡ 0
    → end ≤ p
    → kernbase ≤ p
    → vend ≤ kernbase + phystop
    → (vend - p) / pgsize < rounds
    → Below p pages
    → Chain k.memory k.freelist pages
    → Returns
        (λ (k' : Kmem). Chain k'.memory k'.freelist (pages_up ((vend - p) / pgsize) p pages))
        (free_pages end rounds p vend k)
unfolding free_pages
free_pages_lem end zero p vend k pages a b c d fuel below chain = absurd (omega arith)
free_pages_lem end (suc rounds) p vend k pages a b c d fuel below chain =
    elim (Bool-cases (leb (p + pgsize) vend)) [
      | inr none_left ↦
          let stop : (vend - p) / pgsize ≡ 0 = ground arith in rw (none_left, stop) chain
      | inl more ↦
          let fits : p + pgsize ≤ vend = ground arith in
          let next : (vend - p) / pgsize ≡ suc ((vend - (p + pgsize)) / pgsize) = omega arith in
          rw (more, next)
            (Returns-bind _ _ (kfree end p k) _
              (kfree_lem end p k pages a b (omega arith) (omega arith) (omega arith) chain
                (λ i. absurd (omega (arith, Below-In p p pages below i))))
              (λ (k' : Kmem) e.
                free_pages_lem end rounds (p + pgsize) vend k' (p ∷ pages) (omega arith)
                  (omega arith) (omega arith) d (omega arith)
                  (omega arith, Below-mono p (p + pgsize) pages (omega arith) below) e.0))
    ]

-- `freerange`, with an empty free list and a range between the end of the kernel and the top of
-- physical memory, returns with every whole page of the range on the free list, the last page
-- first.
pub freerange_lem :
    (end vstart vend : ℕ) (k : Kmem)
    → end ≤ vstart
    → kernbase ≤ vstart
    → vstart ≤ kernbase + phystop
    → vend ≤ kernbase + phystop
    → k.freelist ≡ 0
    → Returns
        (λ (k' : Kmem). Chain k'.memory k'.freelist (
          pages_up
            ((vend - (vstart + pgsize - 1) / pgsize * pgsize) / pgsize)
            ((vstart + pgsize - 1) / pgsize * pgsize)
            []))
        (freerange end vstart vend k)
unfolding freerange
freerange_lem end vstart vend k a b c d e =
    let whole : (vstart + pgsize - 1) % 2 ^ 32 ≡ vstart + pgsize - 1 = omega arith in
    rw whole (
      free_pages_lem end (vend / pgsize + 1) ((vstart + pgsize - 1) / pgsize * pgsize) vend k []
        (omega arith) (omega arith) (omega arith) d (omega arith) tt e)
