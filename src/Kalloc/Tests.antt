-- ===== src/Kalloc/Tests.antt =====
-- A kernel that ends at 0x80104000, with two pages to free behind it.
use nice_system_calls.Common.{ℕ, ◌+◌, ◌-◌, ◌*◌, ◌/◌, refl, false, List, [], arith, Returns}
use nice_system_calls.Kalloc.{Kmem, pgsize, freerange}
use nice_system_calls.Kalloc.Freelist.{Chain}
use nice_system_calls.Kalloc.Range.{pages_up, freerange_lem}

abbrev boot : Kmem
boot = record { use_lock = false; freelist = 0; memory = λ x. 0 }

abbrev nothing : List ℕ
nothing = []

freerange_example :
    Returns
      (λ (k' : Kmem). Chain k'.memory k'.freelist (
        pages_up
          ((2148557000 - (2148548600 + pgsize - 1) / pgsize * pgsize) / pgsize)
          ((2148548600 + pgsize - 1) / pgsize * pgsize)
          []))
      (freerange 2148548600 2148548600 2148557000 boot)
freerange_example =
    freerange_lem 2148548600 2148548600 2148557000 boot (omega arith) (omega arith) (omega arith)
      (omega arith) refl
