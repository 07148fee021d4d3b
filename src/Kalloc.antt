-- ===== src/Kalloc.antt =====
-- kalloc.c: the free pages of physical memory, a list that is threaded through the pages. The lock
-- of the list is held throughout each call, where it is in use.
pub mod Freelist
pub mod Range
mod Tests
use nice_system_calls.Common.{
  ℕ, zero, suc, ◌+◌, ◌-◌, ◌*◌, ◌/◌, ◌%◌, ◌^◌, Bool, true, false, arith, ltb, leb, ◌==◌,
  if◌then◌else◌, ◌||◌, not, Outcome, ok, panic, ◌>>=◌,
}
use nice_system_calls.Memory.{Memory, poke, memset}

-- PGSIZE, KERNBASE and PHYSTOP.
abbrev pub pgsize : ℕ
pgsize = 4096

abbrev pub kernbase : ℕ
kernbase = 2147483648

abbrev pub phystop : ℕ
phystop = 234881024

-- V2P: the physical address, on 32-bit words.
abbrev pub v2p : ℕ → ℕ
v2p v = (v + 2 ^ 32 - kernbase) % 2 ^ 32

-- `kmem`, and the memory. A `struct run` is the word at the start of a free page.
pub record Kmem : Type 0 where
  pub use_lock : Bool
  pub freelist : ℕ
  pub memory : Memory

-- The 32-bit word at an address, its lowest byte first.
unfoldable pub read_word : ℕ → Memory → ℕ
read_word a m = m a + m (a + 1) * 2 ^ 8 + m (a + 2) * 2 ^ 16 + m (a + 3) * 2 ^ 24

unfoldable pub write_word : ℕ → ℕ → Memory → Memory
write_word a w m =
    poke (a + 3) (w / 2 ^ 24 % 256)
      (poke (a + 2) (w / 2 ^ 16 % 256) (poke (a + 1) (w / 2 ^ 8 % 256) (poke a (w % 256) m)))

-- `end`, the first address behind the kernel, is set by the linker.
module _ (end : ℕ) where
  unfoldable pub kfree : ℕ → Kmem → Outcome Kmem
  kfree v k =
      if not (v % pgsize == 0) || ltb v end || leb phystop (v2p v)
      then panic "kfree"
      else ok
          (record k { memory = write_word v k.freelist (memset v 1 pgsize k.memory); freelist = v })

  -- The loop of `freerange` from page `p` on, with the rounds that are left.
  unfoldable pub free_pages : ℕ → ℕ → ℕ → Kmem → Outcome Kmem
  free_pages zero p vend k = ok k
  free_pages (suc rounds) p vend k =
      if leb (p + pgsize) vend then kfree p k >>= free_pages rounds (p + pgsize) vend else ok k

  -- PGROUNDUP of the start, and as many rounds as pages can fit.
  unfoldable pub freerange : ℕ → ℕ → Kmem → Outcome Kmem
  freerange vstart vend k =
      free_pages (vend / pgsize + 1) ((vstart + pgsize - 1) % 2 ^ 32 / pgsize * pgsize) vend k

  pub kinit1 : ℕ → ℕ → Kmem → Outcome Kmem
  kinit1 vstart vend k = freerange vstart vend (record k { use_lock = false })

  pub kinit2 : ℕ → ℕ → Kmem → Outcome Kmem
  kinit2 vstart vend k = do k' ← freerange vstart vend k; ok (record k' { use_lock = true })

-- The page, 0 where none is left.
unfoldable pub kalloc : Kmem → ℕ × Kmem
kalloc k =
    if k.freelist == 0
    then (0, k)
    else (k.freelist, record k { freelist = read_word k.freelist k.memory })
