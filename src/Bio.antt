-- ===== src/Bio.antt =====
-- bio.c and memide.c: the cache of blocks, over the disk in memory. Buffer `i` of the array is the
-- number `i`, and the number 30, behind the last, is `bcache.head`; a field of the buffers is a
-- function of the number. A sleep lock that is held stays held while this process waits for it: that
-- is a fault here.
pub mod Ring
pub mod Order
pub mod Release
pub mod Lookup
pub mod Uniqueness
pub mod Unique
pub mod Blocks
pub mod Coherent
mod Tests
use nice_system_calls.Common.{
  ℕ, zero, suc, ◌+◌, ◌-◌, List, [], ◌∷◌, Bool, true, false, not, ◌&&◌, ◌||◌, Option, none, some,
  arith, leb, ◌==◌, if◌then◌else◌, Outcome, ok, panic, fault, ◌>>=◌,
}
use nice_system_calls.Memory.{Memory}

-- NBUF, and `&bcache.head`.
abbrev pub nbuf : ℕ
nbuf = 30

abbrev pub head : ℕ
head = 30

abbrev pub update {ℓ} : {A : Type ℓ} → ℕ → A → (ℕ → A) → ℕ → A
update i a f x = if x == i then a else f x

-- `struct buf`, with the flags B_VALID and B_DIRTY apart, and the state of its sleep lock; and the
-- disk, `memdisk` and `disksize`.
pub record Bcache : Type 0 where
  pub next : ℕ → ℕ
  pub prev : ℕ → ℕ
  pub dev : ℕ → ℕ
  pub blockno : ℕ → ℕ
  pub refcnt : ℕ → ℕ
  pub valid : ℕ → Bool
  pub dirty : ℕ → Bool
  pub locked : ℕ → Bool
  pub content : ℕ → Memory
  pub disk : ℕ → Memory
  pub disksize : ℕ

-- `b->next = bcache.head.next; b->prev = &bcache.head; bcache.head.next->prev = b;
-- bcache.head.next = b;`
unfoldable pub link_front : ℕ → Bcache → Bcache
link_front b s =
    let next = update b (s.next head) s.next in
    record s { prev = update (next head) b (update b head s.prev); next = update head b next }

-- `b->next->prev = b->prev; b->prev->next = b->next;`
unfoldable pub unlink : ℕ → Bcache → Bcache
unlink b s =
    let prev = update (s.next b) (s.prev b) s.prev in
    record s { prev = prev; next = update (prev b) (s.next b) s.next }

-- The loop of `binit` from buffer `b` on, with the rounds that are left.
unfoldable pub link_all : ℕ → ℕ → Bcache → Bcache
link_all zero b s = s
link_all (suc rounds) b s =
    link_all rounds (suc b) (link_front b (record s { locked = update b false s.locked }))

unfoldable pub binit : Bcache → Bcache
binit s =
    link_all nbuf 0 (record s { prev = update head head s.prev; next = update head head s.next })

unfoldable pub has_block : ℕ → ℕ → Bcache → ℕ → Bool
has_block dev blockno s b = (s.dev b == dev) && (s.blockno b == blockno)

unfoldable pub is_spare : Bcache → ℕ → Bool
is_spare s b = (s.refcnt b == 0) && not (s.dirty b)

-- The loops of `bget`, at `b`: along the one or the other pointers to a buffer with the property, or
-- to the head. On fuel.
unfoldable pub scan : (ℕ → ℕ) → (ℕ → Bool) → ℕ → ℕ → Outcome (Option ℕ)
scan step test zero b = panic "fuel"
scan step test (suc fuel) b =
    let rest = scan step test fuel (step b) in
    if b == head then ok none else if test b then ok (some b) else rest

-- `acquiresleep(&b->lock); return b;`
unfoldable pub lock_buf : ℕ → Bcache → Outcome (ℕ × Bcache)
lock_buf b s = if s.locked b then fault else ok (b, record s { locked = update b true s.locked })

unfoldable pub recycle : ℕ → ℕ → ℕ → Bcache → Outcome (ℕ × Bcache)
recycle dev blockno b s = lock_buf b (record s {
  dev = update b dev s.dev;
  blockno = update b blockno s.blockno;
  valid = update b false s.valid;
  dirty = update b false s.dirty;
  refcnt = update b 1 s.refcnt;
})

unfoldable pub bget : ℕ → ℕ → Bcache → Outcome (ℕ × Bcache)
bget dev blockno s = do
  cached ← scan s.next (has_block dev blockno s) (nbuf + 1) (s.next head)
  elim cached [
    | some b ↦ lock_buf b (record s { refcnt = update b (s.refcnt b + 1) s.refcnt })
    | none ↦ (do
      spare ← scan s.prev (is_spare s) (nbuf + 1) (s.prev head)
      elim spare [ none ↦ panic "bget: no buffers" | some b ↦ recycle dev blockno b s ])
  ]

unfoldable pub iderw : ℕ → Bcache → Outcome Bcache
iderw b s =
    if not (s.locked b)
    then panic "iderw: buf not locked"
    else if s.valid b && not (s.dirty b)
    then panic "iderw: nothing to do"
    else if not (s.dev b == 1)
    then panic "iderw: request not for disk 1"
    else if leb s.disksize (s.blockno b)
    then panic "iderw: block out of range"
    else if s.dirty b
    then ok (record s {
      dirty = update b false s.dirty;
      disk = update (s.blockno b) (s.content b) s.disk;
      valid = update b true s.valid;
    })
    else ok (record s {
      content = update b (s.disk (s.blockno b)) s.content;
      valid = update b true s.valid;
    })

unfoldable pub bread : ℕ → ℕ → Bcache → Outcome (ℕ × Bcache)
bread dev blockno s = do
  r ← bget dev blockno s
  if r.1.valid r.0 then ok r else (do s' ← iderw r.0 r.1; ok (r.0, s'))

unfoldable pub bwrite : ℕ → Bcache → Outcome Bcache
bwrite b s =
    if not (s.locked b)
    then panic "bwrite"
    else iderw b (record s { dirty = update b true s.dirty })

-- `refcnt` is unsigned.
unfoldable pub brelse : ℕ → Bcache → Outcome Bcache
brelse b s =
    let count = if s.refcnt b == 0 then 4294967295 else s.refcnt b - 1 in
    let s' : Bcache = record s {
      locked = update b false s.locked;
      refcnt = update b count s.refcnt;
    } in
    if not (s.locked b)
    then panic "brelse"
    else ok (if count == 0 then link_front b (unlink b s') else s')
