-- ===== src/Fs/Alloc.antt =====
-- The bitmap of the disk: balloc and bfree.
pub mod Search
pub mod Bitmap
use nice_system_calls.Common.{
  ℕ, zero, suc, ◌+◌, ◌-◌, ◌/◌, ◌%◌, ◌^◌, Bool, true, false, Option, none, some, arith, ltb, ◌==◌,
  if◌then◌else◌, ◌&&◌, Outcome, ok, panic, ◌>>=◌,
}
use nice_system_calls.Memory.{Memory, poke}
use nice_system_calls.Fs.{Fs, bpb, bblock, bzero, log_block, readsb}
use nice_system_calls.Fs.Bits.{bit, set_bit, clear_bit}

-- The inner loop of `balloc` at `bi`, in the bitmap block `bp` whose first bit is that of block `b`,
-- with the rounds that are left.
unfoldable pub find_bit : ℕ → Memory → ℕ → ℕ → ℕ → Option ℕ
find_bit size bp b zero bi = none
find_bit size bp b (suc rounds) bi =
    let rest = find_bit size bp b rounds (suc bi) in
    if ltb (b + bi) size then (if bit (bp (bi / 8)) (bi % 8) == 0 then some bi else rest) else none

-- `bp->data[bi/8] |= m; log_write(bp); ...; bzero(dev, b + bi);`
unfoldable pub take_block : ℕ → ℕ → Fs → Fs
take_block b bi s =
    let n = bblock b s.sb in
    let bp = s.blocks n in
    bzero (b + bi) (log_block n (poke (bi / 8) (set_bit (bp (bi / 8)) (bi % 8)) bp) s)

-- The outer loop of `balloc` at `b`, with the rounds that are left.
unfoldable pub balloc_from : ℕ → ℕ → Fs → Outcome (ℕ × Fs)
balloc_from zero b s = panic "balloc: out of blocks"
balloc_from (suc rounds) b s =
    let rest = balloc_from rounds (b + bpb) s in
    let found = find_bit s.sb.size (s.blocks (bblock b s.sb)) b bpb 0 in
    if ltb b s.sb.size
    then elim found [ none ↦ rest | some bi ↦ ok (b + bi, take_block b bi s) ]
    else panic "balloc: out of blocks"

unfoldable pub balloc : Fs → Outcome (ℕ × Fs)
balloc s = balloc_from (s.sb.size / bpb + 1) 0 s

-- `bfree` reads the super block again first.
unfoldable pub bfree : ℕ → Fs → Outcome Fs
bfree b s0 =
    let s : Fs = record s0 { sb = readsb s0 } in
    let n = bblock b s.sb in
    let bp = s.blocks n in
    let bi = b % bpb in
    if bit (bp (bi / 8)) (bi % 8) == 0
    then panic "freeing free block"
    else ok (log_block n (poke (bi / 8) (clear_bit (bp (bi / 8)) (bi % 8)) bp) s)
