-- ===== src/Fs/Content.antt =====
-- fs.c: the content of an inode, bmap to writei. The bytes that are copied from and to memory are
-- lists, and a length that comes back is that of the list. `none` stands for the reply -1.
pub mod Mapping
pub mod Reading
pub mod Writing
pub mod WriteLoop
pub mod RoundTrip
use nice_system_calls.Common.{
  ℕ, zero, suc, ◌+◌, ◌-◌, ◌*◌, ◌/◌, ◌%◌, ◌^◌, List, [], ◌∷◌, ◌++◌, Bool, true, false, ◌&&◌, ◌||◌,
  Option, none, some, arith, ltb, leb, ◌==◌, if◌then◌else◌, length, take, drop, get_or, set, window,
  Outcome, ok, panic, ◌>>=◌,
}
use nice_system_calls.Memory.{Memory, poke}
use nice_system_calls.Kalloc.{read_word, write_word}
use nice_system_calls.Fs.{Fs, Inode, bsize, ndirect, nindirect, maxfile, t_dev, log_block}
use nice_system_calls.Fs.Alloc.{balloc}
use nice_system_calls.Fs.Inodes.{get_inode, put_inode, iupdate}

-- `if((addr = ip->addrs[k]) == 0) ip->addrs[k] = addr = balloc(ip->dev);`
unfoldable pub map_addr : ℕ → ℕ → Fs → Outcome (ℕ × Fs)
map_addr i k s = do
  ip ← get_inode i s
  if get_or ip.addrs k 0 == 0
      then (do
        r ← balloc s
        s' ← put_inode i (record ip { addrs = set ip.addrs k r.0 }) r.1
        ok (r.0, s'))
      else ok (get_or ip.addrs k 0, s)

-- The word of the indirect block `b`, in the same way.
unfoldable pub map_word : ℕ → ℕ → Fs → Outcome (ℕ × Fs)
map_word b k s =
    if read_word (4 * k) (s.blocks b) == 0
    then (do r ← balloc s; ok (r.0, log_block b (write_word (4 * k) r.0 (r.1.blocks b)) r.1))
    else ok (read_word (4 * k) (s.blocks b), s)

unfoldable pub bmap : ℕ → ℕ → Fs → Outcome (ℕ × Fs)
bmap i bn s =
    if ltb bn ndirect
    then map_addr i bn s
    else if ltb (bn - ndirect) nindirect
    then (map_addr i ndirect s >>= λ r. map_word r.0 (bn - ndirect) r.1)
    else panic "bmap: out of range"

-- `struct stat`
pub record Stat : Type 0 where
  pub dev : ℕ
  pub ino : ℕ
  pub type : ℕ
  pub nlink : ℕ
  pub size : ℕ

pub stati : Inode → Stat
stati ip = record { dev = ip.dev; ino = ip.inum; type = ip.type; nlink = ip.nlink; size = ip.size }

-- `min(n - tot, BSIZE - off%BSIZE)`
abbrev pub part_of_block : ℕ → ℕ → ℕ
part_of_block off left = if ltb left (bsize - off % bsize) then left else bsize - off % bsize

-- The loop of `readi` with `left` bytes left, on fuel.
unfoldable pub read_from : ℕ → ℕ → ℕ → ℕ → Fs → Outcome (List ℕ × Fs)
read_from zero i off left s = panic "fuel"
read_from (suc fuel) i off left s = if left == 0 then ok ([], s) else (do
  r ← bmap i (off / bsize) s
  rest ← read_from fuel i (off + part_of_block off left) (left - part_of_block off left) r.1
  ok (window (r.1.blocks r.0) (off % bsize) (part_of_block off left) ++ rest.0, rest.1))

-- `memmove` of a list of bytes to an address.
unfoldable pub write_bytes : ℕ → List ℕ → Memory → Memory
write_bytes a [] m = m
write_bytes a (x ∷ xs) m = write_bytes (suc a) xs (poke a x m)

-- The loop of `writei` with the bytes that are left, on fuel.
unfoldable pub write_content : ℕ → ℕ → ℕ → List ℕ → Fs → Outcome Fs
write_content zero i off src s = panic "fuel"
write_content (suc fuel) i off src s =
    let m = part_of_block off (length src) in
    if length src == 0 then ok s else (do
      r ← bmap i (off / bsize) s
      write_content fuel i (off + m) (drop m src)
          (log_block r.0 (write_bytes (off % bsize) (take m src) (r.1.blocks r.0)) r.1))

-- NDEV. A `short` below 0 is at least 2^15 as 16 bits, so this bound is on both sides.
abbrev pub ndev : ℕ
ndev = 10

-- The table `devsw` is filled by the drivers: the routines of a device, by its major number.
pub record Devsw : Type 0 where
  pub read : ℕ → Option (ℕ → ℕ → Fs → Outcome (Option (List ℕ) × Fs))
  pub write : ℕ → Option (ℕ → List ℕ → Fs → Outcome (Option ℕ × Fs))

-- `if(n > 0 && off > ip->size) { ip->size = off; iupdate(ip); }` behind the loop.
unfoldable pub grow : ℕ → ℕ → ℕ → Fs → Outcome Fs
grow i off n s = do
  ip ← get_inode i s
  if ltb 0 n && ltb ip.size off
      then (put_inode i (record ip { size = off }) s >>= iupdate i)
      else ok s

module _ (devsw : Devsw) where
  unfoldable pub read_device : ℕ → Inode → ℕ → Fs → Outcome (Option (List ℕ) × Fs)
  read_device i ip n s =
      if leb ndev ip.major
      then ok (none, s)
      else elim (devsw.read ip.major) [ none ↦ ok (none, s) | some f ↦ f i n s ]

  unfoldable pub readi : ℕ → ℕ → ℕ → Fs → Outcome (Option (List ℕ) × Fs)
  readi i off n s = do
    ip ← get_inode i s
    if ip.type == t_dev
        then read_device i ip n s
        else if ltb ip.size off || ltb ((off + n) % 2 ^ 32) off
        then ok (none, s)
        else (do
          let count = if ltb ip.size (off + n) then ip.size - off else n
          r ← read_from (count + 1) i off count s
          ok (some r.0, r.1))

  unfoldable pub write_device : ℕ → Inode → List ℕ → Fs → Outcome (Option ℕ × Fs)
  write_device i ip src s =
      if leb ndev ip.major
      then ok (none, s)
      else elim (devsw.write ip.major) [ none ↦ ok (none, s) | some f ↦ f i src s ]

  unfoldable pub writei : ℕ → List ℕ → ℕ → Fs → Outcome (Option ℕ × Fs)
  writei i src off s = do
    ip ← get_inode i s
    if ip.type == t_dev
        then write_device i ip src s
        else if ltb ip.size off
            || ltb ((off + length src) % 2 ^ 32) off
            || ltb (maxfile * bsize) (off + length src)
        then ok (none, s)
        else (do
          s1 ← write_content (length src + 1) i off src s
          s2 ← grow i (off + length src) (length src) s1
          ok (some (length src), s2))
