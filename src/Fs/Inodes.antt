-- ===== src/Fs/Inodes.antt =====
-- fs.c: inodes on the disk and in the cache, ialloc to itrunc. A pointer to an inode is the index of
-- its entry in `icache.inode`, and null is `none`. The lock of the cache is held where the code holds
-- it. A sleep lock that is held stays held while this process waits for it: that is a fault here.
pub mod Dinode
pub mod Slots
pub mod Cache
pub mod SameCache
pub mod Sharing
use nice_system_calls.Common.{
  ℕ, zero, suc, ◌+◌, ◌-◌, ◌*◌, ◌/◌, ◌%◌, ◌^◌, List, [], ◌∷◌, ◌++◌, Bool, true, false, not, ◌&&◌,
  ◌||◌, Option, none, some, arith, ltb, ◌==◌, if◌then◌else◌, replicate, take, get_or, set, Outcome,
  ok, panic, fault, ◌>>=◌, load, store,
}
use nice_system_calls.Memory.{Memory, poke, memset}
use nice_system_calls.Kalloc.{read_word, write_word}
use nice_system_calls.Fs.{Fs, Inode, ndirect, nindirect, iblock, log_block}
use nice_system_calls.Fs.Alloc.{bfree}

-- `sizeof(struct dinode)`, of which a block holds eight.
abbrev pub dinode_size : ℕ
dinode_size = 64

-- A `short`, as the 16 bits it has, and an array of words.
unfoldable pub read_half : ℕ → Memory → ℕ
read_half a m = m a + m (a + 1) * 2 ^ 8

unfoldable pub write_half : ℕ → ℕ → Memory → Memory
write_half a w m = poke (a + 1) (w / 2 ^ 8 % 256) (poke a (w % 256) m)

unfoldable pub read_words : ℕ → ℕ → Memory → List ℕ
read_words a zero m = []
read_words a (suc n) m = read_word a m ∷ read_words (a + 4) n m

unfoldable pub write_words : ℕ → List ℕ → Memory → Memory
write_words a [] m = m
write_words a (w ∷ ws) m = write_words (a + 4) ws (write_word a w m)

-- The fields of `struct dinode` at an offset of the block: into an entry, and out of it.
unfoldable pub read_dinode : ℕ → Memory → Inode → Inode
read_dinode a m ip = record ip {
  type = read_half a m;
  major = read_half (a + 2) m;
  minor = read_half (a + 4) m;
  nlink = read_half (a + 6) m;
  size = read_word (a + 8) m;
  addrs = read_words (a + 12) (ndirect + 1) m;
}

unfoldable pub write_dinode : ℕ → Inode → Memory → Memory
write_dinode a ip m = write_words (a + 12) ip.addrs (
    write_word (a + 8) ip.size (
      write_half (a + 6) ip.nlink
        (write_half (a + 4) ip.minor (write_half (a + 2) ip.major (write_half a ip.type m)))))

abbrev pub dinode_at : ℕ → ℕ
dinode_at inum = inum % 8 * dinode_size

abbrev pub get_inode : ℕ → Fs → Outcome Inode
get_inode i s = load s.inodes i

abbrev pub put_inode : ℕ → Inode → Fs → Outcome Fs
put_inode i ip s = do is ← store s.inodes i ip; ok (record s { inodes = is })

unfoldable pub iupdate : ℕ → Fs → Outcome Fs
iupdate i s = do
  ip ← get_inode i s
  ok (
      log_block (iblock ip.inum s.sb)
        (write_dinode (dinode_at ip.inum) ip (s.blocks (iblock ip.inum s.sb))) s)

-- The loop of `iget` at entry `i`: the entry of the inode, else the first empty one, of which
-- `empty` is one that was met before.
pub data Slot : Type 0 where
  cached recycled : ℕ → Slot
  full : Slot

abbrev pub is_cached : ℕ → ℕ → Inode → Bool
is_cached dev inum ip = ltb 0 ip.refs && (ip.dev == dev) && (ip.inum == inum)

unfoldable pub find_inode : ℕ → ℕ → List Inode → ℕ → Slot → Slot
find_inode dev inum [] i empty = empty
find_inode dev inum (ip ∷ ips) i empty =
    let taken = find_inode dev inum ips (suc i) empty in
    let first = find_inode dev inum ips (suc i) (recycled i) in
    if is_cached dev inum ip
    then cached i
    else elim empty [ full ↦ if ip.refs == 0 then first else taken | _ ↦ taken ]

-- The entry that the loop found gets one more reference, or its first.
unfoldable pub use_slot : ℕ → ℕ → Fs → Slot → Outcome (ℕ × Fs)
use_slot dev inum s (cached i) = do
  ip ← get_inode i s
  s' ← put_inode i (record ip { refs = ip.refs + 1 }) s
  ok (i, s')
use_slot dev inum s (recycled i) = do
  ip ← get_inode i s
  s' ← put_inode i (record ip { dev = dev; inum = inum; refs = 1; valid = false }) s
  ok (i, s')
use_slot dev inum s full = panic "iget: no inodes"

unfoldable pub iget : ℕ → ℕ → Fs → Outcome (ℕ × Fs)
iget dev inum s = use_slot dev inum s (find_inode dev inum s.inodes 0 full)

unfoldable pub idup : ℕ → Fs → Outcome (ℕ × Fs)
idup i s = do ip ← get_inode i s; s' ← put_inode i (record ip { refs = ip.refs + 1 }) s; ok (i, s')

-- The loop of `ialloc` at `inum`, with the rounds that are left.
unfoldable pub ialloc_from : ℕ → ℕ → ℕ → ℕ → Fs → Outcome (ℕ × Fs)
ialloc_from zero inum dev type s = panic "ialloc: no inodes"
ialloc_from (suc rounds) inum dev type s =
    let rest = ialloc_from rounds (suc inum) dev type s in
    let b = iblock inum s.sb in
    let a = dinode_at inum in
    if ltb inum s.sb.ninodes
    then (if read_half a (s.blocks b) == 0
        then iget dev inum (log_block b (write_half a type (memset a 0 dinode_size (s.blocks b))) s)
        else rest)
    else panic "ialloc: no inodes"

unfoldable pub ialloc : ℕ → ℕ → Fs → Outcome (ℕ × Fs)
ialloc dev type s = ialloc_from s.sb.ninodes 1 dev type s

-- `if(!(ip->flags & I_VALID)) { ... }`: the entry is read from the disk.
unfoldable pub read_inode : Inode → Fs → Outcome Inode
read_inode ip s =
    if ip.valid
    then ok ip
    else (let ip' = read_dinode (dinode_at ip.inum) (s.blocks (iblock ip.inum s.sb)) ip in
        if ip'.type == 0 then panic "ilock: no type" else ok (record ip' { valid = true }))

unfoldable pub ilock : Option ℕ → Fs → Outcome Fs
ilock none s = panic "ilock"
ilock (some i) s = do
  ip ← get_inode i s
  if ltb ip.refs 1
      then panic "ilock"
      else if ip.locked
      then fault
      else (do ip' ← read_inode (record ip { locked = true }) s; put_inode i ip' s)

unfoldable pub iunlock : Option ℕ → Fs → Outcome Fs
iunlock none s = panic "iunlock"
iunlock (some i) s = do
  ip ← get_inode i s
  if not ip.locked || ltb ip.refs 1
      then panic "iunlock"
      else put_inode i (record ip { locked = false }) s

-- `if(a) bfree(dev, a);`
unfoldable pub bfree_used : ℕ → Fs → Outcome Fs
bfree_used b s = if b == 0 then ok s else bfree b s

-- The two loops of `itrunc`: over the direct blocks, and over the words of block `b` from `j` on.
-- The direct blocks are set to 0, which they were or which the loop makes them.
unfoldable pub free_direct : List ℕ → Fs → Outcome Fs
free_direct [] s = ok s
free_direct (b ∷ bs) s = bfree_used b s >>= free_direct bs

unfoldable pub free_indirect : ℕ → ℕ → ℕ → Fs → Outcome Fs
free_indirect zero b j s = ok s
free_indirect (suc n) b j s =
    bfree_used (read_word (4 * j) (s.blocks b)) s >>= free_indirect n b (suc j)

unfoldable pub itrunc : ℕ → Fs → Outcome Fs
itrunc i s = do
  ip ← get_inode i s
  s1 ← free_direct (take ndirect ip.addrs) s
  let b = get_or ip.addrs ndirect 0
  s2 ← if b == 0 then ok s1 else (free_indirect nindirect b 0 s1 >>= bfree b)
  s3 ← put_inode i (record ip { addrs = replicate (ndirect + 1) 0; size = 0 }) s2
  iupdate i s3

-- `ref--`; a count of 0 would go below.
unfoldable pub drop_ref : ℕ → Fs → Outcome Fs
drop_ref i s = do
  ip ← get_inode i s
  if ip.refs == 0 then fault else put_inode i (record ip { refs = ip.refs - 1 }) s

-- `itrunc(ip); ip->type = 0; iupdate(ip); ip->flags = 0;`
unfoldable pub free_inode : ℕ → Fs → Outcome Fs
free_inode i s = do
  s1 ← itrunc i s
  ip ← get_inode i s1
  s2 ← put_inode i (record ip { type = 0 }) s1
  s3 ← iupdate i s2
  ip' ← get_inode i s3
  put_inode i (record ip' { valid = false }) s3

unfoldable pub iput : ℕ → Fs → Outcome Fs
iput i s = do
  ip ← get_inode i s
  s' ← if (ip.refs == 1) && ip.valid && (ip.nlink == 0) then free_inode i s else ok s
  drop_ref i s'

unfoldable pub iunlockput : ℕ → Fs → Outcome Fs
iunlockput i s = iunlock (some i) s >>= iput i
