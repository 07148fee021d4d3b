-- ===== src/Fs.antt =====
-- fs.c: the blocks of the disk, the bitmap, inodes, their content, directories and paths. The buffer
-- cache and the log are taken at their contract: a block holds what was last written to it, and
-- `log_write` notes its number. One process at a time is in these routines.
pub mod Bits
pub mod Alloc
pub mod Inodes
pub mod Content
pub mod Dir
pub mod FsPath
mod Tests
use nice_system_calls.Common.{
  ℕ, zero, suc, ◌+◌, ◌*◌, ◌/◌, ◌%◌, ◌^◌, List, [], ◌∷◌, Bool, arith, ◌==◌, if◌then◌else◌, replicate,
}
use nice_system_calls.Memory.{Memory, poke, memset}
use nice_system_calls.Kalloc.{read_word}

-- BSIZE, BPB, NDIRECT, NINDIRECT, NINODE.
abbrev pub bsize : ℕ
bsize = 512

abbrev pub bpb : ℕ
bpb = 4096

abbrev pub ndirect : ℕ
ndirect = 12

abbrev pub nindirect : ℕ
nindirect = 128

abbrev pub maxfile : ℕ
maxfile = 140

abbrev pub ninode : ℕ
ninode = 50

-- `struct superblock`
pub record Superblock : Type 0 where
  pub size : ℕ
  pub nblocks : ℕ
  pub ninodes : ℕ
  pub nlog : ℕ
  pub logstart : ℕ
  pub inodestart : ℕ
  pub bmapstart : ℕ

-- `struct inode`: `valid` is the flag I_VALID, `locked` the state of its sleep lock.
pub record Inode : Type 0 where
  pub dev : ℕ
  pub inum : ℕ
  pub refs : ℕ
  pub locked : Bool
  pub valid : Bool
  pub type : ℕ
  pub major : ℕ
  pub minor : ℕ
  pub nlink : ℕ
  pub size : ℕ
  pub addrs : List ℕ

-- The blocks, the numbers of those given to the log, `sb`, and `icache.inode`.
pub record Fs : Type 0 where
  pub blocks : ℕ → Memory
  pub logged : List ℕ
  pub sb : Superblock
  pub inodes : List Inode

-- T_DIR, T_FILE and T_DEV.
abbrev pub t_dir : ℕ
t_dir = 1

abbrev pub t_file : ℕ
t_file = 2

abbrev pub t_dev : ℕ
t_dev = 3

-- The content of a buffer is changed and the buffer is given to the log.
abbrev pub log_block : ℕ → Memory → Fs → Fs
log_block b content s = record s {
  blocks = λ c. if c == b then content else s.blocks c;
  logged = b ∷ s.logged;
}

-- The words of `struct superblock`, in block 1.
unfoldable pub readsb : Fs → Superblock
readsb s = record {
  size = read_word 0 (s.blocks 1);
  nblocks = read_word 4 (s.blocks 1);
  ninodes = read_word 8 (s.blocks 1);
  nlog = read_word 12 (s.blocks 1);
  logstart = read_word 16 (s.blocks 1);
  inodestart = read_word 20 (s.blocks 1);
  bmapstart = read_word 24 (s.blocks 1);
}

unfoldable pub bzero : ℕ → Fs → Fs
bzero bno s = log_block bno (memset 0 0 bsize (s.blocks bno)) s

-- BBLOCK and IBLOCK.
abbrev pub bblock : ℕ → Superblock → ℕ
bblock b sb = b / bpb + sb.bmapstart

abbrev pub iblock : ℕ → Superblock → ℕ
iblock i sb = i / 8 + sb.inodestart
