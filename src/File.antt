-- ===== src/File.antt =====
-- file.c: the table of open files. The lock of the table is held throughout filealloc, filedup and
-- the first part of fileclose.
pub mod Refs
pub mod Write
mod Tests
use nice_system_calls.Common.{
  ℕ, zero, suc, ◌+◌, ◌-◌, ◌*◌, ◌/◌, ◌%◌, ◌^◌, Bool, true, false, not, List, [], ◌∷◌, Option, none,
  some, arith, ltb, leb, ◌==◌, if◌then◌else◌, Outcome, ok, panic, ◌>>=◌, load, store, set,
}
use nice_system_calls.Common.Int.{ℤ, pos, negsuc, ltb_ℤ, pos_part}

pub data FileType : Type 0 where
  fd_none fd_pipe fd_inode : FileType

-- `struct file`.
pub record File : Type 0 where
  pub type : FileType
  pub refs : ℕ
  pub readable : Bool
  pub writable : Bool
  pub pipe : ℕ
  pub ip : ℕ
  pub off : ℕ

-- The loop of `filealloc` from entry `i` on: the first entry without a reference.
unfoldable pub find_free : List File → ℕ → Option ℕ
find_free [] i = none
find_free (f ∷ fs) i = let rest = find_free fs (suc i) in if f.refs == 0 then some i else rest

-- The entry, and the table.
unfoldable pub filealloc : List File → Outcome (Option ℕ × List File)
filealloc fs = elim (find_free fs 0) [
  | none ↦ ok (none, fs)
  | some i ↦ do f ← load fs i; fs' ← store fs i (record f { refs = 1 }); ok (some i, fs')
]

unfoldable pub filedup : ℕ → List File → Outcome (List File)
filedup i fs = do
  f ← load fs i
  if ltb f.refs 1 then panic "filedup" else store fs i (record f { refs = f.refs + 1 })

-- What `fileclose` does behind the table: nothing, `pipeclose` of a pipe and its end, or `iput`.
pub data Closing : Type 0 where
  keeps_open : Closing
  closes_pipe : ℕ → Bool → Closing
  drops_inode : ℕ → Closing

abbrev pub closing : File → Closing
closing f = elim f.type [
  | fd_none ↦ keeps_open
  | fd_pipe ↦ closes_pipe f.pipe f.writable
  | fd_inode ↦ drops_inode f.ip
]

unfoldable pub fileclose : ℕ → List File → Outcome (Closing × List File)
fileclose i fs = do
  f ← load fs i
  if ltb f.refs 1
      then panic "fileclose"
      else if ltb 0 (f.refs - 1)
      then (do fs' ← store fs i (record f { refs = f.refs - 1 }); ok (keeps_open, fs'))
      else (do fs' ← store fs i (record f { refs = 0; type = fd_none }); ok (closing f, fs'))

-- The most bytes of one transaction: ((LOGSIZE-1-1-2) / 2) * 512, with LOGSIZE 30.
abbrev pub max_write : ℕ
max_write = (30 - 1 - 1 - 2) / 2 * 512

-- The routines on pipes and inodes are arguments, over a state `W` of their own. `readi` and
-- `writei` get the inode, the address, the offset and the size.
module _ (W : Type 0) where
  abbrev pub Transfer : Type 0
  Transfer = ℕ → ℕ → ℕ → ℕ → W → ℤ × W

  -- `f->off += r` for a positive `r`.
  abbrev pub advance : File → ℤ → File
  advance f r = record f { off = if ltb_ℤ (pos 0) r then (f.off + pos_part r) % 2 ^ 32 else f.off }

  pub filestat : (ℕ → W → ℕ × W) → File → W → Option ℕ × W
  filestat stati f w = elim f.type [
    | fd_inode ↦ (let st = stati f.ip w in (some st.0, st.1))
    | _ ↦ (none, w)
  ]

  pub fileread : (ℕ → ℕ → ℕ → W → ℤ × W) → Transfer → File → ℕ → ℕ → W → Outcome (ℤ × File × W)
  fileread piperead readi f addr n w = if not f.readable then ok (negsuc 0, f, w) else elim f.type [
    | fd_pipe ↦ (let r = piperead f.pipe addr n w in ok (r.0, f, r.1))
    | fd_inode ↦ (let r = readi f.ip addr f.off n w in ok (r.0, advance f r.0, r.1))
    | fd_none ↦ panic "fileread"
  ]

  abbrev pub chunk : ℕ → ℕ
  chunk left = if ltb max_write left then max_write else left

  -- `if(r < 0) break; if(r != n1) panic("short filewrite");` for the size `n1`, before the rest of
  -- the loop. Behind the `break` comes the reply -1, since `i` is not `n`.
  unfoldable pub after_write : ℤ → ℕ → File → W → Outcome (ℤ × File × W) → Outcome (ℤ × File × W)
  after_write (negsuc k) n1 f w rest = ok (negsuc 0, f, w)
  after_write (pos k) n1 f w rest = if k == n1 then rest else panic "short filewrite"

  -- The loop of `filewrite` at byte `i`, with `left` bytes left, on fuel.
  unfoldable pub write_chunks : Transfer → ℕ → ℕ → ℕ → ℕ → File → W → Outcome (ℤ × File × W)
  write_chunks writei zero addr i left f w = panic "fuel"
  write_chunks writei (suc fuel) addr i left f w =
      let r = writei f.ip (addr + i) f.off (chunk left) w in
      let f' = advance f r.0 in
      let rest = write_chunks writei fuel addr (i + chunk left) (left - chunk left) f' r.1 in
      if left == 0 then ok (pos i, f, w) else after_write r.0 (chunk left) f' r.1 rest

  unfoldable pub filewrite :
      (ℕ → ℕ → ℕ → W → ℤ × W) → Transfer → File → ℕ → ℕ → W → Outcome (ℤ × File × W)
  filewrite pipewrite writei f addr n w =
      if not f.writable then ok (negsuc 0, f, w) else elim f.type [
        | fd_pipe ↦ (let r = pipewrite f.pipe addr n w in ok (r.0, f, r.1))
        | fd_inode ↦ write_chunks writei (n + 1) addr 0 n f w
        | fd_none ↦ panic "filewrite"
      ]
