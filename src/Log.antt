-- ===== src/Log.antt =====
-- log.c: transactions of disk blocks. The buffer cache is taken at its contract: a block that is read
-- is the one that was last written to the cache, and a block that is in the log stays in the cache.
pub mod Disks
pub mod Install
pub mod Commit
pub mod Crash
pub mod Space
mod Tests
use nice_system_calls.Common.{
  ℕ, zero, suc, ◌+◌, ◌-◌, ◌*◌, ◌≡◌, ◌<◌, ◌≤◌, Bool, true, false, List, [], ◌∷◌, ◌++◌, Option, none,
  some, arith, ltb, leb, ◌==◌, if◌then◌else◌, ◌||◌, length, get_or, Outcome, ok, panic,
}

-- A block as its words, and a disk.
abbrev pub Block : Type 0
Block = ℕ → ℕ

abbrev pub Disk : Type 0
Disk = ℕ → Block

abbrev pub write_block : ℕ → Block → Disk → Disk
write_block b content d c = if c == b then content else d c

-- LOGSIZE and MAXOPBLOCKS.
abbrev pub log_size : ℕ
log_size = 30

abbrev pub max_op_blocks : ℕ
max_op_blocks = 10

-- `struct log`. `blocks` is `lh.block` up to `lh.n`.
pub record Log : Type 0 where
  pub start : ℕ
  pub size : ℕ
  pub outstanding : ℕ
  pub committing : Bool
  pub blocks : List ℕ

-- The disk, the blocks that the cache holds back from it, and the disks that were there before each
-- write: those that a crash may leave.
pub record Store : Type 0 where
  pub disk : Disk
  pub cached : ℕ → Option Block
  pub history : List Disk

-- `bread`
abbrev pub bread : ℕ → Store → Block
bread b s = elim (s.cached b) [ none ↦ s.disk b | some content ↦ content ]

-- `bwrite`, at the end of which the cache and the disk agree.
abbrev pub bwrite : ℕ → Block → Store → Store
bwrite b content s = record {
  disk = write_block b content s.disk;
  cached = λ c. if c == b then none else s.cached c;
  history = s.disk ∷ s.history;
}

-- The loop of `write_head`: the number of blocks, then the blocks; the other words stay.
unfoldable pub head_block : List ℕ → Block → Block
head_block blocks old i =
    if i == 0
    then length blocks
    else if leb i (length blocks)
    then get_or blocks (i - 1) 0
    else old i

-- The block numbers from word `i` on, with the rounds that are left.
unfoldable pub read_blocks : ℕ → ℕ → Block → List ℕ
read_blocks zero i content = []
read_blocks (suc n) i content = content i ∷ read_blocks n (suc i) content

-- The block numbers that `read_head` gives.
unfoldable pub read_head : ℕ → Store → List ℕ
read_head start s = read_blocks (bread start s 0) 1 (bread start s)

unfoldable pub write_head : ℕ → List ℕ → Store → Store
write_head start blocks s = bwrite start (head_block blocks (bread start s)) s

-- The loop of `install_trans` at `tail`, for the blocks that are left.
unfoldable pub install_from : ℕ → ℕ → List ℕ → Store → Store
install_from start tail [] s = s
install_from start tail (b ∷ bs) s =
    install_from start (suc tail) bs (bwrite b (bread (start + tail + 1) s) s)

abbrev pub install_trans : ℕ → List ℕ → Store → Store
install_trans start blocks s = install_from start 0 blocks s

-- The loop of `write_log` at `tail`, for the blocks that are left.
unfoldable pub write_from : ℕ → ℕ → List ℕ → Store → Store
write_from start tail [] s = s
write_from start tail (b ∷ bs) s =
    write_from start (suc tail) bs (bwrite (start + tail + 1) (bread b s) s)

abbrev pub write_log : ℕ → List ℕ → Store → Store
write_log start blocks s = write_from start 0 blocks s

unfoldable pub recover_from_log : ℕ → Store → Store
recover_from_log start s =
    let blocks = read_head start s in write_head start [] (install_trans start blocks s)

unfoldable pub commit : Log → Store → Log × Store
commit log s =
    if ltb 0 (length log.blocks)
    then (let committed = write_head log.start log.blocks (write_log log.start log.blocks s) in
        (
          record log { blocks = [] },
          write_head log.start [] (install_trans log.start log.blocks committed),
        ))
    else (log, s)

-- A round of `begin_op`: true where the operation has begun, false where it sleeps on the log.
unfoldable pub begin_op : Log → Bool × Log
begin_op log =
    if log.committing
    then (false, log)
    else if ltb log_size (length log.blocks + (log.outstanding + 1) * max_op_blocks)
    then (false, log)
    else (true, record log { outstanding = log.outstanding + 1 })

-- The first part of `end_op`, for an operation that has begun: true where the caller commits.
unfoldable pub end_op : Log → Outcome (Bool × Log)
end_op log =
    if log.committing
    then panic "log.committing"
    else if log.outstanding == 1
    then ok (true, record log { outstanding = log.outstanding - 1; committing = true })
    else ok (false, record log { outstanding = log.outstanding - 1 })

-- The second part, where the caller commits. Both parts wake who sleeps on the log.
unfoldable pub finish_op : Log → Store → Log × Store
finish_op log s = let done = commit log s in (record (done.0) { committing = false }, done.1)

-- The loop of `log_write`: the block is absorbed, or put at the end.
unfoldable pub absorb : ℕ → List ℕ → List ℕ
absorb b [] = b ∷ []
absorb b (c ∷ cs) = if c == b then b ∷ cs else c ∷ absorb b cs

unfoldable pub log_write : ℕ → Block → Log → Store → Outcome (Log × Store)
log_write b content log s =
    if leb log_size (length log.blocks) || leb (log.size - 1) (length log.blocks)
    then panic "too big a transaction"
    else if ltb log.outstanding 1
    then panic "log_write outside of trans"
    else ok (
      record log { blocks = absorb b log.blocks },
      record s { cached = λ c. if c == b then some content else s.cached c },
    )
