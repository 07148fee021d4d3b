-- ===== src/Pipe.antt =====
-- pipe.c: the ring of a pipe, its two ends, and the calls that read, write and close it. A call
-- runs up to the point where it returns or sleeps.
pub mod Ring
pub mod Transfer
mod Tests
use nice_system_calls.Common.{
  ℕ, zero, suc, ◌+◌, ◌%◌, ◌^◌, Bool, true, false, List, [], ◌∷◌, ◌==◌, if◌then◌else◌, ◌&&◌, ◌||◌,
  not, Outcome, ok, ◌>>=◌, load, store,
}
use nice_system_calls.Common.Int.{ℤ, pos, negsuc}

-- PIPESIZE.
abbrev pub pipesize : ℕ
pipesize = 512

-- `struct pipe` but for its lock, which is held throughout each call. The counters are 32-bit words, and `ring` is
-- the array `data`.
pub record Pipe : Type 0 where
  pub ring : List ℕ
  pub nread : ℕ
  pub nwrite : ℕ
  pub readopen : Bool
  pub writeopen : Bool

-- The two channels that the calls sleep on and wake.
pub data Channel : Type 0 where
  at_nread at_nwrite : Channel

-- What a call comes to: it returns a number, or it sleeps with the index of its loop.
pub data PipeEnd : Type 0 where
  returns : ℤ → PipeEnd
  sleeps : Channel → ℕ → PipeEnd

-- `p->data[p->nwrite++ % PIPESIZE] = c;`
unfoldable pub put_byte : ℕ → Pipe → Outcome Pipe
put_byte c p = do
  ring' ← store p.ring (p.nwrite % pipesize) c
  ok (record p { ring = ring'; nwrite = (p.nwrite + 1) % 2 ^ 32 })

-- `p->data[p->nread++ % PIPESIZE]`
unfoldable pub get_byte : Pipe → Outcome (ℕ × Pipe)
get_byte p = do
  c ← load p.ring (p.nread % pipesize)
  ok (c, record p { nread = (p.nread + 1) % 2 ^ 32 })

abbrev pub is_full : Pipe → Bool
is_full p = p.nwrite == (p.nread + pipesize) % 2 ^ 32

-- The loop of `pipewrite` at index `i`, with the bytes that are left, and the channels it wakes. A
-- writer that wakes up again goes on with the bytes that were left.
unfoldable pub pipewrite : Bool → List ℕ → ℕ → Pipe → Outcome (PipeEnd × Pipe × List Channel)
pipewrite killed [] i p = ok (returns (pos i), p, at_nread ∷ [])
pipewrite killed (c ∷ cs) i p =
    if is_full p
    then (if not p.readopen || killed
        then ok (returns (negsuc 0), p, [])
        else ok (sleeps at_nwrite i, p, at_nread ∷ []))
    else put_byte c p >>= pipewrite killed cs (suc i)

-- `for(i = 0; i < n; i++) {...}` of `piperead`, with the rounds that are left.
unfoldable pub read_bytes : ℕ → Pipe → Outcome (List ℕ × Pipe)
read_bytes zero p = ok ([], p)
read_bytes (suc n) p =
    if p.nread == p.nwrite
    then ok ([], p)
    else do (c, p1) ← get_byte p; (cs, p2) ← read_bytes n p1; ok (c ∷ cs, p2)

-- The reply of `piperead`: -1, the number of bytes beside the bytes, or sleep.
pub data ReadEnd : Type 0 where
  failed : ReadEnd
  read : List ℕ → ReadEnd
  read_sleeps : ReadEnd

unfoldable pub piperead : Bool → ℕ → Pipe → Outcome (ReadEnd × Pipe × List Channel)
piperead killed n p =
    if (p.nread == p.nwrite) && p.writeopen
    then ok ((if killed then failed else read_sleeps), p, [])
    else do (cs, p1) ← read_bytes n p; ok (read cs, p1, at_nwrite ∷ [])

-- The pipe, the channel that is woken, and whether the page of the pipe is freed.
pub pipeclose : Bool → Pipe → Pipe × Channel × Bool
pipeclose true p = (record p { writeopen = false }, at_nread, not p.readopen)
pipeclose false p = (record p { readopen = false }, at_nwrite, not p.writeopen)
