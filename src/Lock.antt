-- ===== src/Lock.antt =====
-- spinlock.c and sleeplock.c: spin locks as the steps of the processors that use one, the depth of
-- pushcli, and sleep locks.
pub mod Mutex
pub mod Sleep
mod Tests
use nice_system_calls.Common.{
  ℕ, zero, suc, ◌+◌, ◌-◌, ◌≡◌, List, [], ◌∷◌, Bool, true, false, Option, none, some, arith, ◌==◌,
  if◌then◌else◌, ◌&&◌, not, Outcome, ok, panic, fault, load, ◌>>=◌,
}
use nice_system_calls.Proc.{Table, Proc}
use nice_system_calls.Proc.Queueing.{sleep, wakeups}

-- `struct spinlock`: `owner` is the field `cpu`.
pub record Spinlock : Type 0 where
  pub locked : Bool
  pub owner : Option ℕ

abbrev pub initlock : Spinlock
initlock = record { locked = false; owner = none }

abbrev pub is_owner : Option ℕ → ℕ → Bool
is_owner none c = false
is_owner (some d) c = d == c

abbrev pub holding : Spinlock → ℕ → Bool
holding lk c = lk.locked && is_owner lk.owner c

-- The part of `struct cpu` that pushcli and popcli use, and the flag FL_IF of the processor.
pub record Cpu : Type 0 where
  pub interrupts : Bool
  pub ncli : ℕ
  pub intena : Bool

unfoldable pub pushcli : Cpu → Cpu
pushcli c = record {
  interrupts = false;
  ncli = c.ncli + 1;
  intena = if c.ncli == 0 then c.interrupts else c.intena;
}

-- The depth is an int in the code; the test that it is not negative comes before it is used.
unfoldable pub popcli : Cpu → Outcome Cpu
popcli c =
    if c.interrupts
    then panic "popcli - interruptible"
    else if c.ncli == 0
    then panic "popcli"
    else ok (record c { ncli = c.ncli - 1; interrupts = (c.ncli - 1 == 0) && c.intena })

-- Where a processor stands: outside, in the loop of `acquire`, behind the exchange, in the critical
-- section, or in `release` before the lock is free.
pub data Place : Type 0 where
  outside spinning taken inside leaving : Place

pub record System : Type 0 where
  pub lock : Spinlock
  pub place : ℕ → Place

abbrev pub moves : ℕ → Place → (ℕ → Place) → ℕ → Place
moves c p f d = if d == c then p else f d

-- The steps of processor `c`. The test of `acquire` and that of `release` are premises: where one
-- fails the kernel panics.
pub data LockStep (s : System) : System → Type 0 where
  enters :
      (c : ℕ)
      → s.place c ≡ outside
      → holding s.lock c ≡ false
      → LockStep s (record s { place = moves c spinning s.place })
  spins : (c : ℕ) → s.place c ≡ spinning → s.lock.locked ≡ true → LockStep s s
  takes :
      (c : ℕ)
      → s.place c ≡ spinning
      → s.lock.locked ≡ false
      → LockStep s
          (record { lock = record (s.lock) { locked = true }; place = moves c taken s.place })
  marks :
      (c : ℕ)
      → s.place c ≡ taken
      → LockStep s
          (record { lock = record (s.lock) { owner = some c }; place = moves c inside s.place })
  clears :
      (c : ℕ)
      → s.place c ≡ inside
      → holding s.lock c ≡ true
      → LockStep s
          (record { lock = record (s.lock) { owner = none }; place = moves c leaving s.place })
  frees :
      (c : ℕ)
      → s.place c ≡ leaving
      → LockStep s
          (record { lock = record (s.lock) { locked = false }; place = moves c outside s.place })

-- The states that a new lock comes to.
pub data Locking : System → Type 0 where
  starts : Locking (record { lock = initlock; place = λ c. outside })
  goes : {s s' : System} → Locking s → LockStep s s' → Locking s'

-- `struct sleeplock`, whose spin lock `lk` is held throughout each routine.
pub record Sleeplock : Type 0 where
  pub slocked : Bool
  pub pid : ℕ

abbrev pub initsleeplock : Sleeplock
initsleeplock = record { slocked = false; pid = 0 }

-- A round of `acquiresleep` by the process in slot `me`: the lock is taken, or the process sleeps on
-- the address `chan` of the lock, and tries again when it wakes. `lk` is the address of the spin
-- lock.
unfoldable pub acquiresleep : ℕ → ℕ → ℕ → Sleeplock → Table → Outcome (Bool × Sleeplock × Table)
acquiresleep me chan lk l t =
    if l.slocked
    then (do t1 ← sleep me chan lk t; ok (false, l, t1))
    else (do slot ← load t.procs me; ok (true, record { slocked = true; pid = slot.pid }, t))

unfoldable pub releasesleep : ℕ → Sleeplock → Table → Outcome (Sleeplock × Table)
releasesleep chan l t = do t1 ← wakeups (chan ∷ []) t; ok (record { slocked = false; pid = 0 }, t1)

pub holdingsleep : Sleeplock → Bool
holdingsleep l = l.slocked
