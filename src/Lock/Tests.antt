-- ===== src/Lock/Tests.antt =====
-- One processor that takes and frees a lock, and the shell at a sleep lock.
use nice_system_calls.Common.{ℕ, ◌≡◌, refl, true, false, some}
use nice_system_calls.Lock.{
  Cpu, outside, spinning, taken, inside, System, moves, holding, Locking, starts, goes, enters,
  takes, marks, Sleeplock,
}
use nice_system_calls.Lock.Mutex.{owns, mutual_exclusion}

abbrev entered : System
entered = record {
  lock = record { locked = true; owner = some 3 };
  place = moves 3 inside (moves 3 taken (moves 3 spinning (λ c. outside)));
}

entered-Locking : Locking entered
entered-Locking = goes (goes (goes starts (enters 3 refl refl)) (takes 3 refl refl)) (marks 3 refl)

exclusion_example :
    ((c d : ℕ) → owns (entered.place c) ≡ true → owns (entered.place d) ≡ true → c ≡ d)
    × ((c : ℕ) → entered.place c ≡ inside → holding entered.lock c ≡ true)
exclusion_example = mutual_exclusion entered-Locking

abbrev idle : Cpu
idle = record { interrupts = true; ncli = 0; intena = false }

abbrev held : Sleeplock
held = record { slocked = true; pid = 1 }
