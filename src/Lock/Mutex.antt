-- ===== src/Lock/Mutex.antt =====
-- A spin lock lets one processor in at a time.
use nice_system_calls.Common.{
  ℕ, ◌+◌, ◌-◌, ◌≤◌, ◌≡◌, refl, inl, inr, Bool, true, false, arith, ◌==◌, if◌then◌else◌, ◌&&◌,
  Bool-cases, ok,
}
use nice_system_calls.Lock.{
  Cpu, pushcli, popcli, Place, taken, inside, leaving, System, holding, is_owner, LockStep, enters,
  spins, takes, marks, clears, frees, Locking, starts, goes,
}

-- Between the exchange of `acquire` and the store of `release` a processor owns the lock.
abbrev pub owns : Place → Bool
owns taken = true
owns inside = true
owns leaving = true
owns _ = false

abbrev is_inside : Place → Bool
is_inside inside = true
is_inside _ = false

pub record Exclusive (s : System) : Type 0 where
  pub one : (c d : ℕ) → owns (s.place c) ≡ true → owns (s.place d) ≡ true → c ≡ d
  pub closed : (c : ℕ) → owns (s.place c) ≡ true → s.lock.locked ≡ true
  pub marked : (c : ℕ) → is_inside (s.place c) ≡ true → is_owner s.lock.owner c ≡ true

LockStep-Exclusive : {s s' : System} → LockStep s s' → Exclusive s → Exclusive s'
LockStep-Exclusive {s} (enters c a b) e = record {
  one = λ x y h k. ground (arith, e.one x y);
  closed = λ x h. ground (arith, e.closed x);
  marked = λ x h. ground (arith, e.marked x);
}
LockStep-Exclusive {s} (spins c a b) e = e
LockStep-Exclusive {s} (takes c a b) e = record {
  one = λ x y h k. ground (arith, e.closed x, e.closed y);
  closed = λ x h. refl;
  marked = λ x h. ground (arith, e.marked x);
}
LockStep-Exclusive {s} (marks c a) e = record {
  one = λ x y h k. ground (arith, a, e.one x y, e.one c y, e.one x c);
  closed = λ x h. e.closed c (ground (arith, a));
  marked = λ x h. ground (arith, a, e.one x c);
}
LockStep-Exclusive {s} (clears c a b) e = record {
  one = λ x y h k. ground (arith, a, e.one x y, e.one c y, e.one x c);
  closed = λ x h. e.closed c (ground (arith, a));
  marked = λ x h. absurd (ground (arith, a, e.one x c));
}
LockStep-Exclusive {s} (frees c a) e = record {
  one = λ x y h k. ground (arith, a, e.one x y);
  closed = λ x h. absurd (ground (arith, a, e.one x c));
  marked = λ x h. ground (arith, a, e.marked x);
}

pub Locking-Exclusive : {s : System} → Locking s → Exclusive s
Locking-Exclusive starts = record {
  one = λ c d h k. absurd (ground arith);
  closed = λ c h. absurd (ground arith);
  marked = λ c h. absurd (ground arith);
}
Locking-Exclusive (goes r s) = LockStep-Exclusive s (Locking-Exclusive r)

-- In every state that processors bring a new spin lock to by the steps of `acquire` and `release`,
-- at most one of them stands between the exchange that takes the lock and the store that frees it,
-- and a processor inside the critical section holds the lock, so its `release` does not panic.
pub mutual_exclusion :
    {s : System}
    → Locking s
    → ((c d : ℕ) → owns (s.place c) ≡ true → owns (s.place d) ≡ true → c ≡ d)
      × ((c : ℕ) → s.place c ≡ inside → holding s.lock c ≡ true)
mutual_exclusion {s} r =
    let e = Locking-Exclusive r in (e.one, λ c h. ground (arith, h, e.closed c, e.marked c))

-- On a processor whose interrupts are off wherever its depth is not 0, `popcli` after `pushcli`
-- does not panic and brings back the depth and the interrupt flag.
pub popcli-pushcli :
    (c : Cpu)
    → (1 ≤ c.ncli → c.interrupts ≡ false)
    → (c' : Cpu) × (popcli (pushcli c) ≡ ok c')
      × (c'.ncli ≡ c.ncli)
      × (c'.interrupts ≡ c.interrupts)
unfolding pushcli popcli
popcli-pushcli c h =
    let deep : (c.ncli + 1 == 0) ≡ false = ground arith in
    rw deep (
      record c {
        ncli = c.ncli + 1 - 1;
        interrupts = (c.ncli + 1 - 1 == 0) && (if c.ncli == 0 then c.interrupts else c.intena);
        intena = if c.ncli == 0 then c.interrupts else c.intena;
      },
      refl,
      omega arith,
      elim (Bool-cases (c.ncli == 0)) [ inl e ↦ ground arith | inr e ↦ ground (arith, h) ],
    )
