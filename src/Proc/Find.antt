-- ===== src/Proc/Find.antt =====
-- `find_slot` finds the first slot of the table that passes the test, if there is one.
use nice_system_calls.Common.{
  ℕ, zero, suc, ◌-◌, ◌≤◌, ◌<◌, ◌≡◌, Bool, true, false, List, [], ◌∷◌, Option, none, some, arith,
  Bool-cases, length, get_or,
}
use mathlib.Core.Logic.{inl, inr}
use nice_system_calls.Queue.{nproc}
use nice_system_calls.Proc.{Table, Proc, blank, find_slot}
use nice_system_calls.Proc.Inv.{Found}

-- The result of a search through `ps`, of which the first is slot `i`.
abbrev FoundIn : (Proc → Bool) → List Proc → ℕ → Option ℕ → Type 0
FoundIn test ps i none = (k : ℕ) → k < length ps → test (get_or ps k blank) ≡ false
FoundIn test ps i (some j) =
    (i ≤ j)
    × (j - i < length ps)
    × (test (get_or ps (j - i) blank) ≡ true)
    × ((k : ℕ) → k < j - i → test (get_or ps k blank) ≡ false)

FoundIn-cons :
    (test : Proc → Bool) (p : Proc) (ps : List Proc) (i : ℕ) (o : Option ℕ)
    → test p ≡ false
    → FoundIn test ps (suc i) o
    → FoundIn test (p ∷ ps) i o
FoundIn-cons test p ps i none miss f = all
  where
    all : (k : ℕ) → k < suc (length ps) → test (get_or (p ∷ ps) k blank) ≡ false
    all zero h = miss
    all (suc k) h = f k (omega arith)
FoundIn-cons test p ps i (some j) miss (a, b, c, d) =
    let one : j - i ≡ suc (j - suc i) = omega arith in
    (omega arith, omega arith, rw one c, rw one below)
  where
    below : (k : ℕ) → k < suc (j - suc i) → test (get_or (p ∷ ps) k blank) ≡ false
    below zero h = miss
    below (suc k) h = d k (omega arith)

find_slot-FoundIn :
    (test : Proc → Bool) (ps : List Proc) (i : ℕ) → FoundIn test ps i (find_slot test ps i)
unfolding find_slot
find_slot-FoundIn test [] i = λ k h. absurd (omega arith)
find_slot-FoundIn test (p ∷ ps) i = elim (Bool-cases (test p)) [
  | inl hit ↦
      let here : i - i ≡ 0 = omega arith in
      rw (hit, here) (omega arith, omega arith, hit, λ k h. absurd (omega arith))
  | inr miss ↦ rw miss (
      FoundIn-cons test p ps i (find_slot test ps (suc i)) miss (find_slot-FoundIn test ps (suc i)))
]

FoundIn-Found :
    (test : Proc → Bool) (t : Table) (o : Option ℕ)
    → length t.procs ≡ nproc
    → FoundIn test t.procs 0 o
    → Found test t o
FoundIn-Found test t none e f = λ j h. f j (omega arith)
FoundIn-Found test t (some j) e (a, b, c, d) =
    let same : j - 0 ≡ j = omega arith in (omega arith, rw same at c, λ k h. d k (omega arith))

pub find_slot_lem :
    (test : Proc → Bool) (t : Table)
    → length t.procs ≡ nproc
    → Found test t (find_slot test t.procs 0)
find_slot_lem test t e =
    FoundIn-Found test t (find_slot test t.procs 0) e (find_slot-FoundIn test t.procs 0)
