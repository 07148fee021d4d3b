-- ===== src/Queue.antt =====
-- xv6-public/proc.c, lines 15 to 57: the five priority queues of processes, as two arrays.
-- A pointer to a process is the index of its slot in `ptable`; `null` and every other index
-- outside the table fault when they are followed.
pub mod Spec
pub mod Members
pub mod Scan
pub mod Refine
pub mod Remove
pub mod Empty
mod Tests
use nice_system_calls.Common.{
  ℕ, zero, suc, ◌+◌, ◌-◌, Bool, true, false, List, [], ◌∷◌, Option, none, some, arith, ltb, ◌==◌,
  if◌then◌else◌, length, replicate, Outcome, ok, panic, fault, ◌>>=◌, load, store,
}
use nice_system_calls.Common.Int.{ℤ, pos, negsuc}

-- NPROC and PLEVELS of param.h.
abbrev pub nproc : ℕ
nproc = 64

abbrev pub plevels : ℕ
plevels = 5

abbrev pub null : ℕ
null = nproc

-- `priority_q`, of whose nodes the code uses the field `p` alone, and `marker`.
pub record Queues : Type 0 where
  pub priority_q : List (List ℕ)
  pub marker : List ℕ

abbrev pub no_queues : Queues
no_queues = record {
  priority_q = replicate plevels (replicate nproc null);
  marker = replicate plevels 0;
}

-- `for(i ...; i < marker[pr]; i++)` up to the first node whose process has this pid, with the
-- rounds that are left. `pids` gives `p->pid` of each slot of the table.
unfoldable pub find_pid : List ℕ → List ℕ → ℕ → ℕ → ℕ → Outcome (Option ℕ)
find_pid pids row pid zero i = ok none
find_pid pids row pid (suc rounds) i =
    let rest = find_pid pids row pid rounds (suc i) in
    do p ← load row i; q ← load pids p; if q == pid then ok (some i) else rest

unfoldable pub add_process_to_queue : List ℕ → ℕ → ℕ → Queues → Outcome (ℤ × Queues)
add_process_to_queue pids p pr qs = do
  count ← load qs.marker pr
  row ← load qs.priority_q pr
  pid ← load pids p
  found ← find_pid pids row pid count 0
  elim found [
    | some i ↦ ok (negsuc 0, qs)
    | none ↦ do
      row' ← store row count p
      rows ← store qs.priority_q pr row'
      markers ← store qs.marker pr (count + 1)
      ok (pos 1, record { priority_q = rows; marker = markers })
  ]

-- `for(j = i; j < marker[pr]-1; j++) priority_q[pr][j] = priority_q[pr][j+1];`
unfoldable pub shift_down : List ℕ → ℕ → ℕ → Outcome (List ℕ)
shift_down row zero j = ok row
shift_down row (suc rounds) j = do
  next ← load row (suc j)
  row' ← store row j next
  shift_down row' rounds (suc j)

unfoldable pub remove_process_from_queue : List ℕ → ℕ → ℕ → Queues → Outcome (ℤ × Queues)
remove_process_from_queue pids p pr qs = do
  count ← load qs.marker pr
  row ← load qs.priority_q pr
  pid ← load pids p
  found ← find_pid pids row pid count 0
  elim found [
    | none ↦ ok (negsuc 0, qs)
    | some i ↦ do
      row' ← shift_down row (count - 1 - i) i
      rows ← store qs.priority_q pr row'
      markers ← store qs.marker pr (count - 1)
      ok (pos 1, record { priority_q = rows; marker = markers })
  ]
