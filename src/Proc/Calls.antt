-- ===== src/Proc/Calls.antt =====
-- proc.c: kill, nice, and the listings cps and procdump.
pub mod Kill
pub mod Nice
use nice_system_calls.Common.{
  ℕ, zero, suc, ◌+◌, ◌-◌, ◌*◌, ◌%◌, ◌^◌, Bool, true, false, List, [], ◌∷◌, map, Option, none, some,
  arith, ltb, leb, ◌==◌, if◌then◌else◌, ◌&&◌, ◌||◌, not, length, Outcome, ok, panic, fault, ◌>>=◌,
  load, store,
}
use nice_system_calls.Common.Int.{ℤ, pos, negsuc, ltb_ℤ, pos_part, to_int}
use Prim.Native.String.{String}
use nice_system_calls.Proc.{
  Table, Proc, ProcState, Reply, Services, value, exited, sleeping, runnable, running, unused,
  zombie, embryo, is_sleeping, is_unused, put, find_slot, pids,
}
use nice_system_calls.Proc.Queueing.{add_to_level, remove_from_level, level_of}
use nice_system_calls.Proc.Life.{exit}

-- MOD of param.h.
abbrev pub mod_base : ℕ
mod_base = 65

-- `p->pid == pid` for a C int on the right; a pid of the table is not negative.
abbrev pub has_pid : ℤ → Proc → Bool
has_pid (pos n) p = p.pid == n
has_pid (negsuc n) p = false

module _ (S : Services) where
  open S use {World}

  -- `if(p->state == SLEEPING) p->state = RUNNABLE;`, and then the call that its indentation puts
  -- under the `if` and the compiler does not.
  pub kill_slot : ℕ → ℕ → Table → World → Outcome (Reply × Table × World)
  kill_slot me i t w = do
    slot ← load t.procs i
    t1 ← put t i (record slot {
      killed = 1;
      state = if is_sleeping slot.state then runnable else slot.state;
    })
    (res, t2) ← add_to_level i (level_of slot.priority) t1
    let failed = exit S me t2 w
    elim res [
      | negsuc n ↦ (do (t3, w3) ← failed; ok (exited, t3, w3))
      | pos n ↦ ok (value (pos 0), t2, w)
    ]

  pub kill : ℕ → ℤ → Table → World → Outcome (Reply × Table × World)
  kill me pid t w = elim (find_slot (has_pid pid) t.procs 0) [
    | none ↦ ok (value (negsuc 0), t, w)
    | some i ↦ kill_slot me i t w
  ]

  -- `nice` once the process is found in slot `i`: the levels are `old_priority` and `priority`
  -- themselves, not one less. The product with MOD is one of ints of 32 bits. The code has released
  -- `ptable.lock` before it writes the priority; this is the run in which nothing comes between.
  pub set_priority : ℕ → ℕ → Table → World → Outcome (Reply × Table × World)
  set_priority i priority t w = do
    slot ← load t.procs i
    t1 ← put t i (record slot { priority = priority })
    (res1, t2) ← remove_from_level i slot.priority t1
    (res2, t3) ← add_to_level i priority t2
    ok (value (to_int ((slot.pid * mod_base + slot.priority) % 2 ^ 32)), t3, w)

  pub nice : ℕ → ℤ → ℤ → Table → World → Outcome (Reply × Table × World)
  nice me pid priority t w =
      let leave = (do (t1, w1) ← exit S me t w; ok (exited, t1, w1)) in
      if ltb_ℤ priority (pos 1) || ltb_ℤ (pos 5) priority
      then leave
      else elim (find_slot (has_pid pid) t.procs 0) [
        | none ↦ leave
        | some i ↦ set_priority i (pos_part priority) t w
      ]

-- What `cps` and `procdump` print of a process: name, pid, state and, for `cps`, priority.
pub record Line : Type 0 where
  pub name : List ℕ
  pub pid : ℕ
  pub state : String
  pub priority : ℕ

-- `cps` prints the processes that sleep, run or wait to run.
pub cps_line : Proc → Option Line
cps_line p = elim p.state [
  | sleeping ↦ line "SLEEPING"
  | running ↦ line "RUNNING"
  | runnable ↦ line "RUNNABLE"
  | _ ↦ none
]
  where
    line : String → Option Line
    line state = some (record { name = p.name; pid = p.pid; state = state; priority = p.priority })

pub cps_lines : List Proc → List Line
cps_lines [] = []
cps_lines (p ∷ ps) = elim (cps_line p) [ none ↦ cps_lines ps | some l ↦ l ∷ cps_lines ps ]

-- The lines printed, and the value returned.
pub cps : Table → List Line × ℤ
cps t = (cps_lines t.procs, pos 22)

-- `states[p->state]` of `procdump`.
pub state_name : ProcState → String
state_name unused = "unused"
state_name embryo = "embryo"
state_name sleeping = "sleep "
state_name runnable = "runble"
state_name running = "run   "
state_name zombie = "zombie"

-- `procdump` prints every slot in use; the call stack that it adds for a sleeping process is the
-- argument `trace`.
pub procdump : (Proc → List ℕ) → List Proc → List (ℕ × String × List ℕ × List ℕ)
procdump trace [] = []
procdump trace (p ∷ ps) =
    let rest = procdump trace ps in
    if is_unused p.state
    then rest
    else (p.pid, state_name p.state, p.name, if is_sleeping p.state then trace p else []) ∷ rest
