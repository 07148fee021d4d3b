-- ===== src/Proc/Run.antt =====
-- The kernel at work: processes and the scheduler take steps in any order. Each routine of proc.c
-- is one step; a step exists where its routine comes to a value.
use nice_system_calls.Common.{
  true, ℕ, ◌≤◌, ◌<◌, ◌≡◌, sym, subst, ◌≢◌, ◌⊎◌, inl, inr, false, List, Option, arith, ok, ◌||◌,
  Returns-ok, ReturnsOr-ok, Ends-ok, some,
}
use nice_system_calls.Common.Int.{ℤ, pos, negsuc, ltb_ℤ}
use nice_system_calls.Queue.{null, nproc}
use nice_system_calls.Proc.{Table, Services, Reply, value, running, proc_at, boot_table}
use nice_system_calls.Proc.Inv.{Inv, Keeps, Found}
use nice_system_calls.Proc.Queueing.{schedule, yield, sleep, sleep_tidy, wakeups}
use nice_system_calls.Proc.Queueing.Schedule.{Round, schedule_lem}
use nice_system_calls.Proc.Queueing.Turns.{yield-Keeps, sleep-Keeps, sleep_tidy-Keeps}
use nice_system_calls.Proc.Queueing.Wake.{wakeups-Keeps}
use nice_system_calls.Proc.Life.{userinit, growproc, fork, exit, wait_round}
use nice_system_calls.Proc.Life.Boot.{boot_table-Inv, userinit_keeps}
use nice_system_calls.Proc.Life.Grow.{growproc_lem}
use nice_system_calls.Proc.Life.Fork.{fork_lem}
use nice_system_calls.Proc.Life.Exit.{exit_any}
use nice_system_calls.Proc.Life.Wait.{wait_round_lem}
use nice_system_calls.Proc.Calls.{kill, nice, has_pid}
use nice_system_calls.Proc.Calls.Kill.{kill_lem, Killed}
use nice_system_calls.Proc.Calls.Nice.{nice_lem, nice_refused, Niced}

-- A process that runs in slot `me`.
pub record Runs (me : ℕ) (t : Table) : Type 0 where
  pub slot : me < nproc
  pub state : (proc_at t me).state ≡ running

Round-Inv : {t : Table} {p : ℕ} {r : Option ℕ × ℕ × Table} → Inv t → Round p t r → Inv r.2
Round-Inv v (inl (all, a, b, same)) = subst Inv (sym same) v
Round-Inv v (inr (l, rest, d)) = d.valid

module _ (S : Services) where
  open S use {World}

  -- `pid` 0 names no process, and priority 5 leads outside the queues: neither is a step here.
  pub data Step (t : Table) (w : World) : Table → World → Type 0 where
    schedules :
        (p : ℕ) {c : Option ℕ} {q : ℕ} {t' : Table}
        → p ≤ null
        → schedule p t ≡ ok (c, q, t')
        → Step t w t' w
    yields : (me : ℕ) {t' : Table} → Runs me t → yield me t ≡ ok t' → Step t w t' w
    sleeps :
        (me chan lk : ℕ) {t' : Table}
        → Runs me t
        → lk ≢ null
        → sleep me chan lk t ≡ ok t'
        → Step t w t' w
    tidies : (me : ℕ) {t' : Table} → me < nproc → sleep_tidy me t ≡ ok t' → Step t w t' w
    wakes : (chans : List ℕ) {t' : Table} → wakeups chans t ≡ ok t' → Step t w t' w
    grows :
        (me : ℕ) (n : ℤ) {r : ℤ} {t' : Table} {w' : World}
        → Runs me t
        → growproc S me n t w ≡ ok (r, t', w')
        → Step t w t' w'
    forks :
        (me : ℕ) {r : Reply} {t' : Table} {w' : World}
        → Runs me t
        → fork S me t w ≡ ok (r, t', w')
        → Step t w t' w'
    exits :
        (me : ℕ) {t' : Table} {w' : World}
        → Runs me t
        → exit S me t w ≡ ok (t', w')
        → Step t w t' w'
    waits :
        (me lock : ℕ) {r : Reply} {t' : Table} {w' : World}
        → Runs me t
        → lock ≢ null
        → wait_round S lock me t w ≡ ok (r, t', w')
        → Step t w t' w'
    kills :
        (me : ℕ) (pid : ℤ) {r : Reply} {t' : Table} {w' : World}
        → Runs me t
        → pid ≢ pos 0
        → kill S me pid t w ≡ ok (r, t', w')
        → Step t w t' w'
    nices :
        (me : ℕ) (pid : ℤ) (priority : ℕ) {r : Reply} {t' : Table} {w' : World}
        → Runs me t
        → 1 ≤ priority
        → priority ≤ 4
        → nice S me pid (pos priority) t w ≡ ok (r, t', w')
        → Step t w t' w'
    refuses :
        (me : ℕ) (pid priority : ℤ) {r : Reply} {t' : Table} {w' : World}
        → Runs me t
        → (ltb_ℤ priority (pos 1) || ltb_ℤ (pos 5) priority) ≡ true
        → nice S me pid priority t w ≡ ok (r, t', w')
        → Step t w t' w'

  live : {t : Table} (me : ℕ) → Inv t → Runs me t → (proc_at t me).pid ≢ 0
  live {t} me v r = v.live me r.slot (λ z. ground (arith, r.state))

  Killed-Inv :
      {t : Table} (me : ℕ) (pid : ℤ) {r : Reply × Table}
      → Inv t
      → (((j : ℕ) → j < nproc → has_pid pid (proc_at t j) ≡ false)
          × (r.0 ≡ value (negsuc 0))
          × (r.1 ≡ t))
        ⊎ ((i : ℕ) × Found (has_pid pid) t (some i) × Killed me i t r)
      → Inv r.1
  Killed-Inv me pid v (inl (none_such, a, same)) = subst Inv (sym same) v
  Killed-Inv me pid v (inr (i, found, k)) = k.0

  Niced-Inv :
      {t : Table} (me : ℕ) (pid : ℤ) (priority : ℕ) {r : Reply × Table}
      → Niced S me pid priority t r
      → Inv r.1
  Niced-Inv me pid priority (inl (i, found, k)) = k.valid
  Niced-Inv me pid priority (inr (none_such, v, a, b)) = v

  pub Step-Inv : {t t' : Table} {w w' : World} → Step t w t' w' → Inv t → Inv t'
  Step-Inv {t} (schedules p {c} {q} {t'} h e) v =
      Round-Inv v (Returns-ok (Round p t) (schedule p t) (c, q, t') (schedule_lem p v h) e)
  Step-Inv {t} (yields me {t'} r e) v =
      (Returns-ok (Keeps t) (yield me t) t' (yield-Keeps me v r.slot (live me v r)) e).0
  Step-Inv {t} (sleeps me chan lk {t'} r l e) v =
      (Returns-ok (Keeps t) (sleep me chan lk t) t'
        (sleep-Keeps me chan lk v r.slot l (live me v r)) e).0
  Step-Inv {t} (tidies me {t'} h e) v =
      (Returns-ok (Keeps t) (sleep_tidy me t) t' (sleep_tidy-Keeps me v h) e).0
  Step-Inv {t} (wakes chans {t'} e) v =
      (Returns-ok (Keeps t) (wakeups chans t) t' (wakeups-Keeps chans v) e).0
  Step-Inv {t} {w = w} (grows me n {r} {t'} {w'} runs e) v =
      (Returns-ok _ (growproc S me n t w) (r, t', w') (growproc_lem S me n w v runs.slot) e).keeps.0
  Step-Inv {t} {w = w} (forks me {r} {t'} {w'} runs e) v =
      (ReturnsOr-ok _ _ (fork S me t w) (r, t', w')
        (fork_lem S me w v runs.slot (λ z. ground (arith, runs.state))) e).0
  Step-Inv {t} {w = w} (exits me {t'} {w'} runs e) v =
      (ReturnsOr-ok _ _ (exit S me t w) (t', w')
        (exit_any S (me ≡ t.initproc) me w v runs.slot (live me v runs) (λ z. z)) e).0.0
  Step-Inv {t} {w = w} (waits me lock {r} {t'} {w'} runs l e) v =
      (Returns-ok _ (wait_round S lock me t w) (r, t', w')
        (wait_round_lem S lock me w v runs.slot l (live me v runs)) e).0
  Step-Inv {t} {w = w} (kills me pid {r} {t'} {w'} runs nz e) v = Killed-Inv me pid v (
      ReturnsOr-ok _ _ (kill S me pid t w) (r, t', w')
        (kill_lem S me pid w v nz runs.slot (live me v runs)) e)
  Step-Inv {t} {w = w} (nices me pid priority {r} {t'} {w'} runs lo hi e) v =
      Niced-Inv me pid priority (
        ReturnsOr-ok _ _ (nice S me pid (pos priority) t w) (r, t', w')
          (nice_lem S me pid priority w v lo hi runs.slot (live me v runs)) e)
  Step-Inv {t} {w = w} (refuses me pid priority {r} {t'} {w'} runs out e) v =
      (ReturnsOr-ok _ _ (nice S me pid priority t w) (r, t', w')
        (nice_refused S me pid priority w v out runs.slot (live me v runs)) e).0

  -- The states that the kernel comes to after `userinit` has made the first process.
  pub data Reach : Table → World → Type 0 where
    boots :
        (initcode : List ℕ) (w : World) {t : Table} {w' : World}
        → userinit S initcode boot_table w ≡ ok (t, w')
        → Reach t w'
    steps : {t t' : Table} {w w' : World} → Reach t w → Step t w t' w' → Reach t' w'

  -- In every state that the kernel reaches from the zeroed table by `userinit` and then any
  -- sequence of the steps of `Step`, the table is well formed (`Inv`): the pids of processes are
  -- distinct and below `nextpid`, each level of the queues holds slots of the table, none twice,
  -- and every runnable process waits in some level.
  pub Reach-Inv : {t : Table} {w : World} → Reach t w → Inv t
  Reach-Inv (boots initcode w {t} {w'} e) =
      Ends-ok _ (userinit S initcode boot_table w) (t, w')
        (userinit_keeps S initcode w boot_table-Inv) e
  Reach-Inv (steps r s) = Step-Inv s (Reach-Inv r)
