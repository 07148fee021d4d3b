-- ===== src/Proc/Queueing.antt =====
-- proc.c: the routines that make a process wait for the processor and that pick the next one:
-- yield, sleep, wakeup1, wakeup, and one round of either scheduler.
pub mod Keep
pub mod Wake
pub mod Reply
pub mod Schedule
pub mod Progress
pub mod Turns
mod Tests
use nice_system_calls.Common.{
  ℕ, zero, suc, ◌+◌, ◌-◌, Bool, true, false, List, [], ◌∷◌, Option, none, some, arith, ltb, ◌==◌,
  if◌then◌else◌, ◌&&◌, ◌||◌, not, length, Outcome, ok, panic, fault, ◌>>=◌, load, store,
}
use nice_system_calls.Common.Int.{ℤ, pos, negsuc}
use nice_system_calls.Queue.{
  Queues, nproc, plevels, null, add_process_to_queue, remove_process_from_queue,
}
use nice_system_calls.Proc.{
  Table, Proc, ProcState, sleeping, runnable, running, is_sleeping, is_runnable, pids, put, proc_at,
}

-- `priority - 1` as the index of a level. The index -1 lies outside the arrays, as `plevels` does.
abbrev pub level_of : ℕ → ℕ
level_of priority = if priority == 0 then plevels else priority - 1

-- The calls of the queue routines, over the table.
unfoldable pub add_to_level : ℕ → ℕ → Table → Outcome (ℤ × Table)
add_to_level p pr t = do
  (res, qs) ← add_process_to_queue (pids t.procs) p pr t.queues
  ok (res, record t { queues = qs })

unfoldable pub remove_from_level : ℕ → ℕ → Table → Outcome (ℤ × Table)
remove_from_level p pr t = do
  (res, qs) ← remove_process_from_queue (pids t.procs) p pr t.queues
  ok (res, record t { queues = qs })

-- `p->state = RUNNABLE; res = add_process_to_queue(p, p->priority-1);`
unfoldable pub make_runnable : ℕ → Table → Outcome (ℤ × Table)
make_runnable p t = do
  slot ← load t.procs p
  t' ← put t p (record slot { state = runnable })
  add_to_level p (level_of slot.priority) t'

-- What `yield` does before `sched`.
pub yield : ℕ → Table → Outcome Table
yield me t = do (res, t') ← make_runnable me t; ok t'

-- What `sleep` does before `sched`. The lock `lk` is an address, `null` where there is none.
unfoldable pub sleep : ℕ → ℕ → ℕ → Table → Outcome Table
sleep me chan lk t =
    if me == null
    then panic "sleep"
    else if lk == null
    then panic "sleep without lk"
    else do slot ← load t.procs me; put t me (record slot { chan = chan; state = sleeping })

-- What `sleep` does when the process runs again.
pub sleep_tidy : ℕ → Table → Outcome Table
sleep_tidy me t = do slot ← load t.procs me; put t me (record slot { chan = null })

-- One round of the loop of `wakeup1`, at slot `i`.
pub wakeup_slot : ℕ → ℕ → Table → Outcome Table
wakeup_slot chan i t = do
  slot ← load t.procs i
  if is_sleeping slot.state && slot.chan == chan
      then (do (res, t') ← make_runnable i t; ok t')
      else ok t

-- The loop from slot `i` on, with the rounds that are left.
pub wakeup_from : ℕ → ℕ → ℕ → Table → Outcome Table
wakeup_from chan zero i t = ok t
wakeup_from chan (suc rounds) i t = wakeup_slot chan i t >>= wakeup_from chan rounds (suc i)

pub wakeup1 : ℕ → Table → Outcome Table
wakeup1 chan t = wakeup_from chan nproc 0 t

-- `wakeup` is `wakeup1` under the lock; other code calls it once for each channel of a list.
pub wakeups : List ℕ → Table → Outcome Table
wakeups [] t = ok t
wakeups (chan ∷ chans) t = wakeup1 chan t >>= wakeups chans

-- `for(i=0;i<PLEVELS;i++) if(marker[i]>0) { p = priority_q[i][0].p; ...; break; }` from level `i`
-- on, with the rounds that are left. `p` keeps its last value where no level has a process.
unfoldable pub pick_from : ℕ → ℕ → ℕ → Table → Outcome (ℕ × Table)
pick_from zero i p t = ok (p, t)
pick_from (suc rounds) i p t =
    let rest = pick_from rounds (suc i) p t in
    do
      count ← load t.queues.marker i
      if ltb 0 count
          then (do
            row ← load t.queues.priority_q i
            q ← load row 0
            (res, t') ← remove_from_level q i t
            ok (q, t'))
          else rest

-- `if(p!=0 && p->state==RUNNABLE) { ...; p->state = RUNNING; swtch(...); }`: the process to switch
-- to, if there is one. `switchuvm(p)`, which loads the page table of the process, is left out, with
-- its panic for a process without one.
unfoldable pub dispatch : ℕ → Table → Outcome (Option ℕ × Table)
dispatch p t = if p == null then ok (none, t) else do
  slot ← load t.procs p
  if is_runnable slot.state
      then (do t' ← put t p (record slot { state = running }); ok (some p, t'))
      else ok (none, t)

-- One round of the priority scheduler: the process to run, and `p` for the next round.
unfoldable pub schedule : ℕ → Table → Outcome (Option ℕ × ℕ × Table)
schedule p t = do
  (q, t') ← pick_from plevels 0 p t
  (chosen, t'') ← dispatch q t'
  ok (chosen, q, t'')

-- The round-robin scheduler, built where CUSTOM_SCHEDULER is defined: the pass over the table from
-- slot `i` on, up to the next switch. The pass goes on at the slot behind the one it gives.
pub round_robin_from : ℕ → ℕ → Table → Outcome (Option ℕ × Table)
round_robin_from zero i t = ok (none, t)
round_robin_from (suc rounds) i t =
    let rest = round_robin_from rounds (suc i) t in
    do
      slot ← load t.procs i
      if not (is_runnable slot.state)
          then rest
          else do t' ← put t i (record slot { state = running }); ok (some i, t')

-- The `for(;;)` of the priority scheduler up to the first switch, for at most `rounds` rounds.
pub scheduler : ℕ → ℕ → Table → Outcome (Option ℕ × ℕ × Table)
scheduler zero p t = ok (none, p, t)
scheduler (suc rounds) p t = do
  (chosen, q, t') ← schedule p t
  let rest = scheduler rounds q t'
  elim chosen [ some i ↦ ok (some i, q, t') | none ↦ rest ]
