-- ===== src/Proc/Life/Tests.antt =====
-- The kernel after `userinit`, where the first process waits in slot 0, and its first steps: init
-- runs, forks and waits for its child, which runs next.
use nice_system_calls.Common.{ℕ, ◌≡◌, refl, [], Option, none, some, Outcome, ok}
use nice_system_calls.Common.Int.{pos}
use nice_system_calls.Queue.{
  null, find_pid, add_process_to_queue, remove_process_from_queue, shift_down,
}
use nice_system_calls.Proc.{
  Table, Reply, value, exited, parked, running, proc_at, boot_table, find_slot,
}
use nice_system_calls.Proc.Queueing.{
  make_runnable, add_to_level, schedule, pick_from, dispatch, remove_from_level, sleep,
}
use nice_system_calls.Proc.Sample.{plain}
use nice_system_calls.Proc.Life.{
  userinit, userinit_slot, allocproc, alloc_slot, claim, fork, fork_into, fork_child, inherit,
  dup_files, exit, wait_round, wait_end, wait_scan,
}

pub result : Outcome (Table × ℕ) → Table × ℕ
result (ok r) = r
result _ = (boot_table, 0)

abbrev pub booted : Table
booted = record {
  procs = (result (userinit plain [] boot_table 0)).0.procs;
  queues = (result (userinit plain [] boot_table 0)).0.queues;
  nextpid = 2;
  initproc = 0;
}

pub userinit_runs : userinit plain [] boot_table 0 ≡ ok (booted, 1)
unfolding userinit userinit_slot allocproc alloc_slot claim make_runnable add_to_level
    add_process_to_queue find_pid result find_slot
userinit_runs = refl

pub scheduled : Outcome (Option ℕ × ℕ × Table) → Option ℕ × ℕ × Table
scheduled (ok r) = r
scheduled _ = (none, null, boot_table)

pub replied : Outcome (Reply × Table × ℕ) → Reply × Table × ℕ
replied (ok r) = r
replied _ = (exited, boot_table, 0)

abbrev pub init_runs : Table
init_runs = (scheduled (schedule null booted)).2

pub init_runs-ok : schedule null booted ≡ ok (some 0, 0, init_runs)
unfolding schedule pick_from dispatch remove_from_level remove_process_from_queue shift_down
    scheduled userinit userinit_slot allocproc alloc_slot claim make_runnable add_to_level
    add_process_to_queue find_pid result find_slot
init_runs-ok = refl

abbrev pub forked : Table
forked = (replied (fork plain 0 init_runs 1)).1

pub fork-ok : fork plain 0 init_runs 1 ≡ ok (value (pos 2), forked, 2)
unfolding schedule pick_from dispatch remove_from_level remove_process_from_queue shift_down
    scheduled userinit userinit_slot allocproc alloc_slot claim make_runnable add_to_level
    add_process_to_queue find_pid result find_slot fork fork_into fork_child exit inherit dup_files
    replied
fork-ok = refl

abbrev pub waiting : Table
waiting = (replied (wait_round plain 7 0 forked 2)).1

pub wait-parked : wait_round plain 7 0 forked 2 ≡ ok (parked, waiting, 2)
unfolding schedule pick_from dispatch remove_from_level remove_process_from_queue shift_down
    scheduled userinit userinit_slot allocproc alloc_slot claim make_runnable add_to_level
    add_process_to_queue find_pid result find_slot fork fork_into fork_child exit inherit dup_files
    replied wait_round wait_end wait_scan sleep
wait-parked = refl

abbrev pub child_runs : Table
child_runs = (scheduled (schedule 0 waiting)).2

pub child_runs-ok : schedule 0 waiting ≡ ok (some 1, 1, child_runs)
unfolding schedule pick_from dispatch remove_from_level remove_process_from_queue shift_down
    scheduled userinit userinit_slot allocproc alloc_slot claim make_runnable add_to_level
    add_process_to_queue find_pid result find_slot fork fork_into fork_child exit inherit dup_files
    replied wait_round wait_end wait_scan sleep
child_runs-ok = refl

pub init_is_running : (proc_at init_runs 0).state ≡ running
unfolding schedule pick_from dispatch remove_from_level remove_process_from_queue shift_down
    scheduled userinit userinit_slot allocproc alloc_slot claim make_runnable add_to_level
    add_process_to_queue find_pid result find_slot fork fork_into fork_child exit inherit dup_files
    replied wait_round wait_end wait_scan sleep
init_is_running = refl

pub init_still_runs : (proc_at forked 0).state ≡ running
unfolding schedule pick_from dispatch remove_from_level remove_process_from_queue shift_down
    scheduled userinit userinit_slot allocproc alloc_slot claim make_runnable add_to_level
    add_process_to_queue find_pid result find_slot fork fork_into fork_child exit inherit dup_files
    replied wait_round wait_end wait_scan sleep
init_still_runs = refl
