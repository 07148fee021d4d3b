-- ===== src/Proc/Tests.antt =====
-- The life of a process and the calls on one, at the sample table: a shell runs in slot 1 and asks.
use nice_system_calls.Common.{
  ℕ, ◌<◌, ◌≡◌, refl, [], ◌⊎◌, false, arith, Returns, ReturnsOr, some, fault,
}
use nice_system_calls.Common.Int.{pos, negsuc}
use nice_system_calls.Queue.{nproc, null}
use nice_system_calls.Proc.{Table, Reply, value, proc_at}
use nice_system_calls.Proc.Inv.{Inv, Found}
use nice_system_calls.Proc.Sample.{sample, sample-Inv, plain}
use nice_system_calls.Proc.Life.{allocproc, exit}
use nice_system_calls.Proc.Life.Alloc.{Gives, allocproc_lem}
use nice_system_calls.Proc.Life.Leave.{IsGone, exit_lem}
use nice_system_calls.Proc.Calls.{kill, nice, has_pid}
use nice_system_calls.Proc.Calls.Kill.{Killed, kill_lem}
use nice_system_calls.Proc.Calls.Nice.{Niced, nice_lem, nice_five_faults}
use nice_system_calls.Proc.Run.{boots, steps, schedules, forks, waits, Reach-Inv}
use nice_system_calls.Proc.Life.Tests.{
  userinit_runs, init_runs-ok, fork-ok, wait-parked, init_is_running, init_still_runs, child_runs,
  child_runs-ok,
}

allocproc_example : Returns (Gives plain sample 0) (allocproc plain sample 0)
allocproc_example = allocproc_lem plain 0 sample-Inv

exit_example : Returns (λ (r : Table × ℕ). IsGone sample 1 r.0) (exit plain 1 sample 0)
exit_example = exit_lem plain 1 0 sample-Inv (omega arith) (omega arith) (omega arith)

kill_example :
    ReturnsOr
      (1 ≡ sample.initproc)
      (λ (r : Reply × Table × ℕ).
        (((j : ℕ) → j < nproc → has_pid (pos 1) (proc_at sample j) ≡ false)
          × (r.0 ≡ value (negsuc 0))
          × (r.1 ≡ sample))
        ⊎ ((i : ℕ) × Found (has_pid (pos 1)) sample (some i) × Killed 1 i sample (r.0, r.1)))
      (kill plain 1 (pos 1) sample 0)
kill_example = kill_lem plain 1 (pos 1) 0 sample-Inv (ground arith) (omega arith) (omega arith)

nice_example :
    ReturnsOr
      (1 ≡ sample.initproc)
      (λ (r : Reply × Table × ℕ). Niced plain 1 (pos 2) 4 sample (r.0, r.1))
      (nice plain 1 (pos 2) (pos 4) sample 0)
nice_example =
    nice_lem plain 1 (pos 2) 4 0 sample-Inv (omega arith) (omega arith) (omega arith) (omega arith)

nice_five_example : nice plain 1 (pos 2) (pos 5) sample 0 ≡ fault
nice_five_example = nice_five_faults plain 1 1 (pos 2) 0 sample-Inv (omega arith) refl

-- Init runs, forks, waits for its child, and the child runs.
reach_example : Inv child_runs
reach_example = Reach-Inv plain (
    steps
      (steps
        (steps (steps (boots [] 0 userinit_runs) (schedules null (omega arith) init_runs-ok))
          (forks 0 (record { slot = omega arith; state = init_is_running }) fork-ok))
        (waits 0 7 (record { slot = omega arith; state = init_still_runs }) (omega arith)
          wait-parked))
      (schedules 0 (omega arith) child_runs-ok))
