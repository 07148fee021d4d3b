-- ===== src/Proc/Queueing/Tests.antt =====
-- The scheduler and the routines around it on small inputs.
use nice_system_calls.Common.{◌≡◌, refl, arith, Outcome, ok, Returns, Returns-ok}
use nice_system_calls.Queue.{null, add_process_to_queue, find_pid}
use nice_system_calls.Queue.Refine.{contents}
use nice_system_calls.Proc.{Table}
use nice_system_calls.Proc.Inv.{Inv, Keeps}
use nice_system_calls.Proc.Sample.{sample, sample-Inv}
use nice_system_calls.Proc.Queueing.{
  yield, make_runnable, add_to_level, schedule, scheduler, wakeup1,
}
use nice_system_calls.Proc.Queueing.Schedule.{Round, schedule_lem}
use nice_system_calls.Proc.Queueing.Progress.{scheduler_progress, Picked}
use nice_system_calls.Proc.Queueing.Turns.{yield-Keeps}
use nice_system_calls.Proc.Queueing.Wake.{wakeup1_lem, Maps, woken}

-- The shell has given up the processor.
after : Outcome Table → Table
after (ok t) = t
after _ = sample

abbrev yielded : Table
yielded = record sample {
  procs = (after (yield 1 sample)).procs;
  queues = (after (yield 1 sample)).queues;
}

yield-sample : yield 1 sample ≡ ok yielded
unfolding yield make_runnable add_to_level add_process_to_queue find_pid after
yield-sample = refl

yielded-Inv : Inv yielded
yielded-Inv =
    (Returns-ok (Keeps sample) (yield 1 sample) yielded
      (yield-Keeps 1 sample-Inv (omega arith) (omega arith)) yield-sample).0

wakeup1_example : Returns (λ t'. Inv t' × Maps (λ j. woken 0) sample t') (wakeup1 0 sample)
wakeup1_example = wakeup1_lem 0 sample-Inv

schedule_example : Returns (Round null yielded) (schedule null yielded)
schedule_example = schedule_lem null yielded-Inv (omega arith)

progress_example : Returns (Picked yielded) (scheduler 65 null yielded)
unfolding after yield make_runnable add_to_level add_process_to_queue find_pid contents
progress_example =
    scheduler_progress 65 null 1 yielded-Inv (omega arith) (omega arith) refl (omega arith)
