-- ===== src/Queue/Tests.antt =====
-- The priority queues on small inputs: process 3, and then process 2, comes to wait at level 1.
use nice_system_calls.Common.{
  ℕ, ◌≡◌, refl, List, [], ◌∷◌, arith, if◌then◌else◌, Outcome, ok, Returns, Returns-ok, replicate,
}
use nice_system_calls.Common.Int.{ℤ, pos, negsuc}
use nice_system_calls.Queue.{
  Queues, no_queues, find_pid, add_process_to_queue, remove_process_from_queue,
}
use nice_system_calls.Queue.Scan.{pid_in}
use nice_system_calls.Queue.Spec.{enqueue}
use nice_system_calls.Queue.Empty.{no_queues-IsQueues}
use nice_system_calls.Queue.Refine.{IsQueues, Updates, contents, waits, add_process_to_queue_lem}
use nice_system_calls.Queue.Remove.{remaining, remove_process_from_queue_lem}

abbrev four : List ℕ
four = 7 ∷ 8 ∷ 9 ∷ 10 ∷ replicate 60 0

result : Outcome (ℤ × Queues) → Queues
result (ok r) = r.1
result _ = no_queues

abbrev one : Queues
one = record {
  priority_q = (result (add_process_to_queue four 3 1 no_queues)).priority_q;
  marker = (result (add_process_to_queue four 3 1 no_queues)).marker;
}

one_runs : add_process_to_queue four 3 1 no_queues ≡ ok (pos 1, one)
unfolding add_process_to_queue find_pid result
one_runs = refl

one-IsQueues : IsQueues one
one-IsQueues =
    (Returns-ok
      (Updates no_queues 1 (enqueue (pid_in four) 3 (contents no_queues 1))
        (if waits four 3 1 no_queues no_queues-IsQueues then negsuc 0 else pos 1))
      (add_process_to_queue four 3 1 no_queues) (pos 1, one)
      (add_process_to_queue_lem four 3 1 no_queues no_queues-IsQueues refl (omega arith)
        (omega arith))
      one_runs).valid

one_waits : contents one 1 ≡ 3 ∷ []
unfolding contents add_process_to_queue find_pid result
one_waits = refl

again_refused : add_process_to_queue four 3 1 one ≡ ok (negsuc 0, one)
unfolding add_process_to_queue find_pid result
again_refused = refl

add_example :
    Returns
      (Updates one 1
        (enqueue (pid_in four) 2 (contents one 1))
        (if waits four 2 1 one one-IsQueues then negsuc 0 else pos 1))
      (add_process_to_queue four 2 1 one)
add_example = add_process_to_queue_lem four 2 1 one one-IsQueues refl (omega arith) (omega arith)

remove_example :
    Returns
      (Updates one 1
        (remaining four 3 1 one one-IsQueues)
        (if waits four 3 1 one one-IsQueues then pos 1 else negsuc 0))
      (remove_process_from_queue four 3 1 one)
remove_example =
    remove_process_from_queue_lem four 3 1 one one-IsQueues refl (omega arith) (omega arith)
