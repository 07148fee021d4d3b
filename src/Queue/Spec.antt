-- ===== src/Queue/Spec.antt =====
-- The contract of a priority level: a FIFO of processes in which no pid stands twice.
use nice_system_calls.Common.{ℕ, Bool, false, List, [], ◌∷◌, ◌++◌, ◌==◌, if◌then◌else◌, ◌||◌}

module _ (pid_of : ℕ → ℕ) where
  -- Does a process with this pid wait in the queue?
  abbrev pub has_pid : ℕ → List ℕ → Bool
  has_pid pid [] = false
  has_pid pid (q ∷ qs) = pid_of q == pid || has_pid pid qs

  -- The queue without the first process that has this pid.
  abbrev pub drop_pid : ℕ → List ℕ → List ℕ
  drop_pid pid [] = []
  drop_pid pid (q ∷ qs) = if pid_of q == pid then qs else q ∷ drop_pid pid qs

  -- The queue with process `p` at its end, unless its pid waits there already.
  abbrev pub enqueue : ℕ → List ℕ → List ℕ
  enqueue p qs = if has_pid (pid_of p) qs then qs else qs ++ p ∷ []
