-- ===== src/Queue/Members.antt =====
-- Who waits in a queue after the operations of `Queue.Spec`.
use nice_system_calls.Common.{ℕ, ◌≡◌, refl, inl, inr, true, List, [], ◌∷◌, arith, ◌==◌, Bool-cases}
use nice_system_calls.Common.Distinct.{In, In-append_left, In-append_right}
use nice_system_calls.Queue.Spec.{has_pid, enqueue}

-- A pid that is found belongs to a process of the queue.
pub has_pid-In :
    (pid_of : ℕ → ℕ) (pid : ℕ) (qs : List ℕ)
    → has_pid pid_of pid qs ≡ true
    → (q : ℕ) × In q qs × (pid_of q ≡ pid)
has_pid-In pid_of pid [] h = absurd (ground arith)
has_pid-In pid_of pid (q ∷ qs) h = elim (Bool-cases (pid_of q == pid)) [
  | inl e ↦ (q, inl refl, ground arith)
  | inr e ↦ let (r, m, k) = has_pid-In pid_of pid qs (ground arith) in (r, inr m, k)
]

pub In-enqueue : (pid_of : ℕ → ℕ) (p a : ℕ) (qs : List ℕ) → In a qs → In a (enqueue pid_of p qs)
In-enqueue pid_of p a qs h = elim (Bool-cases (has_pid pid_of (pid_of p) qs)) [
  | inl e ↦ rw e h
  | inr e ↦ rw e (In-append_left a qs (p ∷ []) h)
]

-- After `enqueue` a process with the pid waits.
pub enqueue-In :
    (pid_of : ℕ → ℕ) (p : ℕ) (qs : List ℕ)
    → (q : ℕ) × In q (enqueue pid_of p qs) × (pid_of q ≡ pid_of p)
enqueue-In pid_of p qs = elim (Bool-cases (has_pid pid_of (pid_of p) qs)) [
  | inl e ↦ rw e (has_pid-In pid_of (pid_of p) qs e)
  | inr e ↦ rw e (p, In-append_right p qs (p ∷ []) (inl refl), refl)
]
