-- ===== src/Queue/Empty.antt =====
-- The queues of the kernel image at the start: every level is empty.
use nice_system_calls.Common.{
  ℕ, zero, suc, ◌<◌, ◌≡◌, refl, ap, [], arith, length, get_or, replicate, window,
}
use nice_system_calls.Queue.{nproc, plevels, no_queues}
use nice_system_calls.Queue.Scan.{cell}
use nice_system_calls.Queue.Refine.{IsQueues, contents, row_of}

pub get_or-replicate {ℓ} : {A : Type ℓ} (n i : ℕ) (a : A) → get_or (replicate n a) i a ≡ a
get_or-replicate zero i a = refl
get_or-replicate (suc n) zero a = refl
get_or-replicate (suc n) (suc i) a = get_or-replicate n i a

pub contents-no_queues : (l : ℕ) → contents no_queues l ≡ []
unfolding contents
contents-no_queues l = ap (window (cell (row_of no_queues l)) 0) (get_or-replicate plevels l 0)

row_of-no_queues : (l : ℕ) → l < plevels → length (row_of no_queues l) ≡ nproc
row_of-no_queues zero h = refl
row_of-no_queues (suc zero) h = refl
row_of-no_queues (suc (suc zero)) h = refl
row_of-no_queues (suc (suc (suc zero))) h = refl
row_of-no_queues (suc (suc (suc (suc zero)))) h = refl
row_of-no_queues (suc (suc (suc (suc (suc l))))) h = absurd (omega arith)

pub no_queues-IsQueues : IsQueues no_queues
no_queues-IsQueues = record {
  levels = refl;
  markers = refl;
  rows = row_of-no_queues;
  slots = λ l h. rw (contents-no_queues l) tt;
  distinct = λ l h. rw (contents-no_queues l) tt;
}
