-- ===== src/Proc/Queueing/Keep.antt =====
-- The queue calls of proc.c keep the invariant of the table: an addition repairs it at its process,
-- a removal may break it there and nowhere else.
use nice_system_calls.Common.{
  ℕ, ◌≤◌, ◌<◌, ◌≡◌, refl, sym, subst, ◌∙◌, ◌≢◌, List, arith, if◌then◌else◌, length, fault, Returns,
  Returns-bind, ℕ_discrete,
}
use nice_system_calls.Common.Int.{ℤ, pos, negsuc}
use nice_system_calls.Common.Distinct.{In, Below-In}
use nice_system_calls.Queue.{
  Queues, null, nproc, plevels, add_process_to_queue, remove_process_from_queue,
}
use nice_system_calls.Queue.Spec.{has_pid, drop_pid, enqueue}
use nice_system_calls.Queue.Members.{In-enqueue, enqueue-In}
use nice_system_calls.Queue.Scan.{pid_in}
use nice_system_calls.Queue.Refine.{
  IsQueues, Updates, contents, add_process_to_queue_lem, add_process_to_queue-out,
}
use nice_system_calls.Queue.Remove.{remove_process_from_queue_lem, In-drop_pid_other}
use nice_system_calls.Proc.{Table, runnable, pids, proc_at}
use nice_system_calls.Proc.Queueing.{add_to_level, remove_from_level}
use nice_system_calls.Proc.Inv.{Inv, InvBut, Waits, length-pids, pid_in-pids, requeued}

-- What a queue call on level `l` leaves: the same processes, and a new queue at that level.
pub record Moved (t : Table) (l : ℕ) (queue : List ℕ) (reply : ℤ) (r : ℤ × Table) : Type 0 where
  pub replied : r.0 ≡ reply
  pub rest : r.1 ≡ record t { queues = r.1.queues }
  pub updated : contents r.1.queues l ≡ queue
  pub others : (k : ℕ) → k ≢ l → contents r.1.queues k ≡ contents t.queues k

-- A process that waited still waits if the changed level keeps it.
pub Waits-kept :
    (t : Table) (l : ℕ) (queue : List ℕ) {reply : ℤ} {r : ℤ × Queues}
    → Updates t.queues l queue reply r
    → (i : ℕ) → (In i (contents t.queues l) → In i queue)
    → Waits t.queues i
    → Waits r.1 i
Waits-kept t l queue u i keep (k, hk, m) = elim (ℕ_discrete k l) [
  | yes same ↦ (k, hk, rw (same, u.updated) (keep (subst (λ n. In i (contents t.queues n)) same m)))
  | no other ↦ (k, hk, rw (u.others k other) m)
]

module _ {p : ℕ} {t : Table} (v : InvBut p t) (hp : p < nproc) (l : ℕ) (hl : l < plevels) where
  abbrev pid_of : ℕ → ℕ
  pid_of = pid_in (pids t.procs)

  abbrev old : List ℕ
  old = contents t.queues l

  added-Waits :
      {reply : ℤ} {r : ℤ × Queues}
      → Updates t.queues l (enqueue pid_of p old) reply r
      → (proc_at t p).state ≡ runnable
      → Waits r.1 p
  added-Waits {r = r} u run =
      let (q, m, e) = enqueue-In pid_of p old in
      let there : In q (contents r.1 l) = rw u.updated m in
      let hq : q < nproc = Below-In q nproc (contents r.1 l) (u.valid.slots l hl) there in
      let pid_q : (proc_at t q).pid ≡ (proc_at t p).pid =
        sym (pid_in-pids t.procs q) ∙ e ∙ pid_in-pids t.procs p in
      let live : (proc_at t p).pid ≢ 0 = v.live p hp (λ u. ground arith) in
      (
        l,
        hl,
        subst (λ k. In k (contents r.1 l)) (v.unique q p hq hp (λ z. live (sym pid_q ∙ z)) pid_q)
            there,
      )

  -- `add_process_to_queue` on a table in which at most `p` is runnable without waiting.
  pub add_to_level_keeps :
      Returns
        (λ r.
          Inv r.1
          × Moved t l
              (enqueue pid_of p old)
              (if has_pid pid_of (pid_of p) old then negsuc 0 else pos 1)
              r)
        (add_to_level p l t)
  unfolding add_to_level
  add_to_level_keeps =
      Returns-bind _ _ (add_process_to_queue (pids t.procs) p l t.queues) _
        (add_process_to_queue_lem (pids t.procs) p l t.queues v.queues
          (length-pids t.procs ∙ v.size) hp hl)
        λ (r : ℤ × Queues) u. (
          requeued v null r.1 u.valid (λ i hi ne run. elim (ℕ_discrete i p) [
            | yes same ↦
                rw same (added-Waits u (subst (λ k. (proc_at t k).state ≡ runnable) same run))
            | no other ↦
                Waits-kept t l (enqueue pid_of p old) u i (In-enqueue pid_of p i old)
                  (v.queued i hi other run)
          ]),
          record { replied = u.replied; rest = refl; updated = u.updated; others = u.others },
        )

  -- `remove_process_from_queue`: at most `p` waits nowhere afterwards.
  pub remove_from_level_keeps :
      Returns
        (λ r.
          InvBut p r.1
          × Moved t l
              (drop_pid pid_of (pid_of p) old)
              (if has_pid pid_of (pid_of p) old then pos 1 else negsuc 0)
              r)
        (remove_from_level p l t)
  unfolding remove_from_level
  remove_from_level_keeps =
      Returns-bind _ _ (remove_process_from_queue (pids t.procs) p l t.queues) _
        (remove_process_from_queue_lem (pids t.procs) p l t.queues v.queues
          (length-pids t.procs ∙ v.size) hp hl)
        λ (r : ℤ × Queues) u. (
          requeued v p r.1 u.valid (λ i hi ne run.
              Waits-kept t l (drop_pid pid_of (pid_of p) old) u i
                (In-drop_pid_other pid_of (pid_of p) i old (λ e. ne (
                  v.unique i p hi hp (v.live i hi (λ z. ground arith))
                    (sym (pid_in-pids t.procs i) ∙ e ∙ pid_in-pids t.procs p))))
                (v.queued i hi ne run)),
          record { replied = u.replied; rest = refl; updated = u.updated; others = u.others },
        )

-- Outside the levels both arrays end.
pub add_to_level-out :
    (p l : ℕ) (t : Table)
    → length t.queues.marker ≡ plevels
    → plevels ≤ l
    → add_to_level p l t ≡ fault
unfolding add_to_level
add_to_level-out p l t e h = rw (add_process_to_queue-out (pids t.procs) p l t.queues (omega arith))

pub remove_from_level-IsQueues :
    (p l : ℕ) (t : Table)
    → IsQueues t.queues
    → length t.procs ≡ nproc
    → p < nproc
    → l < plevels
    → Returns (λ (r : ℤ × Table). IsQueues r.1.queues) (remove_from_level p l t)
unfolding remove_from_level
remove_from_level-IsQueues p l t v size h hl =
    Returns-bind _ _ (remove_process_from_queue (pids t.procs) p l t.queues) _
      (remove_process_from_queue_lem (pids t.procs) p l t.queues v (length-pids t.procs ∙ size) h
        hl)
      (λ (r : ℤ × Queues) u. u.valid)
