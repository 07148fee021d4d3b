-- ===== src/Proc/Queueing/Reply.antt =====
-- What the queue calls of proc.c reply when a process is put into its level: whether a process with
-- its pid waited there.
use nice_system_calls.Common.{
  ℕ, ◌<◌, ◌≡◌, refl, sym, ap, ◌∙◌, ◌≢◌, List, [], ◌∷◌, Bool, arith, if◌then◌else◌, length, Returns,
  Returns-mono,
}
use nice_system_calls.Common.Int.{pos, negsuc}
use nice_system_calls.Queue.{nproc}
use nice_system_calls.Queue.Spec
use nice_system_calls.Queue.Scan.{pid_in}
use nice_system_calls.Proc.{Table, Proc, runnable, pids, proc_at}
use nice_system_calls.Proc.Queueing.{add_to_level, level_of, make_runnable}
use nice_system_calls.Proc.Queueing.Schedule.{level}
use nice_system_calls.Proc.Queueing.Keep.{add_to_level_keeps}
use nice_system_calls.Proc.Queueing.Wake.{Maps, made_runnable, written-Maps}
use nice_system_calls.Proc.Inv.{
  Inv, put-ok, load-slot, written, written-InvBut, proc_at-written, pid_in-pids,
}

-- Does some process with the pid of slot `i` wait at the level of slot `i`?
abbrev pub already_waits : Table → ℕ → Bool
already_waits t i =
    Spec.has_pid (pid_in (pids t.procs)) (proc_at t i).pid
      (level t (level_of (proc_at t i).priority))

pub pid_in-written :
    (t : Table) (i : ℕ) (q : Proc)
    → length t.procs ≡ nproc
    → i < nproc
    → q.pid ≡ (proc_at t i).pid
    → (j : ℕ) → pid_in (pids (written t i q).procs) j ≡ pid_in (pids t.procs) j
pid_in-written t i q e h same j =
    pid_in-pids (written t i q).procs j
    ∙ ground (arith, proc_at-written t i j q e h)
    ∙ sym (pid_in-pids t.procs j)

pub has_pid_ext :
    (f g : ℕ → ℕ) (pid : ℕ) (qs : List ℕ)
    → ((j : ℕ) → f j ≡ g j)
    → Spec.has_pid f pid qs ≡ Spec.has_pid g pid qs
has_pid_ext f g pid [] same = refl
has_pid_ext f g pid (q ∷ qs) same = ground (arith, same q, has_pid_ext f g pid qs same)

pub already_waits-written :
    (t : Table) (i : ℕ) (q : Proc)
    → length t.procs ≡ nproc
    → i < nproc
    → q.pid ≡ (proc_at t i).pid
    → q.priority ≡ (proc_at t i).priority
    → already_waits (written t i q) i ≡ already_waits t i
already_waits-written t i q e h same rank =
    let at : proc_at (written t i q) i ≡ q = proc_at-written t i i q e h ∙ ground arith in
    let pid : (proc_at (written t i q) i).pid ≡ (proc_at t i).pid =
      ap (λ (x : Proc). x.pid) at ∙ same in
    let priority : (proc_at (written t i q) i).priority ≡ (proc_at t i).priority =
      ap (λ (x : Proc). x.priority) at ∙ rank in
    rw (pid, priority)
      (has_pid_ext (pid_in (pids (written t i q).procs)) (pid_in (pids t.procs)) (proc_at t i).pid
        (level t (level_of (proc_at t i).priority)) (pid_in-written t i q e h same))

-- `make_runnable`, with its reply.
pub make_runnable_lem :
    {t : Table} (p : ℕ)
    → Inv t
    → p < nproc
    → (proc_at t p).pid ≢ 0
    → Returns
        (λ r.
          Inv r.1
          × Maps (made_runnable p) t r.1
          × (r.0 ≡ (if already_waits t p then negsuc 0 else pos 1)))
        (make_runnable p t)
unfolding make_runnable
make_runnable_lem {t} p v h live =
    let q : Proc = record (proc_at t p) { state = runnable } in
    let t1 : Table = written t p q in
    let l = level_of (proc_at t p).priority in
    let same_pid = pid_in-written t p q v.size h refl in
    let asked : Spec.has_pid (pid_in (pids t1.procs)) (pid_in (pids t1.procs) p) (level t l)
        ≡ already_waits t p =
      has_pid_ext (pid_in (pids t1.procs)) (pid_in (pids t.procs)) (pid_in (pids t1.procs) p)
        (level t l) same_pid
      ∙ ap (λ n. Spec.has_pid (pid_in (pids t.procs)) n (level t l))
          (same_pid p ∙ pid_in-pids t.procs p) in
    rw (load-slot t p v.size h, put-ok t p q v.size h)
      (Returns-mono _ _ (add_to_level p l t1)
        (add_to_level_keeps
          (written-InvBut v p h q p refl (λ e. live) (λ e. v.ranked p h live) (v.capped p h)
            (v.files p h) (λ ne. absurd (ne refl)) (λ j hj ne nn e. v.queued j hj (omega arith) e))
          h l (ground (arith, v.ranked p h live, v.capped p h)))
        (λ r k. (
          k.0,
          written-Maps p v.size h r.1 k.1.rest,
          k.1.replied ∙ ap (λ b. if b then negsuc 0 else pos 1) asked,
        )))
