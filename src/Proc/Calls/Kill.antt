-- ===== src/Proc/Calls/Kill.antt =====
-- `kill` keeps the invariant; its reply depends on whether the process already waits in a queue.
use nice_system_calls.Common.{
  ℕ, ◌<◌, ◌≡◌, refl, ap, subst, ◌∙◌, ◌≢◌, ◌⊎◌, inl, inr, true, false, [], ◌∷◌, arith, ◌==◌, ==_iff,
  if◌then◌else◌, Bool-cases, Option-cases, ok, ◌>>=◌, ReturnsOr, ReturnsOr-bind, ReturnsOr-mono,
  Returns-bind-ReturnsOr, some, ◌++◌,
}
use nice_system_calls.Common.Int.{ℤ, pos, negsuc}
use nice_system_calls.Queue.{nproc, plevels}
use nice_system_calls.Queue.Spec
use nice_system_calls.Queue.Scan.{pid_in}
use nice_system_calls.Proc.{
  Table, Proc, Services, Reply, value, exited, runnable, zombie, is_sleeping, proc_at, find_slot,
  pids,
}
use nice_system_calls.Proc.Queueing.{add_to_level, level_of}
use nice_system_calls.Proc.Queueing.Schedule.{level}
use nice_system_calls.Proc.Queueing.Keep.{add_to_level_keeps}
use nice_system_calls.Proc.Life.{exit}
use nice_system_calls.Proc.Life.Exit.{exit_any}
use nice_system_calls.Proc.Calls.{has_pid, kill_slot, kill}
use nice_system_calls.Proc.Inv.{
  Inv, InvBut, put-ok, load-slot, written, written-InvBut, proc_at-written, Found, pid_in-pids,
}
use nice_system_calls.Proc.Queueing.Reply.{already_waits, pid_in-written, has_pid_ext}
use nice_system_calls.Proc.Find.{find_slot_lem}

-- The slot of a killed process.
abbrev pub killed_slot : Proc → Proc
killed_slot p = record p { killed = 1; state = if is_sleeping p.state then runnable else p.state }

-- What `kill` has done to the process in slot `i`: it is marked and wakes up, it waits at the end of
-- its level, every other slot and level is as before, and so are `nextpid` and `initproc`.
pub record IsKilled (t : Table) (i : ℕ) (t' : Table) : Type 0 where
  pub slots : (j : ℕ) → proc_at t' j ≡ (if i == j then killed_slot (proc_at t j) else proc_at t j)
  pub appended :
      level t' (level_of (proc_at t i).priority)
      ≡ level t (level_of (proc_at t i).priority) ++ i ∷ []
  pub other_levels : (l : ℕ) → l ≢ level_of (proc_at t i).priority → level t' l ≡ level t l
  pub same_next : t'.nextpid ≡ t.nextpid
  pub same_init : t'.initproc ≡ t.initproc

-- The caller gets 0 if the process did not wait at its level, and exits otherwise.
abbrev pub Killed : ℕ → ℕ → Table → Reply × Table → Type 0
Killed me i t r =
    Inv r.1
    × (((already_waits t i ≡ false) × (r.0 ≡ value (pos 0)) × IsKilled t i r.1)
        ⊎ ((already_waits t i ≡ true) × (r.0 ≡ exited) × ((proc_at r.1 me).state ≡ zombie)))

has_pid-ne : (pid : ℤ) (p : Proc) → pid ≢ pos 0 → has_pid pid p ≡ true → p.pid ≢ 0
has_pid-ne (pos n) p nz e z = nz (ground arith)
has_pid-ne (negsuc n) p nz e z = cc

module _ (S : Services) where
  open S use {World}

  kill_done :
      (t : Table) {t2 : Table} (X : Type 0) (me i : ℕ) (w : World) (res : ℤ)
      → Inv t2
      → me < nproc
      → (proc_at t2 me).pid ≢ 0
      → (me ≡ t2.initproc → X)
      → res ≡ (if already_waits t i then negsuc 0 else pos 1)
      → (already_waits t i ≡ false → IsKilled t i t2)
      → ReturnsOr X
          (λ (r : Reply × Table × World). Killed me i t (r.0, r.1))
          (elim res [
            | negsuc n ↦ (do (t3, w3) ← exit S me t2 w; ok (exited, t3, w3))
            | pos n ↦ ok (value (pos 0), t2, w)
          ])
  kill_done t X me i w (pos n) v h live stop e done =
      let new : already_waits t i ≡ false = ground arith in (v, inl (new, refl, done new))
  kill_done t {t2} X me i w (negsuc n) v h live stop e done =
      ReturnsOr-bind _ _ _ (exit S me t2 w) _ (exit_any S X me w v h live stop)
        (λ (r : Table × World) k. (k.0.0, inr (ground arith, refl, k.1)))

  kill_slot_lem :
      {t : Table} (me i : ℕ) (w : World)
      → Inv t
      → i < nproc
      → (proc_at t i).pid ≢ 0
      → me < nproc
      → (proc_at t me).pid ≢ 0
      → ReturnsOr
          (me ≡ t.initproc)
          (λ (r : Reply × Table × World). Killed me i t (r.0, r.1))
          (kill_slot S me i t w)
  unfolding kill_slot
  kill_slot_lem {t} me i w v h pid h' live =
      let q : Proc = killed_slot (proc_at t i) in
      let t1 : Table = written t i q in
      let l = level_of (proc_at t i).priority in
      let hl : l < plevels = ground (arith, v.ranked i h pid, v.capped i h) in
      let at : (j : ℕ) → proc_at t1 j ≡ (if i == j then q else proc_at t j) =
        λ j. proc_at-written t i j q v.size h in
      let v1 : InvBut i t1 =
        written-InvBut v i h q i refl (λ e. pid) (v.ranked i h) (v.capped i h) (v.files i h)
          (λ e. absurd (e refl)) (λ j hj ne nn e. v.queued j hj (omega arith) e) in
      let same_pid = pid_in-written t i q v.size h refl in
      let asked : Spec.has_pid (pid_in (pids t1.procs)) (pid_in (pids t1.procs) i) (level t l)
          ≡ already_waits t i =
        has_pid_ext (pid_in (pids t1.procs)) (pid_in (pids t.procs)) (pid_in (pids t1.procs) i)
          (level t l) same_pid
        ∙ ap (λ n. Spec.has_pid (pid_in (pids t.procs)) n (level t l))
            (same_pid i ∙ pid_in-pids t.procs i) in
      rw (load-slot t i v.size h, put-ok t i q v.size h)
        (Returns-bind-ReturnsOr _ _ _ (add_to_level i l t1) _ (add_to_level_keeps v1 h l hl)
          (λ (r : ℤ × Table) k.
            let slots : (j : ℕ)
                → proc_at r.1 j ≡ (if i == j then killed_slot (proc_at t j) else proc_at t j) =
              λ j. ap (λ (s : Table). proc_at s j) k.1.rest ∙ at j ∙ elim (Bool-cases (i == j)) [
                | inl e ↦ rw e (ap (λ n. killed_slot (proc_at t n)) ((==_iff i j).0 e))
                | inr e ↦ rw e
              ] in
            kill_done t {t2 = r.1} (me ≡ t.initproc) me i w r.0 k.0 h'
              (λ z. live (ground (arith, slots me)))
              (λ z. z ∙ ap (λ (s : Table). s.initproc) k.1.rest)
              (k.1.replied ∙ ap (λ b. if b then negsuc 0 else pos 1) asked)
              (λ new. record {
                slots = slots;
                appended = k.1.updated ∙ rw (asked, new) refl;
                other_levels = k.1.others;
                same_next = ap (λ (s : Table). s.nextpid) k.1.rest;
                same_init = ap (λ (s : Table). s.initproc) k.1.rest;
              })))

  -- `kill` with a pid other than 0, called on a well formed table by a live process, returns, or it
  -- panics and the caller is init. Where no slot has the pid it returns -1 and changes nothing.
  -- Otherwise, for the first slot with the pid, the table stays well formed, and if no process with
  -- that pid waits at its level the call returns 0, the process is marked killed, is runnable if it
  -- slept and waits at the end of its level, and nothing else of the table changes; if one does
  -- wait there, the caller has exited and is a zombie.
  pub kill_lem :
      {t : Table} (me : ℕ) (pid : ℤ) (w : World)
      → Inv t
      → pid ≢ pos 0
      → me < nproc
      → (proc_at t me).pid ≢ 0
      → ReturnsOr
          (me ≡ t.initproc)
          (λ (r : Reply × Table × World).
            (((j : ℕ) → j < nproc → has_pid pid (proc_at t j) ≡ false)
              × (r.0 ≡ value (negsuc 0))
              × (r.1 ≡ t))
            ⊎ ((i : ℕ) × Found (has_pid pid) t (some i) × Killed me i t (r.0, r.1)))
          (kill S me pid t w)
  unfolding kill
  kill_lem {t} me pid w v nz h live = elim (Option-cases (find_slot (has_pid pid) t.procs 0)) [
    | inl e ↦
        rw (e, kill)
          (inl (subst (Found (has_pid pid) t) e (find_slot_lem (has_pid pid) t v.size), refl, refl))
    | inr (i, e) ↦
        let found = subst (Found (has_pid pid) t) e (find_slot_lem (has_pid pid) t v.size) in
        rw (e, kill)
          (ReturnsOr-mono _ _ _ _ (kill_slot S me i t w)
            (kill_slot_lem me i w v found.0 (has_pid-ne pid (proc_at t i) nz found.1) h live)
            (λ z. z) (λ r k. inr (i, found, k)))
  ]
