-- ===== src/Proc/Calls/Nice.antt =====
-- `nice`: what it returns, where it leaves the process, and that the invariant holds after it.
use nice_system_calls.Common.{
  ℕ, ◌+◌, ◌*◌, ◌≤◌, ◌<◌, ◌≡◌, refl, sym, ap, subst, ◌∙◌, ◌≢◌, ◌⊎◌, inl, inr, true, false, arith,
  ◌==◌, ==_iff, if◌then◌else◌, ◌||◌, Bool-cases, Option-cases, ok, fault, ◌>>=◌, Returns,
  bind-fault, length-set, Returns-bind, ReturnsOr, ReturnsOr-bind, ReturnsOr-mono,
  Returns-ReturnsOr, some, ◌%◌, ◌^◌,
}
use nice_system_calls.Common.Int.{ℤ, pos, ltb_ℤ, to_int}
use nice_system_calls.Common.Distinct.{In}
use nice_system_calls.Queue.{nproc}
use nice_system_calls.Queue.Members.{enqueue-In}
use nice_system_calls.Queue.Scan.{pid_in}
use nice_system_calls.Proc.{
  Table, Proc, Services, Reply, value, exited, zombie, proc_at, find_slot, pids,
}
use nice_system_calls.Proc.Queueing.{add_to_level, remove_from_level}
use nice_system_calls.Proc.Queueing.Schedule.{level}
use nice_system_calls.Proc.Queueing.Keep.{
  add_to_level_keeps, remove_from_level_keeps, add_to_level-out, remove_from_level-IsQueues,
}
use nice_system_calls.Proc.Life.{exit}
use nice_system_calls.Proc.Life.Exit.{exit_any}
use nice_system_calls.Proc.Calls.{has_pid, set_priority, nice, mod_base}
use nice_system_calls.Proc.Inv.{
  Inv, InvBut, put-ok, load-slot, written, written-InvBut, proc_at-written, Found, pid_in-pids,
}
use nice_system_calls.Proc.Find.{find_slot_lem}

-- What `nice` has done to the process in slot `i` when it returns `n`: the priority is the new one
-- and nothing else of any process changes; the value is the int of 32 bits that pid * 65 + old priority wraps
-- to; and some
-- process with that pid waits at the level that has the number of the new priority.
pub record Reniced (t : Table) (i priority : ℕ) (r : Reply × Table) : Type 0 where
  pub valid : Inv r.1
  pub reply :
      r.0 ≡ value (to_int (((proc_at t i).pid * mod_base + (proc_at t i).priority) % 2 ^ 32))
  pub slots :
      (j : ℕ)
      → proc_at r.1 j
        ≡ (if i == j then record (proc_at t j) { priority = priority } else proc_at t j)
  pub waits : (q : ℕ) × In q (level r.1 priority) × ((proc_at r.1 q).pid ≡ (proc_at t i).pid)

module _ (S : Services) where
  open S use {World}

  set_priority_lem :
      {t : Table} (i priority : ℕ) (w : World)
      → Inv t
      → i < nproc
      → 1 ≤ priority
      → priority ≤ 4
      → Returns
          (λ (r : Reply × Table × World). Reniced t i priority (r.0, r.1))
          (set_priority S i priority t w)
  unfolding set_priority
  set_priority_lem {t} i priority w v h lo hi =
      let old = (proc_at t i).priority in
      let q : Proc = record (proc_at t i) { priority = priority } in
      let t1 : Table = written t i q in
      let at : (j : ℕ) → proc_at t1 j ≡ (if i == j then q else proc_at t j) =
        λ j. proc_at-written t i j q v.size h in
      let v1 : InvBut i t1 =
        written-InvBut v i h q i refl (v.live i h) (λ e. lo) hi (v.files i h) (λ e. absurd (e refl))
          (λ j hj ne nn e. v.queued j hj (omega arith) e) in
      rw (load-slot t i v.size h, put-ok t i q v.size h)
        (Returns-bind _ _ (remove_from_level i old t1) _
          (remove_from_level_keeps v1 h old (omega (arith, v.capped i h)))
          (λ (r1 : ℤ × Table) k1.
            Returns-bind _ _ (add_to_level i priority r1.1) _
              (add_to_level_keeps k1.0 h priority (omega arith))
              (λ (r2 : ℤ × Table) k2.
                let same : (j : ℕ) → proc_at r2.1 j ≡ proc_at t1 j = λ j.
                  ap (λ (s : Table). proc_at s j) (k2.1.rest)
                  ∙ ap (λ (s : Table). proc_at s j) (k1.1.rest) in
                let (m, there, e) = enqueue-In (pid_in (pids r1.1.procs)) i (level r1.1 priority) in
                record {
                  valid = k2.0;
                  reply = refl;
                  slots = λ j. same j ∙ at j ∙ elim (Bool-cases (i == j)) [
                    | inl here ↦ rw here (
                        ap (λ n. record (proc_at t n) { priority = priority })
                          ((==_iff i j).0 here))
                    | inr there ↦ rw there
                  ];
                  waits = (
                    m,
                    rw k2.1.updated there,
                    ap (λ (s : Table). (proc_at s m).pid) k2.1.rest
                        ∙ sym (pid_in-pids r1.1.procs m)
                        ∙ e
                        ∙ pid_in-pids r1.1.procs i
                        ∙ ap (λ (s : Table). (proc_at s i).pid) k1.1.rest
                        ∙ ground (arith, at i),
                  );
                })))

  -- How `nice` ends where the priority is one of 1 to 4: the process is reniced, or there is none
  -- and the caller exits.
  abbrev pub Niced : ℕ → ℤ → ℕ → Table → Reply × Table → Type 0
  Niced me pid priority t r =
      ((i : ℕ) × Found (has_pid pid) t (some i) × Reniced t i priority r)
      ⊎ (((j : ℕ) → j < nproc → has_pid pid (proc_at t j) ≡ false)
          × Inv r.1
          × (r.0 ≡ exited)
          × ((proc_at r.1 me).state ≡ zombie))

  exits :
      {t : Table} (me : ℕ) (w : World)
      → Inv t
      → me < nproc
      → (proc_at t me).pid ≢ 0
      → ReturnsOr
          (me ≡ t.initproc)
          (λ (r : Reply × Table × World).
            Inv r.1 × (r.0 ≡ exited) × ((proc_at r.1 me).state ≡ zombie))
          (do (t1, w1) ← exit S me t w; ok (exited, t1, w1))
  exits {t} me w v h live =
      ReturnsOr-bind _ _ _ (exit S me t w) _ (exit_any S (me ≡ t.initproc) me w v h live (λ z. z))
        (λ (r : Table × World) k. (k.0.0, refl, k.1))

  -- `nice` with a priority from 1 to 4, called on a well formed table by a live process, returns,
  -- or it panics and the caller is init. Either the first slot with the pid gets the priority, no
  -- other slot changes, some process with the pid waits at the level numbered by the new priority,
  -- and the value is pid * 65 + old priority as a 32-bit int (`Reniced`), or no slot has the pid
  -- and the caller is a zombie; the table stays well formed.
  pub nice_lem :
      {t : Table} (me : ℕ) (pid : ℤ) (priority : ℕ) (w : World)
      → Inv t
      → 1 ≤ priority
      → priority ≤ 4
      → me < nproc
      → (proc_at t me).pid ≢ 0
      → ReturnsOr
          (me ≡ t.initproc)
          (λ (r : Reply × Table × World). Niced me pid priority t (r.0, r.1))
          (nice S me pid (pos priority) t w)
  unfolding nice
  nice_lem {t} me pid priority w v lo hi h live =
      let in_range : (ltb_ℤ (pos priority) (pos 1) || ltb_ℤ (pos 5) (pos priority)) ≡ false =
        ground arith in
      rw in_range (elim (Option-cases (find_slot (has_pid pid) t.procs 0)) [
        | inl e ↦
            rw (e, nice)
              (ReturnsOr-mono _ _ _ _ (do (t1, w1) ← exit S me t w; ok (exited, t1, w1))
                (exits me w v h live) (λ z. z)
                (λ (r : Reply × Table × World) k. inr (
                  subst (Found (has_pid pid) t) e (find_slot_lem (has_pid pid) t v.size),
                  k.0,
                  k.1,
                  k.2,
                )))
        | inr (i, e) ↦
            let found = subst (Found (has_pid pid) t) e (find_slot_lem (has_pid pid) t v.size) in
            rw (e, nice)
              (ReturnsOr-mono _ _ _ _ (set_priority S i priority t w)
                (Returns-ReturnsOr (me ≡ t.initproc) _ (set_priority S i priority t w)
                  (set_priority_lem i priority w v found.0 lo hi))
                (λ z. z) (λ (r : Reply × Table × World) k. inl (i, found, k)))
      ])

  -- With a priority outside 1 to 5 the caller exits.
  pub nice_refused :
      {t : Table} (me : ℕ) (pid priority : ℤ) (w : World)
      → Inv t
      → (ltb_ℤ priority (pos 1) || ltb_ℤ (pos 5) priority) ≡ true
      → me < nproc
      → (proc_at t me).pid ≢ 0
      → ReturnsOr
          (me ≡ t.initproc)
          (λ (r : Reply × Table × World).
            Inv r.1 × (r.0 ≡ exited) × ((proc_at r.1 me).state ≡ zombie))
          (nice S me pid priority t w)
  unfolding nice
  nice_refused {t} me pid priority w v out h live = rw out (exits me w v h live)

  -- On a well formed table, `nice` with priority 5, which its range check lets pass, leaves the
  -- arrays of the queues whenever some slot has the pid.
  pub nice_five_faults :
      {t : Table} (me i : ℕ) (pid : ℤ) (w : World)
      → Inv t
      → i < nproc
      → has_pid pid (proc_at t i) ≡ true
      → nice S me pid (pos 5) t w ≡ fault
  unfolding nice set_priority
  nice_five_faults {t} me i pid w v h e = elim (Option-cases (find_slot (has_pid pid) t.procs 0)) [
    | inl none_such ↦ absurd (
        ground (
          arith,
          subst (Found (has_pid pid) t) none_such (find_slot_lem (has_pid pid) t v.size) i h,
        ))
    | inr (k, at) ↦
        let found = subst (Found (has_pid pid) t) at (find_slot_lem (has_pid pid) t v.size) in
        let q : Proc = record (proc_at t k) { priority = 5 } in
        rw (at, nice, load-slot t k v.size found.0, put-ok t k q v.size found.0)
          (bind-fault _ (remove_from_level k (proc_at t k).priority (written t k q)) _
            (remove_from_level-IsQueues k (proc_at t k).priority (written t k q) v.queues
              (length-set t.procs k q ∙ v.size) found.0 (omega (arith, v.capped k found.0)))
            (λ (r : ℤ × Table) h. rw (add_to_level-out k 5 r.1 h.markers (omega arith))))
  ]
