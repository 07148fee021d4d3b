-- ===== src/Proc/Life/Exit.antt =====
-- `exit` keeps the invariant of the table and leaves a zombie.
use nice_system_calls.Common.{
  ℕ, zero, suc, ◌+◌, ◌≤◌, ◌<◌, ◌≡◌, refl, sym, ◌∙◌, ◌≢◌, inl, inr, true, false, arith, ◌==◌,
  if◌then◌else◌, Bool-cases, length, get_or, set, length-set, ok, load-ok, Returns, Returns-bind,
  Returns-mono, ReturnsOr, Returns-ReturnsOr, ℕ_discrete,
}
use nice_system_calls.Queue.{nproc}
use nice_system_calls.Proc.{
  Table, Proc, Services, unused, runnable, zombie, is_zombie, proc_at, nofile,
}
use nice_system_calls.Proc.Queueing.{wakeup1, wakeups}
use nice_system_calls.Proc.Life.{abandon_slot, abandon_from, close_files, exit}
use nice_system_calls.Proc.Inv.{
  Inv, Keeps, Keeps-trans, Frame-refl, Frame-trans, put-ok, load-slot, written, written-Keeps,
  proc_at-written,
}
use nice_system_calls.Proc.Queueing.Wake.{wakeup1-Keeps, wakeups-Keeps}

-- A write after a part of the routine that kept the invariant.
pub then_written :
    {t t1 : Table} (k : Keeps t t1) (i : ℕ) (h : i < nproc) (q : Proc)
    → q.pid ≡ (proc_at t1 i).pid
    → q.priority ≡ (proc_at t1 i).priority
    → length q.ofile ≡ nofile
    → (q.state ≢ unused → q.pid ≢ 0)
    → (q.state ≡ runnable → (proc_at t1 i).state ≡ runnable)
    → Keeps t (written t1 i q)
then_written k i h q a b c d e =
    let later = written-Keeps k.0 i h q a b c d e in (later.0, Frame-trans k.1 later.1)

abandon_slot-Keeps :
    {t : Table} (me i : ℕ) → Inv t → i < nproc → Returns (Keeps t) (abandon_slot me i t)
unfolding abandon_slot
abandon_slot-Keeps {t} me i v h =
    let q : Proc = record (proc_at t i) { parent = t.initproc } in
    let k : Keeps t (written t i q) =
      written-Keeps v i h q refl refl (v.files i h) (v.live i h) (λ e. e) in
    rw (load-slot t i v.size h) (elim (Bool-cases ((proc_at t i).parent == me)) [
      | inl child ↦ rw (child, put-ok t i q v.size h) (woken q k)
      | inr other ↦ rw other (v, Frame-refl t)
    ])
  where
    woken :
        (q : Proc)
        → Keeps t (written t i q)
        → Returns (Keeps t) (
            if is_zombie (proc_at t i).state
            then wakeup1 t.initproc (written t i q)
            else ok (written t i q))
    woken q k = elim (Bool-cases (is_zombie (proc_at t i).state)) [
      | inl e ↦
          rw e (Keeps-trans (wakeup1 t.initproc (written t i q)) k (wakeup1-Keeps t.initproc k.0))
      | inr e ↦ rw e k
    ]

abandon_from-Keeps :
    {t : Table} (me rounds i : ℕ)
    → Inv t
    → i + rounds ≤ nproc
    → Returns (Keeps t) (abandon_from me rounds i t)
unfolding abandon_from
abandon_from-Keeps {t} me zero i v h = (v, Frame-refl t)
abandon_from-Keeps {t} me (suc rounds) i v h =
    Returns-bind _ _ (abandon_slot me i t) (abandon_from me rounds (suc i))
      (abandon_slot-Keeps me i v (omega arith))
      (λ (t1 : Table) k.
        Keeps-trans (abandon_from me rounds (suc i) t1) k
          (abandon_from-Keeps me rounds (suc i) k.0 (omega arith)))

-- The last write of `exit`.
zombied :
    {t t5 : Table} (me : ℕ)
    → me < nproc
    → (proc_at t me).pid ≢ 0
    → Keeps t t5
    → Keeps t (written t5 me (record (proc_at t5 me) { state = zombie }))
      × ((proc_at (written t5 me (record (proc_at t5 me) { state = zombie })) me).state ≡ zombie)
zombied {t} {t5} me h live k = (
  then_written k me h (record (proc_at t5 me) { state = zombie }) refl refl (k.0.files me h)
      (λ e z. live (sym (k.1.pid_kept me h) ∙ z)) (λ e. absurd (ground arith)),
  ground (arith, proc_at-written t5 me me (record (proc_at t5 me) { state = zombie }) k.0.size h),
)

module _ (S : Services) where
  open S use {World, fileclose, iput}

  close_files-Keeps :
      {t : Table} (me rounds fd : ℕ) (w : World)
      → Inv t
      → me < nproc
      → fd + rounds ≤ nofile
      → Returns (λ r. Keeps t r.0) (close_files S me rounds fd t w)
  unfolding close_files
  close_files-Keeps {t} me zero fd w v h b = (v, Frame-refl t)
  close_files-Keeps {t} me (suc rounds) fd w v h b =
      let file = get_or (proc_at t me).ofile fd 0 in
      let w1 = (fileclose file w).1 in
      rw (load-slot t me v.size h, load-ok (proc_at t me).ofile fd 0 (omega (arith, v.files me h)))
        (elim (Bool-cases (file == 0)) [
          | inl shut ↦ rw shut (close_files-Keeps me rounds (suc fd) w v h (omega arith))
          | inr opened ↦ rw opened (
              Returns-bind _ _ (wakeups (fileclose file w).0 t) _
                (wakeups-Keeps (fileclose file w).0 v)
                (λ (t1 : Table) k.
                  let q : Proc = record (proc_at t1 me) {
                    ofile = set (proc_at t1 me).ofile fd 0;
                  } in
                  let k1 =
                    then_written k me h q refl refl
                      (length-set (proc_at t1 me).ofile fd 0 ∙ k.0.files me h) (k.0.live me h)
                      (λ e. e) in
                  rw (load-slot t1 me k.0.size h, put-ok t1 me q k.0.size h)
                    (Returns-mono _ _ (close_files S me rounds (suc fd) (written t1 me q) w1)
                      (close_files-Keeps me rounds (suc fd) w1 k1.0 h (omega arith))
                      (λ r e. (e.0, Frame-trans k1.1 e.1)))))
        ])

  -- `exit`, by a live process that is not init on a well formed table, comes to its end: the caller
  -- is a zombie, the table is well formed, and pids, `nextpid` and `initproc` are as before.
  pub exit-Keeps :
      {t : Table} (me : ℕ) (w : World)
      → Inv t
      → me < nproc
      → (proc_at t me).pid ≢ 0
      → me ≢ t.initproc
      → Returns (λ r. Keeps t r.0 × ((proc_at r.0 me).state ≡ zombie)) (exit S me t w)
  unfolding exit
  exit-Keeps {t} me w v h live ne =
      let not_init : (me == t.initproc) ≡ false = ground arith in
      rw not_init (
        Returns-bind _ _ (close_files S me nofile 0 t w) _
          (close_files-Keeps me nofile 0 w v h (omega arith))
          (λ (r : Table × World) k.
            let gone = iput (proc_at r.0 me).cwd r.1 in
            rw (load-slot r.0 me k.0.size h) (
              Returns-bind _ _ (wakeups gone.0 r.0) _
                (Keeps-trans (wakeups gone.0 r.0) k (wakeups-Keeps gone.0 k.0))
                (λ (t2 : Table) k2.
                  let q : Proc = record (proc_at t2 me) { cwd = 0 } in
                  let k3 =
                    then_written k2 me h q refl refl (k2.0.files me h) (k2.0.live me h) (λ e. e) in
                  rw (load-slot t2 me k2.0.size h, put-ok t2 me q k2.0.size h)
                    (Returns-bind _ _ (wakeup1 q.parent (written t2 me q)) _
                      (Keeps-trans (wakeup1 q.parent (written t2 me q)) k3
                        (wakeup1-Keeps q.parent k3.0))
                      (λ (t4 : Table) k4.
                        Returns-bind _ _ (abandon_from me nproc 0 t4) _
                          (Keeps-trans (abandon_from me nproc 0 t4) k4
                            (abandon_from-Keeps me nproc 0 k4.0 (omega arith)))
                          (λ (t5 : Table) k5.
                            rw
                              (
                                load-slot t5 me k5.0.size h,
                                put-ok t5 me (record (proc_at t5 me) { state = zombie }) k5.0.size
                                    h,
                              )
                              (zombied me h live k5))))))))

  -- `exit` by any live process: only init is stopped by the panic.
  pub exit_any :
      {t : Table} (X : Type 0) (me : ℕ) (w : World)
      → Inv t
      → me < nproc
      → (proc_at t me).pid ≢ 0
      → (me ≡ t.initproc → X)
      → ReturnsOr X (λ r. Keeps t r.0 × ((proc_at r.0 me).state ≡ zombie)) (exit S me t w)
  unfolding exit
  exit_any {t} X me w v h live stop = elim (ℕ_discrete me t.initproc) [
    | yes init ↦ let is : (me == t.initproc) ≡ true = ground arith in rw is (stop init)
    | no other ↦ Returns-ReturnsOr _ _ (exit S me t w) (exit-Keeps me w v h live other)
  ]
