-- ===== src/Proc/Queueing/Turns.antt =====
-- yield and sleep keep the invariant.
use nice_system_calls.Common.{ℕ, ◌<◌, ◌≡◌, refl, ◌≢◌, false, arith, ◌==◌, ok, Returns, Returns-bind}
use nice_system_calls.Common.Int.{ℤ}
use nice_system_calls.Queue.{null, nproc}
use nice_system_calls.Proc.{Table, Proc, sleeping, proc_at}
use nice_system_calls.Proc.Queueing.{make_runnable, yield, sleep, sleep_tidy}
use nice_system_calls.Proc.Inv.{Inv, Keeps, put-ok, load-slot, written, written-Keeps}
use nice_system_calls.Proc.Queueing.Wake.{make_runnable_pid}

-- A process that gives up the processor waits for it again.
pub yield-Keeps :
    {t : Table} (me : ℕ)
    → Inv t
    → me < nproc
    → (proc_at t me).pid ≢ 0
    → Returns (Keeps t) (yield me t)
unfolding yield
yield-Keeps {t} me v h live =
    Returns-bind _ _ (make_runnable me t) _ (make_runnable_pid me v h live) (λ (r : ℤ × Table) k. k)

pub sleep-ok :
    {t : Table} (me chan lk : ℕ)
    → Inv t
    → me < nproc
    → lk ≢ null
    → sleep me chan lk t
      ≡ ok (written t me (record (proc_at t me) { chan = chan; state = sleeping }))
unfolding sleep
sleep-ok {t} me chan lk v h lock =
    let a : (me == null) ≡ false = ground arith in
    let b : (lk == null) ≡ false = ground arith in
    rw (
      a,
      b,
      load-slot t me v.size h,
      put-ok t me (record (proc_at t me) { chan = chan; state = sleeping }) v.size h,
    )

-- A process that goes to sleep keeps the invariant.
pub sleep-Keeps :
    {t : Table} (me chan lk : ℕ)
    → Inv t
    → me < nproc
    → lk ≢ null
    → (proc_at t me).pid ≢ 0
    → Returns (Keeps t) (sleep me chan lk t)
sleep-Keeps {t} me chan lk v h lock live = rw (sleep-ok me chan lk v h lock) (
    written-Keeps v me h (record (proc_at t me) { chan = chan; state = sleeping }) refl refl
      (v.files me h) (λ e. live) (λ e. absurd (ground arith)))

pub sleep_tidy-Keeps :
    {t : Table} (me : ℕ) → Inv t → me < nproc → Returns (Keeps t) (sleep_tidy me t)
unfolding sleep_tidy
sleep_tidy-Keeps {t} me v h =
    let q : Proc = record (proc_at t me) { chan = null } in
    rw (load-slot t me v.size h, put-ok t me q v.size h)
      (written-Keeps v me h q refl refl (v.files me h) (v.live me h) (λ e. e))
