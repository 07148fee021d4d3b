-- ===== src/Proc/Queueing/Progress.antt =====
-- The priority scheduler makes progress: where a process is runnable, some round runs one.
use nice_system_calls.Common.{
  ℕ, zero, suc, ◌+◌, ◌≤◌, ◌<◌, ◌≡◌, refl, sym, ap, ap₂, subst, ◌∙◌, ◌≢◌, inl, inr, Option, none,
  some, arith, Bool-cases, length, get_or, ok, Returns, Returns-bind, Returns-mono, ℕ_discrete,
}
use nice_system_calls.Common.Distinct.{In, Below}
use nice_system_calls.Queue.{null, nproc, plevels}
use nice_system_calls.Proc.{Table, runnable, running, is_runnable, proc_at, blank}
use nice_system_calls.Proc.Queueing.{schedule, scheduler}
use nice_system_calls.Proc.Inv.{Inv}
use nice_system_calls.Proc.Queueing.Schedule.{level, Round, schedule_lem}

-- The processes that wait at the levels below `n`, counted as often as they wait.
abbrev waiting_below : ℕ → Table → ℕ
waiting_below zero t = 0
waiting_below (suc n) t = length (level t n) + waiting_below n t

abbrev pub waiting : Table → ℕ
waiting = waiting_below plevels

waiting_one_level :
    (n l : ℕ) (t t' : Table)
    → l < n
    → ((k : ℕ) → k ≢ l → level t' k ≡ level t k)
    → waiting_below n t' + length (level t l) ≡ waiting_below n t + length (level t' l)
waiting_one_level zero l t t' h others = elim h [ ]
waiting_one_level (suc n) l t t' h others = elim (ℕ_discrete l n) [
  | yes same ↦ rw same (omega (arith, waiting_rest n t t' (λ k a. others k (omega arith))))
  | no other ↦ omega (
    arith,
    waiting_one_level n l t t' (omega arith) others,
    ap length (others n (λ e. other (sym e))),
  )
]
  where
    waiting_rest :
        (m : ℕ) (s s' : Table)
        → ((k : ℕ) → k < m → level s' k ≡ level s k)
        → waiting_below m s' ≡ waiting_below m s
    waiting_rest zero s s' same = refl
    waiting_rest (suc m) s s' same =
        ap₂ ◌+◌ (ap length (same m (omega arith)))
          (waiting_rest m s s' (λ k a. same k (omega arith)))

-- A process that some round picked.
pub record Chosen (r : Option ℕ × ℕ × Table) : Type 0 where
  pub chosen : r.0 ≡ some r.1
  pub valid : Inv r.2
  pub slot : r.1 < nproc
  pub state : (proc_at r.2 r.1).state ≡ running

-- The process that a run of the scheduler picked was runnable when it started.
abbrev pub Picked : Table → Option ℕ × ℕ × Table → Type 0
Picked t r = Chosen r × ((proc_at t r.1).state ≡ runnable)

after-Round :
    {t : Table} {rounds p : ℕ}
    → Inv t
    → (i : ℕ) → i < nproc
    → (proc_at t i).state ≡ runnable
    → waiting t < suc rounds
    → ((q : ℕ) (t' : Table)
        → Inv t'
        → q ≤ null
        → (proc_at t' i).state ≡ runnable
        → waiting t' < rounds
        → Returns (Picked t') (scheduler rounds q t'))
    → (r : Option ℕ × ℕ × Table) → Round p t r
    → Returns
        (Picked t)
        (elim r.0 [ some c ↦ ok (some c, r.1, r.2) | none ↦ scheduler rounds r.1 r.2 ])
after-Round {t} {rounds = rounds} v i hi run h again (c, q, t')
      (inl (all, none_here, same_p, same_t)) =
    let (l, hl, m) = v.queued i hi (omega arith) run in absurd (subst (In i) (all l hl) m)
after-Round {t} {rounds = rounds} v i hi run h again (c, q, t') (inr (l, rest, d)) =
    let hq : q < nproc = (subst (Below nproc) d.heads.head (v.queues.slots l d.heads.in_range)).0 in
    elim (Bool-cases (is_runnable (proc_at t q).state)) [
      | inl runs ↦
          let e : c ≡ some q = d.runs (ground arith) in
          let slot = d.slots q in
          rw e (
            record { chosen = refl; valid = d.valid; slot = hq; state = ground arith },
            ground arith,
          )
      | inr stays ↦
          let (e, kept) = d.drops (ground arith) in
          let fewer = waiting_one_level plevels l t t' d.heads.in_range d.others in
          let later =
            again q t' d.valid (omega arith) (rw kept run)
              (omega (arith, ap length d.taken, ap length d.heads.head)) in
          rw e (
            Returns-mono (Picked t') (Picked t) (scheduler rounds q t') later
              (λ x k. (k.0, ap (λ ps. (get_or ps x.1 blank).state) (sym kept) ∙ k.1)))
    ]

-- On a well formed table in which the process of some slot is runnable, the scheduler with more
-- rounds than processes wait in all levels switches to a slot of the table that was runnable and is
-- now running; the table stays well formed.
pub scheduler_progress :
    {t : Table} (rounds p i : ℕ)
    → Inv t
    → p ≤ null
    → i < nproc
    → (proc_at t i).state ≡ runnable
    → waiting t < rounds
    → Returns (Picked t) (scheduler rounds p t)
unfolding scheduler
scheduler_progress {t} zero p i v hp hi run h = absurd (omega arith)
scheduler_progress {t} (suc rounds) p i v hp hi run h =
    Returns-bind _ _ (schedule p t) _ (schedule_lem p v hp) (
      after-Round v i hi run h
        (λ q t' v' hq run' h'. scheduler_progress rounds q i v' hq hi run' h'))
