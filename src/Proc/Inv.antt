-- ===== src/Proc/Inv.antt =====
-- The invariant of the process table of proc.c, and the two ways in which the routines change it:
-- a write to a slot, and a change of the queues.
use nice_system_calls.Common.{
  ℕ, zero, suc, ◌≤◌, ◌<◌, ◌≡◌, refl, sym, ap, subst, ◌∙◌, ◌≢◌, inl, inr, Bool, true, false, List,
  [], ◌∷◌, Option, none, some, arith, ◌==◌, if◌then◌else◌, Bool-cases, length, get_or, set,
  length-set, Outcome, ok, load, load-ok, store-ok, get_or-set, Returns, Returns-mono, ℕ_discrete,
}
use nice_system_calls.Common.Distinct.{In}
use nice_system_calls.Queue.{Queues, null, nproc, plevels}
use nice_system_calls.Queue.Scan.{pid_in}
use nice_system_calls.Queue.Refine.{IsQueues, contents}
use nice_system_calls.Proc.{Table, Proc, unused, runnable, pids, proc_at, blank, put, nofile}

-- The process in slot `i` waits at some level.
abbrev pub Waits : Queues → ℕ → Type 0
Waits qs i = (l : ℕ) × (l < plevels) × In i (contents qs l)

-- What holds of the table, where the process in slot `p` may be runnable and wait nowhere yet.
pub record InvBut (p : ℕ) (t : Table) : Type 0 where
  pub size : length t.procs ≡ nproc
  pub queues : IsQueues t.queues
  -- No two slots have one pid, except 0; and the next pid is new.
  pub unique :
      (i j : ℕ)
      → i < nproc
      → j < nproc
      → (proc_at t i).pid ≢ 0
      → (proc_at t i).pid ≡ (proc_at t j).pid
      → i ≡ j
  pub fresh : (i : ℕ) → i < nproc → (proc_at t i).pid < t.nextpid
  -- A process has a pid, and what has a pid has a priority.
  pub live : (i : ℕ) → i < nproc → (proc_at t i).state ≢ unused → (proc_at t i).pid ≢ 0
  pub ranked : (i : ℕ) → i < nproc → (proc_at t i).pid ≢ 0 → 1 ≤ (proc_at t i).priority
  pub capped : (i : ℕ) → i < nproc → (proc_at t i).priority ≤ 4
  pub files : (i : ℕ) → i < nproc → length (proc_at t i).ofile ≡ nofile
  -- Every runnable process waits in a queue.
  pub queued : (i : ℕ) → i < nproc → i ≢ p → (proc_at t i).state ≡ runnable → Waits t.queues i

abbrev pub Inv : Table → Type 0
Inv = InvBut null

pub length-pids : (ps : List Proc) → length (pids ps) ≡ length ps
length-pids [] = refl
length-pids (p ∷ ps) = ap suc (length-pids ps)

pub pid_in-pids : (ps : List Proc) (i : ℕ) → pid_in (pids ps) i ≡ (get_or ps i blank).pid
pid_in-pids [] i = refl
pid_in-pids (p ∷ ps) zero = refl
pid_in-pids (p ∷ ps) (suc i) = pid_in-pids ps i

-- The table with a slot written.
abbrev pub written : Table → ℕ → Proc → Table
written t i q = record t { procs = set t.procs i q }

pub put-ok :
    (t : Table) (i : ℕ) (q : Proc)
    → length t.procs ≡ nproc
    → i < nproc
    → put t i q ≡ ok (written t i q)
put-ok t i q e h = rw (store-ok t.procs i q (omega arith))

pub load-slot :
    (t : Table) (i : ℕ) → length t.procs ≡ nproc → i < nproc → load t.procs i ≡ ok (proc_at t i)
load-slot t i e h = load-ok t.procs i blank (omega arith)

pub proc_at-written :
    (t : Table) (i j : ℕ) (q : Proc)
    → length t.procs ≡ nproc
    → i < nproc
    → proc_at (written t i q) j ≡ (if i == j then q else proc_at t j)
proc_at-written t i j q e h = get_or-set t.procs i j q blank (omega arith)

-- A property of all slots after a write.
written-all :
    (P : ℕ → Proc → Type 0) (t : Table) (i : ℕ) (q : Proc)
    → length t.procs ≡ nproc
    → i < nproc
    → P i q
    → (j : ℕ) → (i ≢ j → P j (proc_at t j))
    → P j (proc_at (written t i q) j)
written-all P t i q e h new j old = elim (Bool-cases (i == j)) [
  | inl same ↦ rw (proc_at-written t i j q e h, same) (subst (λ k. P k q) (ground arith) new)
  | inr other ↦ rw (proc_at-written t i j q e h, other) (old (λ same. ground arith))
]

module _ {p : ℕ} {t : Table} (v : InvBut p t) (i : ℕ) (h : i < nproc) (q : Proc) where
  -- A write that keeps the pid and the sanity of the slot keeps the invariant, up to one slot that
  -- may now be runnable and wait nowhere.
  pub written-InvBut :
      (p' : ℕ)
      → q.pid ≡ (proc_at t i).pid
      → (q.state ≢ unused → q.pid ≢ 0)
      → (q.pid ≢ 0 → 1 ≤ q.priority)
      → q.priority ≤ 4
      → length q.ofile ≡ nofile
      → (i ≢ p' → q.state ≡ runnable → Waits t.queues i)
      → ((j : ℕ) → j < nproc → j ≢ i → j ≢ p' → (proc_at t j).state ≡ runnable → Waits t.queues j)
      → InvBut p' (written t i q)
  written-InvBut p' same live ranked capped files mine others = record {
    size = length-set t.procs i q ∙ v.size;
    queues = v.queues;
    unique = λ j k hj hk. ground (arith, at j, at k, v.unique j k hj hk);
    fresh = λ j hj. ground (arith, at j, v.fresh j hj, v.fresh i h);
    live = λ j hj.
        written-all (λ k r. r.state ≢ unused → r.pid ≢ 0) t i q v.size h live j (λ ne. v.live j hj);
    ranked = λ j hj.
        written-all (λ k r. r.pid ≢ 0 → 1 ≤ r.priority) t i q v.size h ranked j
          (λ ne. v.ranked j hj);
    capped =
        λ j hj. written-all (λ k r. r.priority ≤ 4) t i q v.size h capped j (λ ne. v.capped j hj);
    files = λ j hj.
        written-all (λ k r. length r.ofile ≡ nofile) t i q v.size h files j (λ ne. v.files j hj);
    queued = λ j hj.
        written-all (λ k r. k ≢ p' → r.state ≡ runnable → Waits t.queues k) t i q v.size h mine j
          (λ ne. others j hj (λ e. ne (sym e)));
  }
    where
      at : (j : ℕ) → proc_at (written t i q) j ≡ (if i == j then q else proc_at t j)
      at j = proc_at-written t i j q v.size h

module _ {p : ℕ} {t : Table} (v : InvBut p t) where
  pub weaken :
      (p' : ℕ)
      → ((i : ℕ) → i < nproc → i ≢ p' → i ≡ p → (proc_at t i).state ≢ runnable)
      → InvBut p' t
  weaken p' idle = record {
    size = v.size;
    queues = v.queues;
    unique = v.unique;
    fresh = v.fresh;
    live = v.live;
    ranked = v.ranked;
    capped = v.capped;
    files = v.files;
    queued = λ i hi ne e. elim (ℕ_discrete i p) [
      | yes same ↦ absurd (idle i hi ne same e)
      | no other ↦ v.queued i hi other e
    ];
  }

  -- Queues in which every other runnable process still waits.
  pub requeued :
      (p' : ℕ) (qs : Queues)
      → IsQueues qs
      → ((i : ℕ) → i < nproc → i ≢ p' → (proc_at t i).state ≡ runnable → Waits qs i)
      → InvBut p' (record t { queues = qs })
  requeued p' qs valid waits = record {
    size = v.size;
    queues = valid;
    unique = v.unique;
    fresh = v.fresh;
    live = v.live;
    ranked = v.ranked;
    capped = v.capped;
    files = v.files;
    queued = waits;
  }

pub exempt : {t : Table} → Inv t → (p : ℕ) → InvBut p t
exempt v p = weaken v p (λ i h ne e. absurd (omega arith))

pub reinit : {t : Table} → Inv t → (p : ℕ) → Inv (record t { initproc = p })
reinit v p = record {
  size = v.size;
  queues = v.queues;
  unique = v.unique;
  fresh = v.fresh;
  live = v.live;
  ranked = v.ranked;
  capped = v.capped;
  files = v.files;
  queued = v.queued;
}

-- No slot is exempt.
pub InvBut-null : {p : ℕ} {t : Table} → InvBut p t → (proc_at t p).state ≢ runnable → Inv t
InvBut-null {p} {t} v idle =
    weaken v null (λ i h ne e r. idle (subst (λ k. (proc_at t k).state ≡ runnable) e r))

-- What the routines leave alone unless they create, free or rank a process.
pub record Frame (t t' : Table) : Type 0 where
  pub pid_kept : (i : ℕ) → i < nproc → (proc_at t' i).pid ≡ (proc_at t i).pid
  pub priority_kept : (i : ℕ) → i < nproc → (proc_at t' i).priority ≡ (proc_at t i).priority
  pub nextpid_kept : t'.nextpid ≡ t.nextpid
  pub initproc_kept : t'.initproc ≡ t.initproc

pub Frame-refl : (t : Table) → Frame t t
Frame-refl t = record {
  pid_kept = λ i h. refl;
  priority_kept = λ i h. refl;
  nextpid_kept = refl;
  initproc_kept = refl;
}

pub Frame-trans : {t t' t'' : Table} → Frame t t' → Frame t' t'' → Frame t t''
Frame-trans a b = record {
  pid_kept = λ i h. b.pid_kept i h ∙ a.pid_kept i h;
  priority_kept = λ i h. b.priority_kept i h ∙ a.priority_kept i h;
  nextpid_kept = b.nextpid_kept ∙ a.nextpid_kept;
  initproc_kept = b.initproc_kept ∙ a.initproc_kept;
}

-- The outcome of a routine that keeps the invariant and the frame.
abbrev pub Keeps : Table → Table → Type 0
Keeps t t' = Inv t' × Frame t t'

pub Keeps-trans :
    {t t' : Table} (m : Outcome Table) → Keeps t t' → Returns (Keeps t') m → Returns (Keeps t) m
Keeps-trans {t} {t'} m k h =
    Returns-mono (Keeps t') (Keeps t) m h (λ t'' e. (e.0, Frame-trans k.1 e.1))

-- A write of a slot that keeps its pid, its priority and its right to be where it is.
pub written-Keeps :
    {t : Table} (v : Inv t) (i : ℕ) (h : i < nproc) (q : Proc)
    → q.pid ≡ (proc_at t i).pid
    → q.priority ≡ (proc_at t i).priority
    → length q.ofile ≡ nofile
    → (q.state ≢ unused → q.pid ≢ 0)
    → (q.state ≡ runnable → (proc_at t i).state ≡ runnable)
    → Keeps t (written t i q)
written-Keeps {t} v i h q same rank files live run = (
  written-InvBut v i h q null same live (λ ne. ground (arith, v.ranked i h))
      (omega (arith, v.capped i h)) files (λ ne e. v.queued i h ne (run e))
      (λ j hj ne nn e. v.queued j hj nn e),
  record {
    pid_kept = λ j hj. ground (arith, proc_at-written t i j q v.size h);
    priority_kept = λ j hj. ground (arith, proc_at-written t i j q v.size h);
    nextpid_kept = refl;
    initproc_kept = refl;
  },
)

-- A write that gives the slot another pid: a new one, or 0.
pub renamed-Inv :
    {t : Table} (v : Inv t) (i : ℕ) (h : i < nproc) (q : Proc) (n : ℕ)
    → t.nextpid ≤ n
    → q.pid < n
    → ((j : ℕ) → j < nproc → (proc_at t j).pid ≡ q.pid → q.pid ≡ 0)
    → (q.state ≢ unused → q.pid ≢ 0)
    → (q.pid ≢ 0 → 1 ≤ q.priority)
    → q.priority ≤ 4
    → length q.ofile ≡ nofile
    → q.state ≢ runnable
    → Inv (record (written t i q) { nextpid = n })
renamed-Inv {t} v i h q n grows below new live ranked capped files idle = record {
  size = length-set t.procs i q ∙ v.size;
  queues = v.queues;
  unique = λ j k hj hk. ground (arith, at j, at k, v.unique j k hj hk, new j hj, new k hk);
  fresh = λ j hj. ground (arith, at j, v.fresh j hj);
  live = λ j hj.
      written-all (λ k r. r.state ≢ unused → r.pid ≢ 0) t i q v.size h live j (λ ne. v.live j hj);
  ranked = λ j hj.
      written-all (λ k r. r.pid ≢ 0 → 1 ≤ r.priority) t i q v.size h ranked j (λ ne. v.ranked j hj);
  capped =
      λ j hj. written-all (λ k r. r.priority ≤ 4) t i q v.size h capped j (λ ne. v.capped j hj);
  files = λ j hj.
      written-all (λ k r. length r.ofile ≡ nofile) t i q v.size h files j (λ ne. v.files j hj);
  queued = λ j hj ne.
      written-all (λ k r. r.state ≡ runnable → Waits t.queues k) t i q v.size h
        (λ e. absurd (idle e)) j (λ nn. v.queued j hj ne);
}
  where
    at : (j : ℕ) → proc_at (written t i q) j ≡ (if i == j then q else proc_at t j)
    at j = proc_at-written t i j q v.size h

-- The search through the table.
abbrev pub Found : (Proc → Bool) → Table → Option ℕ → Type 0
Found test t none = (j : ℕ) → j < nproc → test (proc_at t j) ≡ false
Found test t (some i) =
    (i < nproc) × (test (proc_at t i) ≡ true) × ((j : ℕ) → j < i → test (proc_at t j) ≡ false)
