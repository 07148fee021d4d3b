-- ===== src/Proc/Life/Calm.antt =====
-- What the routines under `exit` leave alone: who sleeps, who is a zombie, and whose child one is.
use nice_system_calls.Common.{
  ℕ, ◌<◌, ◌≡◌, refl, sym, ap, ◌∙◌, ◌≢◌, List, arith, Returns, Returns-mono,
}
use nice_system_calls.Queue.{nproc}
use nice_system_calls.Proc.{Table, Proc, sleeping, zombie, proc_at}
use nice_system_calls.Proc.Queueing.{wakeup1, wakeups}
use nice_system_calls.Proc.Inv.{Inv, Keeps, Frame-refl, Frame-trans, written, proc_at-written}
use nice_system_calls.Proc.Queueing.Wake.{Maps, Maps-Frame, woken, wakeup1_lem, wakeups_all}

-- Nobody goes to sleep, and a zombie stays one.
pub record Quiet (t t' : Table) : Type 0 where
  pub sleepers :
      (j : ℕ)
      → j < nproc
      → (proc_at t' j).state ≡ sleeping
      → ((proc_at t j).state ≡ sleeping) × ((proc_at t' j).chan ≡ (proc_at t j).chan)
  pub zombies : (j : ℕ) → j < nproc → (proc_at t j).state ≡ zombie → (proc_at t' j).state ≡ zombie

pub Quiet-trans : {t t' t'' : Table} → Quiet t t' → Quiet t' t'' → Quiet t t''
Quiet-trans a b = record {
  sleepers =
      λ j h e. let (s, c) = b.sleepers j h e in let (s', c') = a.sleepers j h s in (s', c ∙ c');
  zombies = λ j h e. b.zombies j h (a.zombies j h e);
}

-- No process sleeps on `chan`.
abbrev pub NoSleeper : ℕ → Table → Type 0
NoSleeper chan t = (j : ℕ) → j < nproc → (proc_at t j).state ≡ sleeping → (proc_at t j).chan ≢ chan

pub Quiet-NoSleeper : {t t' : Table} (chan : ℕ) → Quiet t t' → NoSleeper chan t → NoSleeper chan t'
Quiet-NoSleeper chan q h j hj s e = let (s', same) = q.sleepers j hj s in h j hj s' (sym same ∙ e)

abbrev pub Kin : Table → Table → Type 0
Kin t t' = (j : ℕ) → j < nproc → (proc_at t' j).parent ≡ (proc_at t j).parent

-- The open files and the directory of the process in slot `me` are the same.
abbrev pub Holds : ℕ → Table → Table → Type 0
Holds me t t' =
    ((proc_at t' me).ofile ≡ (proc_at t me).ofile) × ((proc_at t' me).cwd ≡ (proc_at t me).cwd)

-- What a wakeup leaves.
pub record Calm (me : ℕ) (t t' : Table) : Type 0 where
  pub keeps : Keeps t t'
  pub quiet : Quiet t t'
  pub kin : Kin t t'
  pub holds : Holds me t t'

pub Calm-refl : {t : Table} (me : ℕ) → Inv t → Calm me t t
Calm-refl {t} me v = record {
  keeps = (v, Frame-refl t);
  quiet = record { sleepers = λ j h e. (e, refl); zombies = λ j h e. e };
  kin = λ j h. refl;
  holds = (refl, refl);
}

pub Calm-trans : {t t' t'' : Table} (me : ℕ) → Calm me t t' → Calm me t' t'' → Calm me t t''
Calm-trans me a b = record {
  keeps = (b.keeps.0, Frame-trans a.keeps.1 b.keeps.1);
  quiet = Quiet-trans a.quiet b.quiet;
  kin = λ j h. b.kin j h ∙ a.kin j h;
  holds = (b.holds.0 ∙ a.holds.0, b.holds.1 ∙ a.holds.1);
}

woken-Calm :
    {t t' : Table} (me chan : ℕ)
    → me < nproc
    → Inv t'
    → Maps (λ j. woken chan) t t'
    → Calm me t t' × NoSleeper chan t'
woken-Calm {t} {t'} me chan h v m = (
  record {
    keeps = (v, Maps-Frame (λ j. woken chan) (λ j q. ground arith) (λ j q. ground arith) m);
    quiet = record {
      sleepers = λ j hj e. ground (arith, m.slots j hj);
      zombies = λ j hj e. ground (arith, m.slots j hj);
    };
    kin = λ j hj. ap (λ (q : Proc). q.parent) (m.slots j hj) ∙ ground arith;
    holds = (
      ap (λ (q : Proc). q.ofile) (m.slots me h) ∙ ground arith,
      ap (λ (q : Proc). q.cwd) (m.slots me h) ∙ ground arith,
    );
  },
  λ j hj s e. ground (arith, m.slots j hj),
)

pub wakeup1-Calm :
    {t : Table} (me chan : ℕ)
    → Inv t
    → me < nproc
    → Returns (λ t'. Calm me t t' × NoSleeper chan t') (wakeup1 chan t)
wakeup1-Calm {t} me chan v h =
    Returns-mono _ _ (wakeup1 chan t) (wakeup1_lem chan v) (λ t' k. woken-Calm me chan h k.0 k.1)

pub wakeups-Calm :
    {t : Table} (me : ℕ) (chans : List ℕ)
    → Inv t
    → me < nproc
    → Returns (Calm me t) (wakeups chans t)
wakeups-Calm {t} me chans v h =
    wakeups_all (Calm me) chans v (λ t v. Calm-refl me v) (λ t t' t'' a b. Calm-trans me a b)
      (λ t chan v.
        Returns-mono _ _ (wakeup1 chan t) (wakeup1-Calm me chan v h) (λ t' k. (k.0.keeps.0, k.0)))

-- A write that leaves state and channel alone.
pub written-Quiet :
    {t : Table} (i : ℕ) (q : Proc)
    → Inv t
    → i < nproc
    → q.state ≡ (proc_at t i).state
    → q.chan ≡ (proc_at t i).chan
    → Quiet t (written t i q)
written-Quiet {t} i q v h a b = record {
  sleepers = λ j hj e. ground (arith, proc_at-written t i j q v.size h);
  zombies = λ j hj e. ground (arith, proc_at-written t i j q v.size h);
}

pub written-Kin :
    {t : Table} (i : ℕ) (q : Proc)
    → Inv t
    → i < nproc
    → q.parent ≡ (proc_at t i).parent
    → Kin t (written t i q)
written-Kin {t} i q v h a j hj = ground (arith, proc_at-written t i j q v.size h)
