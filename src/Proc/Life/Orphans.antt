-- ===== src/Proc/Life/Orphans.antt =====
-- The loop of `exit` over its children: who gets init as the new parent, and that init wakes.
use nice_system_calls.Common.{
  ℕ, zero, suc, ◌+◌, ◌≤◌, ◌<◌, ◌≡◌, refl, subst, ap, ◌∙◌, inl, inr, true, arith, ltb, leb, ◌==◌,
  if◌then◌else◌, ◌&&◌, Bool-cases, Returns, Returns-bind, Returns-mono, ℕ_discrete,
}
use nice_system_calls.Queue.{nproc}
use nice_system_calls.Proc.{Table, Proc, zombie, is_zombie, proc_at}
use nice_system_calls.Proc.Queueing.{wakeup1}
use nice_system_calls.Proc.Life.{abandon_slot, abandon_from}
use nice_system_calls.Proc.Life.Calm.{
  Quiet, Quiet-trans, NoSleeper, Quiet-NoSleeper, Holds, Calm-refl, wakeup1-Calm, written-Quiet,
}
use nice_system_calls.Proc.Inv.{
  Inv, Keeps, Frame-trans, put-ok, load-slot, written, written-Keeps, proc_at-written,
}

-- The children of `me` in the `rounds` slots from `i` on are handed to init, which does not sleep
-- if one of them was a zombie.
pub record Handed (me i rounds : ℕ) (t t' : Table) : Type 0 where
  pub keeps : Keeps t t'
  pub quiet : Quiet t t'
  pub holds : Holds me t t'
  pub parents :
      (j : ℕ)
      → j < nproc
      → (proc_at t' j).parent ≡ (
          if leb i j && ltb j (i + rounds) && (proc_at t j).parent == me
          then t.initproc
          else (proc_at t j).parent)
  pub init_awake :
      (k : ℕ)
      → i ≤ k
      → k < i + rounds
      → (proc_at t k).parent ≡ me
      → (proc_at t k).state ≡ zombie
      → NoSleeper t.initproc t'

abandon_slot-Handed :
    {t : Table} (me i : ℕ)
    → Inv t
    → me < nproc
    → i < nproc
    → Returns (Handed me i 1 t) (abandon_slot me i t)
unfolding abandon_slot
abandon_slot-Handed {t} me i v hme h =
    rw (load-slot t i v.size h) (elim (Bool-cases ((proc_at t i).parent == me)) [
      | inr other ↦
          let c = Calm-refl {t = t} me v in
          rw other (record {
            keeps = c.keeps;
            quiet = c.quiet;
            holds = c.holds;
            parents = λ j hj. elim (ℕ_discrete i j) [
              | yes same ↦
                  subst
                    (λ k. (proc_at t k).parent ≡ (
                      if leb i k && ltb k (i + 1) && (proc_at t k).parent == me
                      then t.initproc
                      else (proc_at t k).parent))
                    same (rw other (ground arith))
              | no far ↦ ground arith
            ];
            init_awake = λ k lo hi mine dead.
                let same : k ≡ i = omega arith in
                absurd (ground (arith, ap (λ n. (proc_at t n).parent) same));
          })
      | inl child ↦
          rw (child, put-ok t i q v.size h)
            (elim (Bool-cases (is_zombie (proc_at t i).state)) [
              | inl dead ↦ rw dead (
                  Returns-mono _ _ (wakeup1 t.initproc t1) (wakeup1-Calm me t.initproc k.0 hme)
                    (λ t' c. record {
                      keeps = (c.0.keeps.0, Frame-trans k.1 c.0.keeps.1);
                      quiet = Quiet-trans quiet c.0.quiet;
                      holds = (c.0.holds.0 ∙ same_files, c.0.holds.1 ∙ same_cwd);
                      parents = λ j hj. c.0.kin j hj ∙ new_parents child j hj;
                      init_awake = λ k lo hi mine dead. c.1;
                    }))
              | inr alive ↦ rw alive (record {
                keeps = k;
                quiet = quiet;
                holds = (same_files, same_cwd);
                parents = new_parents child;
                init_awake = λ k lo hi mine dead.
                    let same : k ≡ i = omega arith in
                    absurd (ground (arith, ap (λ n. (proc_at t n).state) same));
              })
            ])
    ])
  where
    q : Proc
    q = record (proc_at t i) { parent = t.initproc }

    t1 : Table
    t1 = written t i q

    k : Keeps t t1
    k = written-Keeps v i h q refl refl (v.files i h) (v.live i h) (λ e. e)

    quiet : Quiet t t1
    quiet = written-Quiet i q v h refl refl

    same_files : (proc_at t1 me).ofile ≡ (proc_at t me).ofile
    same_files = elim (ℕ_discrete i me) [
      | yes same ↦
          subst (λ n. (proc_at t1 n).ofile ≡ (proc_at t n).ofile) same
            (ap (λ (p : Proc). p.ofile) (proc_at-written t i i q v.size h) ∙ ground arith)
      | no other ↦ ap (λ (p : Proc). p.ofile) (proc_at-written t i me q v.size h) ∙ ground arith
    ]

    same_cwd : (proc_at t1 me).cwd ≡ (proc_at t me).cwd
    same_cwd = elim (ℕ_discrete i me) [
      | yes same ↦
          subst (λ n. (proc_at t1 n).cwd ≡ (proc_at t n).cwd) same
            (ap (λ (p : Proc). p.cwd) (proc_at-written t i i q v.size h) ∙ ground arith)
      | no other ↦ ap (λ (p : Proc). p.cwd) (proc_at-written t i me q v.size h) ∙ ground arith
    ]

    new_parents :
        ((proc_at t i).parent == me) ≡ true
        → (j : ℕ) → j < nproc
        → (proc_at t1 j).parent ≡ (
            if leb i j && ltb j (i + 1) && (proc_at t j).parent == me
            then t.initproc
            else (proc_at t j).parent)
    new_parents child j hj = elim (ℕ_discrete i j) [
      | yes same ↦
          subst
            (λ k. (proc_at t1 k).parent ≡ (
              if leb i k && ltb k (i + 1) && (proc_at t k).parent == me
              then t.initproc
              else (proc_at t k).parent))
            same (ap (λ (p : Proc). p.parent) (proc_at-written t i i q v.size h) ∙ ground arith)
      | no other ↦ ap (λ (p : Proc). p.parent) (proc_at-written t i j q v.size h) ∙ ground arith
    ]

pub abandon_from-Handed :
    {t : Table} (me rounds i : ℕ)
    → Inv t
    → me < nproc
    → i + rounds ≤ nproc
    → Returns (Handed me i rounds t) (abandon_from me rounds i t)
unfolding abandon_from
abandon_from-Handed {t} me zero i v hme h =
    let c = Calm-refl {t = t} me v in
    record {
      keeps = c.keeps;
      quiet = c.quiet;
      holds = c.holds;
      parents = λ j hj. ground arith;
      init_awake = λ k lo hi mine dead. absurd (omega arith);
    }
abandon_from-Handed {t} me (suc rounds) i v hme h =
    Returns-bind _ _ (abandon_slot me i t) (abandon_from me rounds (suc i))
      (abandon_slot-Handed me i v hme (omega arith))
      (λ (t1 : Table) a.
        Returns-mono _ _ (abandon_from me rounds (suc i) t1)
          (abandon_from-Handed me rounds (suc i) a.keeps.0 hme (omega arith))
          (λ t2 b. record {
            keeps = (b.keeps.0, Frame-trans a.keeps.1 b.keeps.1);
            quiet = Quiet-trans a.quiet b.quiet;
            holds = (b.holds.0 ∙ a.holds.0, b.holds.1 ∙ a.holds.1);
            parents = λ j hj.
                let init : t1.initproc ≡ t.initproc = a.keeps.1.initproc_kept in
                ground (arith, a.parents j hj, b.parents j hj);
            init_awake = λ k lo hi mine dead. elim (ℕ_discrete k i) [
              | yes same ↦
                  Quiet-NoSleeper t.initproc b.quiet (a.init_awake k lo (omega arith) mine dead)
              | no later ↦
                  let hk : k < nproc = omega arith in
                  let still : (proc_at t1 k).parent ≡ me = a.parents k hk ∙ ground arith in
                  subst (λ n. NoSleeper n t2) a.keeps.1.initproc_kept
                    (b.init_awake k (omega arith) (omega arith) still (a.quiet.zombies k hk dead))
            ];
          }))
