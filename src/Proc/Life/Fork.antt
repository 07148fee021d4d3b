-- ===== src/Proc/Life/Fork.antt =====
-- `fork` keeps the invariant, and its child is a runnable copy of the parent under a new pid.
use nice_system_calls.Common.{
  ℕ, suc, ◌<◌, ◌≡◌, refl, sym, ap, ◌∙◌, ◌≢◌, ◌⊎◌, inl, inr, true, false, List, [], ◌∷◌, arith, ◌==◌,
  if◌then◌else◌, Bool-cases, length, ok, ◌>>=◌, ReturnsOr, ReturnsOr-bind, ReturnsOr-mono,
  Returns-bind-ReturnsOr,
}
use nice_system_calls.Common.Int.{ℤ, pos, negsuc}
use nice_system_calls.Queue.{null, nproc}
use nice_system_calls.Proc.{
  Table, Proc, Services, Reply, value, exited, unused, runnable, zombie, proc_at,
}
use nice_system_calls.Proc.Queueing.{make_runnable}
use nice_system_calls.Proc.Life.{
  allocproc, fork_undo, fork_child, fork_into, fork, exit, inherit, dup_files,
}
use nice_system_calls.Proc.Inv.{Inv, put-ok, load-slot, written, written-Keeps, proc_at-written}
use nice_system_calls.Proc.Queueing.Wake.{made_runnable}
use nice_system_calls.Proc.Queueing.Reply.{already_waits, already_waits-written, make_runnable_lem}
use nice_system_calls.Proc.Life.Exit.{exit_any}
use nice_system_calls.Proc.Life.Alloc.{Full, Gives, NewProc, allocproc_lem}

pub length-inherit : (fs gs : List ℕ) → length (inherit fs gs) ≡ length gs
unfolding inherit
length-inherit [] gs = refl
length-inherit (f ∷ fs) [] = refl
length-inherit (f ∷ fs) (g ∷ gs) = ap suc (length-inherit fs gs)

-- The child that `fork` makes of `parent` in slot `np`.
pub record IsChild (t : Table) (me np dir : ℕ) (t' : Table) : Type 0 where
  pub runs : (proc_at t' np).state ≡ runnable
  pub pid_kept : (proc_at t' np).pid ≡ (proc_at t np).pid
  pub parent : (proc_at t' np).parent ≡ me
  pub size : (proc_at t' np).sz ≡ (proc_at t me).sz
  pub space : (proc_at t' np).pgdir ≡ dir
  pub returns_zero : (proc_at t' np).tf ≡ record ((proc_at t me).tf) { eax = 0 }
  pub files : (proc_at t' np).ofile ≡ inherit (proc_at t me).ofile (proc_at t np).ofile
  pub cwd : (proc_at t' np).cwd ≡ (proc_at t me).cwd
  pub name : (proc_at t' np).name ≡ (proc_at t me).name
  pub others : (j : ℕ) → j < nproc → j ≢ np → proc_at t' j ≡ proc_at t j

made_runnable_pid : (p j : ℕ) (q : Proc) → (made_runnable p j q).pid ≡ q.pid
made_runnable_pid p j q = ground arith

-- `fork_child` from a table `t`: the parent has a child and its pid, or it has exited because the
-- pid of the child waited in its level already.
abbrev pub ForkEnds : Table → ℕ → ℕ → ℕ → Reply × Table → Type 0
ForkEnds t me np dir r =
    ((already_waits t np ≡ false)
      × (r.0 ≡ value (pos (proc_at t np).pid))
      × IsChild t me np dir r.1)
    ⊎ ((already_waits t np ≡ true) × (r.0 ≡ exited) × ((proc_at r.1 me).state ≡ zombie))

module _ (S : Services) where
  open S use {World, kalloc, kfree, copyuvm, idup}

  -- The two ends of `fork`.
  child_done :
      {t t2 : Table} (X : Type 0) (me np dir : ℕ) (w : World) (res : ℤ)
      → Inv t2
      → me < nproc
      → (proc_at t2 me).pid ≢ 0
      → (res ≡ (if already_waits t np then negsuc 0 else pos 1))
      → IsChild t me np dir t2
      → (me ≡ t2.initproc → X)
      → ReturnsOr X
          (λ (r : Reply × Table × World). Inv r.1 × ForkEnds t me np dir (r.0, r.1))
          (elim res [
            | negsuc n ↦ (do (t3, w3) ← exit S me t2 w; ok (exited, t3, w3))
            | pos n ↦ ok (value (pos (proc_at t np).pid), t2, w)
          ])
  child_done X me np dir w (pos n) v h live e child stop = (v, inl (ground arith, refl, child))
  child_done {t2 = t2} X me np dir w (negsuc n) v h live e child stop =
      ReturnsOr-bind _ _ _ (exit S me t2 w) _ (exit_any S X me w v h live stop)
        (λ (r : Table × World) k. (k.0.0, inr (ground arith, refl, k.1)))

  fork_child_lem :
      {t : Table} (X : Type 0) (me np dir : ℕ) (w : World)
      → Inv t
      → me < nproc
      → np < nproc
      → (proc_at t me).pid ≢ 0
      → (proc_at t np).pid ≢ 0
      → (me ≡ t.initproc → X)
      → ReturnsOr X
          (λ (r : Reply × Table × World). Inv r.1 × ForkEnds t me np dir (r.0, r.1))
          (fork_child S me np dir t w)
  unfolding fork_child
  fork_child_lem {t} X me np dir w v hme hnp lme lnp stop =
      let m : Proc = proc_at t me in
      let n : Proc = proc_at t np in
      let q : Proc = record n {
        pgdir = dir;
        sz = m.sz;
        parent = me;
        tf = record (m.tf) { eax = 0 };
        ofile = inherit m.ofile n.ofile;
        cwd = m.cwd;
        name = m.name;
      } in
      let at : (j : ℕ) → proc_at (written t np q) j ≡ (if np == j then q else proc_at t j) =
        λ j. proc_at-written t np j q v.size hnp in
      let k =
        written-Keeps v np hnp q refl refl (length-inherit m.ofile n.ofile ∙ v.files np hnp)
          (λ e. lnp) (λ e. e) in
      rw (load-slot t me v.size hme, load-slot t np v.size hnp, put-ok t np q v.size hnp)
        (Returns-bind-ReturnsOr _ _ _ (make_runnable np (written t np q)) _
          (make_runnable_lem np k.0 hnp (λ z. lnp (sym (k.1.pid_kept np hnp) ∙ z)))
          (λ (r : ℤ × Table) e.
            let slot : proc_at r.1 np ≡ record q { state = runnable } =
              e.1.slots np hnp ∙ ap (made_runnable np np) (at np) ∙ ground arith in
            let same : (proc_at r.1 me).pid ≡ (proc_at t me).pid =
              ap (λ (x : Proc). x.pid) (e.1.slots me hme)
              ∙ made_runnable_pid np me (proc_at (written t np q) me)
              ∙ k.1.pid_kept me hme in
            child_done {t = t} {t2 = r.1} X me np dir (idup m.cwd (dup_files S m.ofile w)) r.0 e.0
              hme (λ z. lme (sym same ∙ z))
              (e.2
                ∙ ap (λ b. if b then negsuc 0 else pos 1)
                    (already_waits-written t np q v.size hnp refl refl))
              (record {
                runs = ap (λ (x : Proc). x.state) slot;
                pid_kept = ap (λ (x : Proc). x.pid) slot;
                parent = ap (λ (x : Proc). x.parent) slot;
                size = ap (λ (x : Proc). x.sz) slot;
                space = ap (λ (x : Proc). x.pgdir) slot;
                returns_zero = ap (λ (x : Proc). x.tf) slot;
                files = ap (λ (x : Proc). x.ofile) slot;
                cwd = ap (λ (x : Proc). x.cwd) slot;
                name = ap (λ (x : Proc). x.name) slot;
                others = λ j hj ne. e.1.slots j hj ∙ ground (arith, at j);
              })
              (λ z. stop (z ∙ e.1.initproc_same))))

  -- The copy of the address space of `me`, made behind the `kalloc` for the kernel stack.
  abbrev pub space_copy : Table → ℕ → World → ℕ × World
  space_copy t me w = copyuvm (proc_at t me).pgdir (proc_at t me).sz (kalloc w).1

  -- How `fork` ends: with -1 and no child; with the pid of a child; or by the exit of the parent.
  abbrev pub Forked : Table → ℕ → World → Reply × Table → Type 0
  Forked t me w r =
      Inv r.1
      × (((r.0 ≡ value (negsuc 0))
            × ((j : ℕ) → (proc_at t j).state ≢ unused → proc_at r.1 j ≡ proc_at t j)
            × (Full t ⊎ ((kalloc w).0 ≡ 0) ⊎ ((space_copy t me w).0 ≡ 0)))
          ⊎ ((np : ℕ) × (t1 : Table) × NewProc t np t1
              × ((kalloc w).0 ≢ 0)
              × ((space_copy t me w).0 ≢ 0)
              × ForkEnds t1 me np ((space_copy t me w).0) r))

  fork_into_lem :
      {t t1 : Table} (X : Type 0) (me np : ℕ) (w : World)
      → Inv t1
      → NewProc t np t1
      → (kalloc w).0 ≢ 0
      → me < nproc
      → (proc_at t1 me).pid ≢ 0
      → proc_at t1 me ≡ proc_at t me
      → (me ≡ t1.initproc → X)
      → ReturnsOr X
          (λ (r : Reply × Table × World). Forked t me w (r.0, r.1))
          (fork_into S me np t1 (kalloc w).1)
  unfolding fork_into fork_undo
  fork_into_lem {t} {t1} X me np w v new page h live same stop =
      let pid_np : (proc_at t1 np).pid ≢ 0 =
        v.live np new.in_table (λ z. ground (arith, new.is_embryo)) in
      let dir = space_copy t me w in
      let q : Proc = record (proc_at t1 np) { kstack = 0; state = unused } in
      let at : (j : ℕ) → proc_at (written t1 np q) j ≡ (if np == j then q else proc_at t1 j) =
        λ j. proc_at-written t1 np j q v.size new.in_table in
      rw (load-slot t1 me v.size h, same)
        (elim (Bool-cases (dir.0 == 0)) [
          | inl none_left ↦
              rw
                (none_left, load-slot t1 np v.size new.in_table, put-ok t1 np q v.size new.in_table)
                (
                  (written-Keeps v np new.in_table q refl refl (v.files np new.in_table)
                      (λ e. absurd (e refl)) (λ e. absurd (ground arith))).0,
                  inl (
                    refl,
                    λ j used.
                        let other : j ≢ np =
                          λ e. used (ap (λ i. (proc_at t i).state) e ∙ new.was_unused) in
                        ground (arith, at j, new.others j other),
                    inr (inr (ground arith)),
                  ),
                )
          | inr copied ↦ rw copied (
              ReturnsOr-mono X X _ _ (fork_child S me np dir.0 t1 dir.1)
                (fork_child_lem X me np dir.0 dir.1 v h new.in_table live pid_np stop) (λ z. z)
                (λ r k. (k.0, inr (np, t1, new, page, λ z. ground arith, k.1))))
        ])

  pub fork_lem :
      {t : Table} (me : ℕ) (w : World)
      → Inv t
      → me < nproc
      → (proc_at t me).state ≢ unused
      → ReturnsOr
          (me ≡ t.initproc)
          (λ (r : Reply × Table × World). Forked t me w (r.0, r.1))
          (fork S me t w)
  unfolding fork
  fork_lem {t} me w v h used =
      Returns-bind-ReturnsOr _ _ _ (allocproc S t w) _ (allocproc_lem S w v) after
    where
      after :
          (r : ℕ × Table × World)
          → Gives S t w r
          → ReturnsOr
              (me ≡ t.initproc)
              (λ (x : Reply × Table × World). Forked t me w (x.0, x.1))
              (if r.0 == null then ok (value (negsuc 0), r.1, r.2) else fork_into S me r.0 r.1 r.2)
      after (np, t1, w1) ((v1, inl (e, same_init, same, inl full)), z) =
          rw e (v1, inl (refl, same, inl full))
      after (np, t1, w1) ((v1, inl (e, same_init, same, inr no_page)), z) =
          rw e (v1, inl (refl, same, inr (inl no_page)))
      after (np, t1, w1) ((v1, inr (new, page)), z) =
          let there : (np == null) ≡ false = ground (arith, new.in_table) in
          let other : me ≢ np = λ e. used (ap (λ i. (proc_at t i).state) e ∙ new.was_unused) in
          let same : proc_at t1 me ≡ proc_at t me = new.others me other in
          rw (there, z (omega (arith, new.in_table)))
            (fork_into_lem {t = t} {t1 = t1} (me ≡ t.initproc) me np w v1 new page h
              (λ z. v.live me h used (ap (λ (x : Proc). x.pid) (sym same) ∙ z)) same
              (λ z. z ∙ new.same_init))
