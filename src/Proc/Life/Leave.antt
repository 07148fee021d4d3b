-- ===== src/Proc/Life/Leave.antt =====
-- `exit`: what it drops, whom it wakes and who takes over the children.
use nice_system_calls.Common.{
  ℕ, zero, suc, ◌+◌, ◌≤◌, ◌<◌, ◌≡◌, refl, sym, subst, ap, ◌∙◌, ◌≢◌, inl, inr, false, arith, ◌==◌,
  if◌then◌else◌, Bool-cases, get_or, set, length-set, get_or-set, load-ok, Returns, Returns-bind,
  Returns-mono, ℕ_discrete,
}
use nice_system_calls.Queue.{nproc}
use nice_system_calls.Proc.{Table, Proc, Services, zombie, proc_at, nofile}
use nice_system_calls.Proc.Queueing.{wakeup1, wakeups}
use nice_system_calls.Proc.Life.{abandon_from, close_files, exit}
use nice_system_calls.Proc.Life.Calm.{
  Quiet, Quiet-trans, NoSleeper, Quiet-NoSleeper, Kin, Calm, Calm-refl, wakeup1-Calm, wakeups-Calm,
  written-Quiet, written-Kin,
}
use nice_system_calls.Proc.Life.Exit.{then_written}
use nice_system_calls.Proc.Life.Orphans.{Handed, abandon_from-Handed}
use nice_system_calls.Proc.Inv.{
  Inv, Keeps, Frame-trans, put-ok, load-slot, written, proc_at-written,
}

-- The files of the process in slot `me` below `n` are closed.
abbrev pub Closed : ℕ → ℕ → Table → Type 0
Closed me n t = (fd : ℕ) → fd < n → get_or (proc_at t me).ofile fd 0 ≡ 0

record Dropped (me n : ℕ) (t t' : Table) : Type 0 where
  keeps : Keeps t t'
  quiet : Quiet t t'
  kin : Kin t t'
  closed : Closed me n t'

-- What `exit` of the process in slot `me` has done.
pub record IsGone (t : Table) (me : ℕ) (t' : Table) : Type 0 where
  pub keeps : Keeps t t'
  pub dead : (proc_at t' me).state ≡ zombie
  pub closed : Closed me nofile t'
  pub no_cwd : (proc_at t' me).cwd ≡ 0
  pub parents :
      (j : ℕ)
      → j < nproc
      → (proc_at t' j).parent
        ≡ (if (proc_at t j).parent == me then t.initproc else (proc_at t j).parent)
  pub parent_awake : NoSleeper (proc_at t me).parent t'
  pub init_awake :
      (k : ℕ)
      → k < nproc
      → (proc_at t k).parent ≡ me
      → (proc_at t k).state ≡ zombie
      → NoSleeper t.initproc t'

-- The last write of `exit`.
gone :
    {t t3 t4 t5 : Table} (me : ℕ)
    → me < nproc
    → (proc_at t me).pid ≢ 0
    → Dropped me nofile t t3
    → (proc_at t3 me).cwd ≡ 0
    → Calm me t3 t4
    → NoSleeper (proc_at t me).parent t4
    → Handed me 0 nproc t4 t5
    → IsGone t me (written t5 me (record (proc_at t5 me) { state = zombie }))
gone {t} {t3} {t4} {t5} me h live d cwd c awake b =
    let q : Proc = record (proc_at t5 me) { state = zombie } in
    let size = b.keeps.0.size in
    let k5 : Keeps t t5 = (b.keeps.0, Frame-trans (Frame-trans d.keeps.1 c.keeps.1) b.keeps.1) in
    let at : proc_at (written t5 me q) me ≡ q = proc_at-written t5 me me q size h ∙ ground arith in
    let quiet : Quiet t5 (written t5 me q) = record {
      sleepers = λ j hj e. ground (arith, proc_at-written t5 me j q size h);
      zombies = λ j hj e. ground (arith, proc_at-written t5 me j q size h);
    } in
    let init : t4.initproc ≡ t.initproc = c.keeps.1.initproc_kept ∙ d.keeps.1.initproc_kept in
    let kin : (j : ℕ) → j < nproc → (proc_at t4 j).parent ≡ (proc_at t j).parent =
      λ j hj. c.kin j hj ∙ d.kin j hj in
    record {
      keeps =
          then_written k5 me h q refl refl (k5.0.files me h)
            (λ e z. live (sym (k5.1.pid_kept me h) ∙ z)) (λ e. absurd (ground arith));
      dead = ap (λ (p : Proc). p.state) at;
      closed = λ fd hf.
          ap (λ (p : Proc). get_or p.ofile fd 0) at
          ∙ ap (λ fs. get_or fs fd 0) (b.holds.0 ∙ c.holds.0)
          ∙ d.closed fd hf;
      no_cwd = ap (λ (p : Proc). p.cwd) at ∙ b.holds.1 ∙ c.holds.1 ∙ cwd;
      parents = λ j hj.
          written-Kin me q b.keeps.0 h refl j hj ∙ b.parents j hj ∙ ground (arith, kin j hj);
      parent_awake =
          Quiet-NoSleeper (proc_at t me).parent quiet
            (Quiet-NoSleeper (proc_at t me).parent b.quiet awake);
      init_awake = λ k hk mine was. Quiet-NoSleeper t.initproc quiet (
          subst (λ n. NoSleeper n t5) init
            (b.init_awake k (omega arith) hk (kin k hk ∙ mine)
              (c.quiet.zombies k hk (d.quiet.zombies k hk was))));
    }

module _ (S : Services) where
  open S use {World, fileclose, iput}

  close_files-Dropped :
      {t : Table} (me rounds fd : ℕ) (w : World)
      → Inv t
      → me < nproc
      → fd + rounds ≤ nofile
      → Closed me fd t
      → Returns (λ r. Dropped me (fd + rounds) t r.0) (close_files S me rounds fd t w)
  unfolding close_files
  close_files-Dropped {t} me zero fd w v h b shut =
      let c = Calm-refl {t = t} me v in
      record {
        keeps = c.keeps;
        quiet = c.quiet;
        kin = c.kin;
        closed = λ k hk. shut k (omega arith);
      }
  close_files-Dropped {t} me (suc rounds) fd w v h b shut =
      let file = get_or (proc_at t me).ofile fd 0 in
      let w1 = (fileclose file w).1 in
      let last : (n : ℕ) → n < suc fd → n ≢ fd → n < fd = λ n hn ne. omega arith in
      let sum : suc fd + rounds ≡ fd + suc rounds = omega arith in
      rw (load-slot t me v.size h, load-ok (proc_at t me).ofile fd 0 (omega (arith, v.files me h)))
        (elim (Bool-cases (file == 0)) [
          | inl none_open ↦ rw none_open (
              Returns-mono _ _ (close_files S me rounds (suc fd) t w)
                (close_files-Dropped me rounds (suc fd) w v h (omega arith) (λ n hn.
                  elim (ℕ_discrete n fd) [
                    | yes same ↦ rw same (ground arith)
                    | no other ↦ shut n (last n hn other)
                  ]))
                (λ r d. subst (λ n. Dropped me n t r.0) sum d))
          | inr opened ↦ rw opened (
              Returns-bind _ _ (wakeups (fileclose file w).0 t) _
                (wakeups-Calm me (fileclose file w).0 v h)
                (λ (t1 : Table) c.
                  let q : Proc = record (proc_at t1 me) {
                    ofile = set (proc_at t1 me).ofile fd 0;
                  } in
                  let size = c.keeps.0.size in
                  let k1 =
                    then_written c.keeps me h q refl refl
                      (length-set (proc_at t1 me).ofile fd 0 ∙ c.keeps.0.files me h)
                      (c.keeps.0.live me h) (λ e. e) in
                  let at : proc_at (written t1 me q) me ≡ q =
                    proc_at-written t1 me me q size h ∙ ground arith in
                  let read : (n : ℕ)
                      → get_or q.ofile n 0
                        ≡ (if fd == n then 0 else get_or (proc_at t1 me).ofile n 0) =
                    λ n.
                      get_or-set (proc_at t1 me).ofile fd n 0 0
                        (omega (arith, c.keeps.0.files me h)) in
                  rw (load-slot t1 me size h, put-ok t1 me q size h)
                    (Returns-mono _ _ (close_files S me rounds (suc fd) (written t1 me q) w1)
                      (close_files-Dropped me rounds (suc fd) w1 k1.0 h (omega arith) (λ n hn.
                        ap (λ (p : Proc). get_or p.ofile n 0) at ∙ read n ∙ elim (ℕ_discrete n fd) [
                          | yes same ↦ ground arith
                          | no other ↦
                              let far : (fd == n) ≡ false = ground arith in
                              rw far (ap (λ fs. get_or fs n 0) c.holds.0 ∙ shut n (last n hn other))
                        ]))
                      (λ r d. record {
                        keeps = (d.keeps.0, Frame-trans k1.1 d.keeps.1);
                        quiet =
                            Quiet-trans c.quiet
                              (Quiet-trans (written-Quiet me q c.keeps.0 h refl refl) d.quiet);
                        kin = λ j hj.
                            d.kin j hj ∙ written-Kin me q c.keeps.0 h refl j hj ∙ c.kin j hj;
                        closed = subst (λ n. Closed me n r.0) sum d.closed;
                      }))))
        ])

  -- `exit`, by a live process that is not init on a well formed table, comes to its end. The caller
  -- is a zombie with all its files closed and no directory; each of its children has init as its
  -- parent, and no other slot has another parent than before; nobody sleeps on the address of the
  -- caller's parent, nor on that of init if one of the children was a zombie; the table is well
  -- formed, and pids, priorities, `nextpid` and `initproc` are as before.
  pub exit_lem :
      {t : Table} (me : ℕ) (w : World)
      → Inv t
      → me < nproc
      → (proc_at t me).pid ≢ 0
      → me ≢ t.initproc
      → Returns (λ r. IsGone t me r.0) (exit S me t w)
  unfolding exit
  exit_lem {t} me w v h live ne =
      let not_init : (me == t.initproc) ≡ false = ground arith in
      rw not_init (
        Returns-bind _ _ (close_files S me nofile 0 t w) _
          (close_files-Dropped me nofile 0 w v h (omega arith) (λ n hn. absurd (omega arith)))
          (λ (r : Table × World) d.
            let gone_inode = iput (proc_at r.0 me).cwd r.1 in
            rw (load-slot r.0 me d.keeps.0.size h) (
              Returns-bind _ _ (wakeups gone_inode.0 r.0) _
                (wakeups-Calm me gone_inode.0 d.keeps.0 h)
                (λ (t2 : Table) c.
                  let q : Proc = record (proc_at t2 me) { cwd = 0 } in
                  let k2 : Keeps t t2 = (c.keeps.0, Frame-trans d.keeps.1 c.keeps.1) in
                  let k3 =
                    then_written k2 me h q refl refl (k2.0.files me h) (k2.0.live me h) (λ e. e) in
                  let at : proc_at (written t2 me q) me ≡ q =
                    proc_at-written t2 me me q k2.0.size h ∙ ground arith in
                  let d3 : Dropped me nofile t (written t2 me q) = record {
                    keeps = k3;
                    quiet =
                        Quiet-trans d.quiet
                          (Quiet-trans c.quiet (written-Quiet me q k2.0 h refl refl));
                    kin = λ j hj. written-Kin me q k2.0 h refl j hj ∙ c.kin j hj ∙ d.kin j hj;
                    closed = λ n hn.
                        ap (λ (p : Proc). get_or p.ofile n 0) at
                        ∙ ap (λ fs. get_or fs n 0) c.holds.0
                        ∙ d.closed n hn;
                  } in
                  let mother : (proc_at t2 me).parent ≡ (proc_at t me).parent =
                    c.kin me h ∙ d.kin me h in
                  rw (load-slot t2 me k2.0.size h, put-ok t2 me q k2.0.size h)
                    (Returns-bind _ _ (wakeup1 q.parent (written t2 me q)) _
                      (wakeup1-Calm me q.parent k3.0 h)
                      (λ (t4 : Table) c4.
                        Returns-bind _ _ (abandon_from me nproc 0 t4) _
                          (abandon_from-Handed me nproc 0 c4.0.keeps.0 h (omega arith))
                          (λ (t5 : Table) b.
                            rw
                              (
                                load-slot t5 me b.keeps.0.size h,
                                put-ok t5 me (record (proc_at t5 me) { state = zombie })
                                    b.keeps.0.size h,
                              )
                              (gone me h live d3 (ap (λ (p : Proc). p.cwd) at) c4.0
                                (subst (λ n. NoSleeper n t4) mother c4.1) b))))))))
