-- ===== src/Proc/Life.antt =====
-- proc.c: how a process comes to be and ends: allocproc, userinit, growproc, fork, exit, wait.
-- The locks of the routines are not part of this state: a routine runs without interruption.
pub mod Exit
pub mod Calm
pub mod Orphans
pub mod Leave
pub mod Alloc
pub mod Fork
pub mod Wait
pub mod Boot
pub mod Tests
pub mod Grow
use nice_system_calls.Common.{
  ℕ, zero, suc, ◌+◌, ◌-◌, ◌*◌, ◌%◌, ◌^◌, Bool, true, false, List, [], ◌∷◌, Option, none, some,
  arith, ltb, leb, ◌==◌, if◌then◌else◌, ◌&&◌, ◌||◌, not, length, get_or, set, replicate, Outcome,
  ok, panic, fault, ◌>>=◌, load, store,
}
use Prim.Native.String.{String}
use nice_system_calls.Common.Int.{ℤ, pos, negsuc}
use nice_system_calls.Queue.{nproc, null}
use nice_system_calls.Proc.{
  Table, Proc, ProcState, Trapframe, Context, Reply, Services, value, exited, parked, unused,
  embryo, runnable, zombie, is_unused, is_zombie, put, proc_at, find_slot, nofile, no_context,
  no_trapframe,
}
use nice_system_calls.Proc.Queueing.{
  make_runnable, wakeup1, wakeups, sleep, level_of, remove_from_level,
}

-- PGSIZE, and the selectors and flags of mmu.h that `userinit` loads.
abbrev pub pgsize : ℕ
pgsize = 4096

abbrev pub user_code : ℕ
user_code = 4 * 8 + 3

abbrev pub user_data : ℕ
user_data = 5 * 8 + 3

abbrev pub fl_if : ℕ
fl_if = 0x200

-- `&forkret`, the address at which a new process starts in the kernel.
abbrev pub forkret : ℕ
forkret = 0x80100000

-- `found:` up to the release of the lock.
pub claim : ℕ → Table → Outcome Table
claim i t = do
  slot ← load t.procs i
  t' ← put t i (record slot { state = embryo; pid = t.nextpid; priority = 3 })
  ok (record t' { nextpid = t.nextpid + 1 })

-- `for(p = ptable.proc; ...) if(p->parent == proc) {...}` of `exit` at slot `i`.
pub abandon_slot : ℕ → ℕ → Table → Outcome Table
abandon_slot me i t = do
  slot ← load t.procs i
  if slot.parent == me
      then (do
        t' ← put t i (record slot { parent = t.initproc })
        if is_zombie slot.state then wakeup1 t.initproc t' else ok t')
      else ok t

pub abandon_from : ℕ → ℕ → ℕ → Table → Outcome Table
abandon_from me zero i t = ok t
abandon_from me (suc rounds) i t = abandon_slot me i t >>= abandon_from me rounds (suc i)

-- The scan of `wait` from slot `i` on: have we children, and which zombie child comes first?
pub wait_scan : ℕ → List Proc → ℕ → Bool → Bool × Option ℕ
wait_scan me [] i havekids = (havekids, none)
wait_scan me (p ∷ ps) i havekids =
    let mine = wait_scan me ps (suc i) true in
    let rest = wait_scan me ps (suc i) havekids in
    if not (p.parent == me) then rest else if is_zombie p.state then (true, some i) else mine

-- `for(i = 0; i < NOFILE; i++) if(proc->ofile[i]) np->ofile[i] = ...`, where `filedup` gives back
-- its argument.
pub inherit : List ℕ → List ℕ → List ℕ
inherit [] gs = gs
inherit (f ∷ fs) [] = []
inherit (f ∷ fs) (g ∷ gs) = (if f == 0 then g else f) ∷ inherit fs gs

module _ (S : Services) where
  open S use {
    World, kalloc, kfree, setupkvm, inituvm, copyuvm, freevm, allocuvm, deallocuvm, filedup, idup,
    fileclose, iput, namei_root,
  }

  -- `allocproc` from the label `found` on, with the slot `i`.
  pub alloc_slot : ℕ → Table → World → Outcome (ℕ × Table × World)
  alloc_slot i t w = do
    t1 ← claim i t
    slot ← load t1.procs i
    let stack = kalloc w
    if stack.0 == 0
        then (do t2 ← put t1 i (record slot { kstack = 0; state = unused }); ok (null, t2, stack.1))
        else (do
          t2 ←
              put t1 i
                (record slot { kstack = stack.0; context = record no_context { eip = forkret } })
          ok (i, t2, stack.1))

  -- The slot of the new process, `null` where there is none.
  pub allocproc : Table → World → Outcome (ℕ × Table × World)
  allocproc t w = elim (find_slot (λ p. is_unused p.state) t.procs 0) [
    | none ↦ ok (null, t, w)
    | some i ↦ alloc_slot i t w
  ]

  -- `userinit` behind `initproc = p;`. Where the queue refuses the process it calls `exit`, which
  -- reads through `proc`, a null pointer here.
  pub userinit_slot : List ℕ → ℕ → Table → World → Outcome (Table × World)
  userinit_slot initcode p t w = do
    slot ← load t.procs p
    let dir = setupkvm w
    if dir.0 == 0 then panic "userinit: out of memory?" else (do
      let root = namei_root (inituvm dir.0 dir.1)
      t1 ← put t p (record slot {
        pgdir = dir.0;
        sz = pgsize;
        tf = record no_trapframe {
          cs = user_code;
          ds = user_data;
          es = user_data;
          ss = user_data;
          eflags = fl_if;
          esp = pgsize;
          eip = 0;
        };
        name = initcode;
        cwd = root.0;
      })
      (res, t2) ← make_runnable p t1
      elim res [ negsuc n ↦ fault | pos n ↦ ok (t2, root.1) ])

  pub userinit : List ℕ → Table → World → Outcome (Table × World)
  userinit initcode t w = do
    (p, t1, w1) ← allocproc t w
    userinit_slot initcode p (record t1 { initproc = p }) w1

  -- `sz + n` for the new size is computed on 32-bit words.
  pub growproc : ℕ → ℤ → Table → World → Outcome (ℤ × Table × World)
  growproc me (pos zero) t w = ok (pos 0, t, w)
  growproc me (pos (suc n)) t w = do
    slot ← load t.procs me
    let grown = allocuvm slot.pgdir slot.sz ((slot.sz + suc n) % 2 ^ 32) w
    if grown.0 == 0
        then ok (negsuc 0, t, grown.1)
        else (do t' ← put t me (record slot { sz = grown.0 }); ok (pos 0, t', grown.1))
  growproc me (negsuc n) t w = do
    slot ← load t.procs me
    let shrunk = deallocuvm slot.pgdir slot.sz ((slot.sz + 2 ^ 32 - suc n) % 2 ^ 32) w
    if shrunk.0 == 0
        then ok (negsuc 0, t, shrunk.1)
        else (do t' ← put t me (record slot { sz = shrunk.0 }); ok (pos 0, t', shrunk.1))

  -- `for(fd = 0; fd < NOFILE; fd++) if(proc->ofile[fd]) {...}` of `exit`.
  pub close_files : ℕ → ℕ → ℕ → Table → World → Outcome (Table × World)
  close_files me zero fd t w = ok (t, w)
  close_files me (suc rounds) fd t w = do
    slot ← load t.procs me
    file ← load slot.ofile fd
    let closed = fileclose file w
    let next = close_files me rounds (suc fd)
    if file == 0 then next t w else (do
      t1 ← wakeups closed.0 t
      slot1 ← load t1.procs me
      t2 ← put t1 me (record slot1 { ofile = set slot1.ofile fd 0 })
      next t2 closed.1)

  -- `exit`, up to the switch to the scheduler from which it does not return.
  pub exit : ℕ → Table → World → Outcome (Table × World)
  exit me t w = if me == t.initproc then panic "init exiting" else do
    (t1, w1) ← close_files me nofile 0 t w
    slot1 ← load t1.procs me
    let dropped = iput slot1.cwd w1
    t2 ← wakeups dropped.0 t1
    slot2 ← load t2.procs me
    t3 ← put t2 me (record slot2 { cwd = 0 })
    t4 ← wakeup1 slot2.parent t3
    t5 ← abandon_from me nproc 0 t4
    slot5 ← load t5.procs me
    t6 ← put t5 me (record slot5 { state = zombie })
    ok (t6, dropped.1)

  -- `np->ofile[i] = filedup(proc->ofile[i])` for the open files.
  pub dup_files : List ℕ → World → World
  dup_files [] w = w
  dup_files (f ∷ fs) w = dup_files fs (if f == 0 then w else filedup f w)

  -- The part of `fork` after the address space is copied.
  pub fork_child : ℕ → ℕ → ℕ → Table → World → Outcome (Reply × Table × World)
  fork_child me np dir t w = do
    me_slot ← load t.procs me
    np_slot ← load t.procs np
    t1 ← put t np (record np_slot {
      pgdir = dir;
      sz = me_slot.sz;
      parent = me;
      tf = record (me_slot.tf) { eax = 0 };
      ofile = inherit me_slot.ofile np_slot.ofile;
      cwd = me_slot.cwd;
      name = me_slot.name;
    })
    (res, t2) ← make_runnable np t1
    let w1 = idup me_slot.cwd (dup_files me_slot.ofile w)
    let failed = exit me t2 w1
    elim res [
      | negsuc n ↦ (do (t3, w3) ← failed; ok (exited, t3, w3))
      | pos n ↦ ok (value (pos np_slot.pid), t2, w1)
    ]

  -- `fork` gives the slot back where the address space cannot be copied.
  pub fork_undo : ℕ → Table → World → Outcome (Reply × Table × World)
  fork_undo np t w = do
    slot ← load t.procs np
    t1 ← put t np (record slot { kstack = 0; state = unused })
    ok (value (negsuc 0), t1, kfree slot.kstack w)

  -- `fork` with the slot that `allocproc` gave.
  pub fork_into : ℕ → ℕ → Table → World → Outcome (Reply × Table × World)
  fork_into me np t w = do
    slot ← load t.procs me
    let copy = copyuvm slot.pgdir slot.sz w
    if copy.0 == 0 then fork_undo np t copy.1 else fork_child me np copy.0 t copy.1

  pub fork : ℕ → Table → World → Outcome (Reply × Table × World)
  fork me t w = do
    (np, t1, w1) ← allocproc t w
    if np == null then ok (value (negsuc 0), t1, w1) else fork_into me np t1 w1

  -- `// Found one.`: the zombie child in slot `i` is freed.
  pub reap : ℕ → Table → World → Outcome (ℕ × Table × World)
  reap i t w = do
    slot ← load t.procs i
    let w1 = freevm slot.pgdir (kfree slot.kstack w)
    t1 ←
        put t i (record slot {
          kstack = 0;
          pid = 0;
          parent = null;
          name = [];
          killed = 0;
          state = unused;
        })
    (res, t2) ← remove_from_level i (level_of slot.priority) t1
    ok (slot.pid, t2, w1)

  -- A round of the loop of `wait` behind the scan. `lock` is `&ptable.lock`.
  pub wait_end : ℕ → ℕ → Bool × Option ℕ → Table → World → Outcome (Reply × Table × World)
  wait_end lock me (havekids, some i) t w = do
    (pid, t1, w1) ← reap i t w
    ok (value (pos pid), t1, w1)
  wait_end lock me (havekids, none) t w = do
    slot ← load t.procs me
    if not havekids || not (slot.killed == 0)
        then ok (value (negsuc 0), t, w)
        else (do t1 ← sleep me me lock t; ok (parked, t1, w))

  pub wait_round : ℕ → ℕ → Table → World → Outcome (Reply × Table × World)
  wait_round lock me t w = wait_end lock me (wait_scan me t.procs 0 false) t w
