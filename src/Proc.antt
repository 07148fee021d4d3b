-- ===== src/Proc.antt =====
-- xv6-public/proc.h and the process table of xv6-public/proc.c: processes, the table with its
-- queues, and what the routines of proc.c use of the other parts of the kernel.
pub mod Queueing
pub mod Life
pub mod Calls
pub mod Inv
pub mod Find
pub mod Run
pub mod Sample
mod Tests
use nice_system_calls.Common.{
  ℕ, zero, suc, ◌+◌, ◌-◌, Bool, true, false, List, [], ◌∷◌, map, Option, none, some, arith, ltb,
  ◌==◌, if◌then◌else◌, ◌&&◌, get_or, length, replicate, Outcome, ok, panic, fault, ◌>>=◌, load,
  store,
}
use nice_system_calls.Common.Int.{ℤ, pos, negsuc}
use nice_system_calls.Queue.{Queues, nproc, plevels, null, no_queues}

-- `enum procstate`.
pub data ProcState : Type 0 where
  unused embryo sleeping runnable running zombie : ProcState

abbrev pub is_unused : ProcState → Bool
is_unused unused = true
is_unused _ = false

abbrev pub is_sleeping : ProcState → Bool
is_sleeping sleeping = true
is_sleeping _ = false

abbrev pub is_runnable : ProcState → Bool
is_runnable runnable = true
is_runnable _ = false

abbrev pub is_zombie : ProcState → Bool
is_zombie zombie = true
is_zombie _ = false

-- `struct trapframe` of x86.h: the registers that the C code names, and the remaining ones.
pub record Trapframe : Type 0 where
  pub eax : ℕ
  pub esp : ℕ
  pub eip : ℕ
  pub eflags : ℕ
  pub cs : ℕ
  pub ds : ℕ
  pub es : ℕ
  pub ss : ℕ
  pub rest : List ℕ

-- `struct context`.
pub record Context : Type 0 where
  pub edi : ℕ
  pub esi : ℕ
  pub ebx : ℕ
  pub ebp : ℕ
  pub eip : ℕ

-- `struct proc`. An address is a number. The address of a slot of `ptable` is its index, `null`
-- stands for the null pointer, and every other address lies above. `kstack` and `pgdir` and the
-- entries of `ofile` are 0 where they are unset. The trap frame and the context, which the code
-- keeps on the kernel stack, stand in the record. `name` is the text before the closing NUL.
pub record Proc : Type 0 where
  pub sz : ℕ
  pub pgdir : ℕ
  pub kstack : ℕ
  pub state : ProcState
  pub pid : ℕ
  pub parent : ℕ
  pub tf : Trapframe
  pub context : Context
  pub chan : ℕ
  pub killed : ℕ
  pub ofile : List ℕ
  pub cwd : ℕ
  pub name : List ℕ
  pub priority : ℕ

abbrev pub nofile : ℕ
nofile = 16

abbrev pub no_trapframe : Trapframe
no_trapframe = record {
  eax = 0;
  esp = 0;
  eip = 0;
  eflags = 0;
  cs = 0;
  ds = 0;
  es = 0;
  ss = 0;
  rest = [];
}

abbrev pub no_context : Context
no_context = record { edi = 0; esi = 0; ebx = 0; ebp = 0; eip = 0 }

-- A slot as the kernel image holds it at the start: all fields zero.
abbrev pub blank : Proc
blank = record {
  sz = 0;
  pgdir = 0;
  kstack = 0;
  state = unused;
  pid = 0;
  parent = null;
  tf = no_trapframe;
  context = no_context;
  chan = null;
  killed = 0;
  ofile = replicate nofile 0;
  cwd = 0;
  name = [];
  priority = 0;
}

-- `ptable.proc`, the priority queues, `nextpid` and `initproc`.
pub record Table : Type 0 where
  pub procs : List Proc
  pub queues : Queues
  pub nextpid : ℕ
  pub initproc : ℕ

abbrev pub boot_table : Table
boot_table = record {
  procs = replicate nproc blank;
  queues = no_queues;
  nextpid = 1;
  initproc = null;
}

-- `p->pid` of every slot.
abbrev pub pids : List Proc → List ℕ
pids [] = []
pids (p ∷ ps) = p.pid ∷ pids ps

abbrev pub proc_at : Table → ℕ → Proc
proc_at t i = get_or t.procs i blank

-- A write to the slot that `p` points to.
abbrev pub put : Table → ℕ → Proc → Outcome Table
put t i p = do procs ← store t.procs i p; ok (record t { procs = procs })

-- `for(p = ptable.proc; p < &ptable.proc[NPROC]; p++) if(...) break;` from slot `i` on.
pub find_slot : (Proc → Bool) → List Proc → ℕ → Option ℕ
find_slot test [] i = none
find_slot test (p ∷ ps) i = let rest = find_slot test ps (suc i) in if test p then some i else rest

-- How a call ends for the process that makes it: it returns a value, it exits, or it goes to
-- sleep and takes the call up again when it runs next.
pub data Reply : Type 0 where
  value : ℤ → Reply
  exited : Reply
  parked : Reply

-- The memory and file routines that proc.c calls, over a state of their own. An allocation gives
-- 0 when it fails. Closing a file or dropping an inode may wake processes: it gives the channels
-- on which it calls `wakeup`, in order.
pub record Services : Type 1 where
  pub World : Type 0
  pub kalloc : World → ℕ × World
  pub kfree : ℕ → World → World
  pub setupkvm : World → ℕ × World
  pub inituvm : ℕ → World → World
  pub copyuvm : ℕ → ℕ → World → ℕ × World
  pub freevm : ℕ → World → World
  pub allocuvm : ℕ → ℕ → ℕ → World → ℕ × World
  pub deallocuvm : ℕ → ℕ → ℕ → World → ℕ × World
  pub filedup : ℕ → World → World
  pub idup : ℕ → World → World
  pub fileclose : ℕ → World → List ℕ × World
  pub iput : ℕ → World → List ℕ × World
  pub namei_root : World → ℕ × World
