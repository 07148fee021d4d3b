-- ===== src/Syscall.antt =====
-- syscall.c and sysproc.c: how a system call gets its arguments from the memory of the process, the
-- calls on processes, and the dispatch of a call by its number.
pub mod Fetch
mod Tests
use nice_system_calls.Common.{
  ℕ, zero, suc, ◌+◌, ◌-◌, ◌*◌, ◌%◌, ◌^◌, Bool, true, false, Option, none, some, arith, ltb, leb,
  ◌==◌, if◌then◌else◌, ◌||◌, ◌&&◌, not, Outcome, ok, ◌>>=◌, load,
}
use nice_system_calls.Common.Int.{ℤ, pos, negsuc, ltb_ℤ, pos_part, to_int, of_int}
use nice_system_calls.Memory.{Memory}
use nice_system_calls.Kalloc.{read_word}
use nice_system_calls.Proc.{Table, Proc, Services, Reply, value, exited, parked, put, Trapframe}
use nice_system_calls.Proc.Queueing.{sleep}
use nice_system_calls.Proc.Life.{fork, exit, wait_round, growproc}
use nice_system_calls.Proc.Calls.{kill, nice, cps}

-- `user` is the memory of the process that calls, `sz` its size, `esp` its stack pointer. An
-- argument is a word; `none` stands for the reply -1.
module _ (user : Memory) (sz : ℕ) where
  unfoldable pub fetchint : ℕ → Option ℕ
  fetchint addr =
      if leb sz addr || ltb sz ((addr + 4) % 2 ^ 32) then none else some (read_word addr user)

  -- The loop of `fetchstr` at offset `n` of the string, with the bytes that are left.
  unfoldable pub scan_string : ℕ → ℕ → ℕ → Option ℕ
  scan_string zero addr n = none
  scan_string (suc rounds) addr n =
      let rest = scan_string rounds addr (suc n) in if user (addr + n) == 0 then some n else rest

  -- The length of the string at `addr`.
  unfoldable pub fetchstr : ℕ → Option ℕ
  fetchstr addr = if leb sz addr then none else scan_string (sz - addr) addr 0

  module _ (esp : ℕ) where
    unfoldable pub argint : ℕ → Option ℕ
    argint n = fetchint ((esp + 4 + 4 * n) % 2 ^ 32)

    -- The address of a block of `size` bytes.
    unfoldable pub argptr : ℕ → ℤ → Option ℕ
    argptr n size = elim (argint n) [
      | none ↦ none
      | some i ↦
          if ltb_ℤ size (pos 0) || leb sz i || ltb sz ((i + of_int size) % 2 ^ 32)
          then none
          else some i
    ]

    -- The address of a string and its length.
    unfoldable pub argstr : ℕ → Option (ℕ × ℕ)
    argstr n = elim (argint n) [
      | none ↦ none
      | some addr ↦ elim (fetchstr addr) [ none ↦ none | some len ↦ some (addr, len) ]
    ]

module _ (S : Services) where
  open S use {World}

  -- A call: the process in slot `me`, the table and the other state.
  abbrev pub Handler : Type 0
  Handler = ℕ → Table → World → Outcome (Reply × Table × World)

  pub sys_fork : Handler
  sys_fork me t w = fork S me t w

  pub sys_exit : Handler
  sys_exit me t w = do (t1, w1) ← exit S me t w; ok (exited, t1, w1)

  -- A round of `wait`, with the address `lock` of the lock of the table.
  pub sys_wait : ℕ → Handler
  sys_wait lock me t w = wait_round S lock me t w

  -- `if(argint(n, &arg) < 0) return -1;` before the rest `f`.
  unfoldable pub with_arg :
      (ℤ → Table → World → Outcome (Reply × Table × World))
      → Option ℕ
      → Table
      → World
      → Outcome (Reply × Table × World)
  with_arg f none t w = ok (value (negsuc 0), t, w)
  with_arg f (some arg) t w = f (to_int arg) t w

  unfoldable pub with_int :
      (ℤ → Table → World → Outcome (Reply × Table × World)) → Memory → ℕ → Handler
  with_int f user n me t w = do
    slot ← load t.procs me
    with_arg f (argint user slot.sz slot.tf.esp n) t w

  pub sys_kill : Memory → Handler
  sys_kill user me t w = with_int (λ pid t w. kill S me pid t w) user 0 me t w

  pub sys_getpid : Handler
  sys_getpid me t w = do slot ← load t.procs me; ok (value (pos slot.pid), t, w)

  pub sys_sbrk : Memory → Handler
  sys_sbrk user me t w = do
    slot ← load t.procs me
    with_int
        (λ n t w. do
          (res, t1, w1) ← growproc S me n t w
          ok (value (if ltb_ℤ res (pos 0) then negsuc 0 else to_int slot.sz), t1, w1))
        user 0 me t w

  -- A round of the loop of `sys_sleep`, `ticks0` ticks after the start: it sleeps on `chan`, the
  -- address of `ticks`, under the lock `lock`.
  pub sleep_round : ℕ → ℕ → ℕ → ℕ → ℤ → Handler
  sleep_round chan lock ticks ticks0 n me t w =
      if ltb ((ticks + 2 ^ 32 - ticks0) % 2 ^ 32) (of_int n)
      then (do
        slot ← load t.procs me
        if not (slot.killed == 0)
            then ok (value (negsuc 0), t, w)
            else (do t1 ← sleep me chan lock t; ok (parked, t1, w)))
      else ok (value (pos 0), t, w)

  pub sys_sleep : ℕ → ℕ → ℕ → Memory → Handler
  sys_sleep chan lock ticks user me t w =
      with_int (λ n t w. sleep_round chan lock ticks ticks n me t w) user 0 me t w

  pub sys_uptime : ℕ → Handler
  sys_uptime ticks me t w = ok (value (to_int ticks), t, w)

  pub sys_cps : Handler
  sys_cps me t w = ok (value (cps t).1, t, w)

  pub sys_nice : Memory → Handler
  sys_nice user me t w =
      with_int (λ pid t w. with_int (λ pr t w. nice S me pid pr t w) user 1 me t w) user 0 me t w

  -- The calls by number. Those on files are the argument `files`; no number from 1 to 23 is free.
  unfoldable pub syscalls : ℕ → ℕ → ℕ → Memory → (ℕ → Handler) → ℕ → Handler
  syscalls chan lock ticks user files n =
      if n == 1
      then sys_fork
      else if n == 2
      then sys_exit
      else if n == 3
      then sys_wait lock
      else if n == 6
      then sys_kill user
      else if n == 11
      then sys_getpid
      else if n == 12
      then sys_sbrk user
      else if n == 13
      then sys_sleep chan lock ticks user
      else if n == 14
      then sys_uptime ticks
      else if n == 22
      then sys_cps
      else if n == 23
      then sys_nice user
      else files n

  -- `proc->tf->eax = v;`
  unfoldable pub set_eax : ℕ → ℕ → Table → Outcome Table
  set_eax me v t = do
    slot ← load t.procs me
    put t me (record slot { tf = record (slot.tf) { eax = v } })

  -- `syscall`. A call that does not return, or that sleeps first, stores no value.
  unfoldable pub syscall : ℕ → ℕ → ℕ → Memory → (ℕ → Handler) → Handler
  syscall chan lock ticks user files me t w = do
    slot ← load t.procs me
    let num = slot.tf.eax
    let call = syscalls chan lock ticks user files num me t w
    if ltb 0 num && ltb num 24
        then (do
          (reply, t1, w1) ← call
          elim reply [
            | value v ↦ (do t2 ← set_eax me (of_int v) t1; ok (value v, t2, w1))
            | exited ↦ ok (exited, t1, w1)
            | parked ↦ ok (parked, t1, w1)
          ])
        else (do t1 ← set_eax me (2 ^ 32 - 1) t; ok (value (negsuc 0), t1, w))
