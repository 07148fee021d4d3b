-- ===== src/Lib.antt =====
-- Verification of the kernel of xv6 with priority queues and the `nice` system call (xv6-public/).
--
-- The process table of proc.c is the centre. A call enters through `syscall`, which fetches its
-- arguments from the memory of the process and calls a routine of proc.c; that routine changes slots
-- of the table and the five queues of waiting processes; the scheduler takes processes out of the
-- queues. The command nice.c makes such a call and unpacks its result. Pipes sleep and wake through
-- the table. The page allocator gives the memory of processes and pipes. An open file is a pipe or an
-- inode of the file system, whose blocks stand in the buffer cache and are written through the log.
--
-- Common: numbers, lists, integers, and `Outcome`, the result of a routine that may panic or leave an
--   array. `Returns P m` says that `m` comes to a value with the property `P`, and
--   `ReturnsOr X P m` that it does, or panics and `X` holds.
-- Queue (proc.c, the first 57 lines): `Queues` is the arrays priority_q and marker.
--   Queue.Spec is the contract, a FIFO without repeated pids; Queue.Refine and Queue.Remove show that
--   the arrays keep it.
-- Proc (proc.c, proc.h): `Table` is ptable.proc, the queues, nextpid and initproc; `Inv` of Proc.Inv
--   says when it is well formed. Proc.Queueing has yield, sleep, wakeup and the schedulers; Proc.Life
--   has allocproc, userinit, growproc, fork, exit and wait; Proc.Calls has kill, nice, cps and
--   procdump. Proc.Life.Calm, Orphans and Leave follow `exit` through its wakeups and its loop over
--   the children. Proc.Run puts the routines together as steps that processes and the scheduler
--   take in any order. The configuration is the one without CUSTOM_SCHEDULER, in which the queues are used;
--   `round_robin_from` is the scheduler of the other one.
-- Syscall (syscall.c, sysproc.c): the arguments of a call, and its dispatch.
-- Cli (nice.c; atoi of ulib.c; printint of printf.c): the command.
-- Pipe (pipe.c): the ring of 512 bytes as a queue. Its counters wrap around at 2 ^ 32.
-- Kalloc (kalloc.c): the free list, threaded through the free pages.
-- Lock (spinlock.c, sleeplock.c): spin locks as the steps of processors, the depth of pushcli, and
--   sleep locks over the sleep and wakeup of Proc.
-- Log (log.c): transactions over a disk and the blocks that the cache holds back. `history` keeps the
--   disk before each write, for a crash there. The number of the super block's log start is `start`.
-- Bio (bio.c, memide.c): the ring of buffers. Bio.Ring and Bio.Order have the writes of its pointers,
--   Bio.Release and Bio.Lookup the list that it stands for, Bio.Blocks and Bio.Coherent the blocks.
--   Log and Fs use blocks at the contract of the cache.
-- Fs (fs.c): the blocks, the bitmap (Fs.Alloc), inodes on the disk and in the cache (Fs.Inodes), the
--   content of files (Fs.Content), directories (Fs.Dir) and paths (Fs.FsPath). A pointer to an inode
--   is the index of its entry of icache; the sleep lock of an inode is a flag.
-- Grep (grep.c): the matcher, and the search of the lines of a file.
-- File (file.c): the table of open files and its reference counts, reading and writing.
-- Memory (string.c): blocks of bytes and strings, over a function from addresses to bytes.
--
-- An address is a number. That of a slot of the table is its index, and the null pointer is 64, the
-- number behind the last index; where the code computes the level -1, the model has 5: both lie
-- outside the arrays. Locks are held throughout the routines that take them, so a routine is one
-- step; `nice` gives the lock back before it changes the priority, and is modelled in the run where no
-- other processor comes between. `dispatch` leaves the load of the page table (switchuvm) out, with
-- its panic. A routine that sleeps is modelled up to the point where it sleeps, and a loop around that
-- point by its rounds. What proc.c calls of other files is the record `Services`, over a state of its
-- own; closing a file or dropping an inode gives the channels that it wakes. The trap frame and the
-- context stand in the record of the process. nextpid is a number without bound: the code would reach
-- the bound of its int after 2 ^ 31 calls of fork. Sums of ints in `nice`, `atoi` and `printint` are
-- taken modulo 2 ^ 32, as the machine computes them. The command calls the kernel's `nice` itself: the
-- words on the stack and the register eax hand its ints on unchanged. Where `userinit` would call
-- `exit` without a process, the model comes to a fault.
--
-- The lock steps take the stores of a processor in program order.
--
-- Loops over arrays have as many rounds as the array has cells. `freerange` has one round more than
-- pages fit below its end. `printint` has the 16 places of its buffer, of which a 32-bit number in
-- base 10 needs 10; `strlen` has fuel. The loop of `filewrite` has one round more than bytes to write;
-- so have those of `readi` and `writei`. Those of `balloc` and `ialloc` have a round for each block of
-- the bitmap and each inode, those over a directory two more than entries, that of `namex` one
-- more than bytes in the path, and those of `bget` one more than buffers.
--
-- Not modelled: the switch of contexts (sched, forkret, swtch.S), which acts on the machine; the
-- routines that set locks and the log up (iinit, initlog, fileinit); pipealloc; the calls of sysfile.c
-- and exec.c, page tables, traps, devices and start-up; and the programs beside nice.c and grep.c.
pub mod Bio
pub mod Common
pub mod Pipe
pub mod Kalloc
pub mod Syscall
pub mod Cli
pub mod Lock
pub mod File
pub mod Grep
pub mod Log
pub mod Fs
pub mod Memory
pub mod Queue
pub mod Proc
