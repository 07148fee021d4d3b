-- ===== src/Proc/Sample.antt =====
-- A table with two processes, init and a shell that runs, and memory and file services that always
-- succeed: the data of the tests.
use nice_system_calls.Common.{ℕ, ◌+◌, ◌-◌, ◌≡◌, refl, ap, ◌∙◌, [], ◌∷◌, arith, ◌==◌, if◌then◌else◌}
use nice_system_calls.Proc.{Table, Proc, Services, sleeping, running, blank, boot_table, proc_at}
use nice_system_calls.Proc.Inv.{Inv, written, renamed-Inv, reinit, proc_at-written}
use nice_system_calls.Proc.Life.Boot.{boot_table-Inv, boot_slot}

abbrev pub init_slot : Proc
init_slot = record blank { state = sleeping; pid = 1; priority = 3; chan = 0 }

abbrev pub shell_slot : Proc
shell_slot = record blank {
  state = running;
  pid = 2;
  priority = 3;
  parent = 0;
  name = b's' ∷ b'h' ∷ [];
}

abbrev with_init : Table
with_init = record (written boot_table 0 init_slot) { nextpid = 2 }

abbrev with_shell : Table
with_shell = record (written with_init 1 shell_slot) { nextpid = 3 }

abbrev pub sample : Table
sample = record with_shell { initproc = 0 }

with_init-Inv : Inv with_init
with_init-Inv =
    renamed-Inv boot_table-Inv 0 (omega arith) init_slot 2 (omega arith) (omega arith)
      (λ j h e. absurd (ground (arith, boot_slot j))) (λ e. omega arith) (λ e. omega arith)
      (omega arith) refl (λ e. absurd (ground arith))

with_init_pid : (j : ℕ) → (proc_at with_init j).pid ≡ (if 0 == j then 1 else 0)
with_init_pid j =
    ap (λ (p : Proc). p.pid) (proc_at-written boot_table 0 j init_slot refl (omega arith))
    ∙ ground (arith, boot_slot j)

with_shell-Inv : Inv with_shell
with_shell-Inv =
    renamed-Inv with_init-Inv 1 (omega arith) shell_slot 3 (omega arith) (omega arith)
      (λ j h e. absurd (ground (arith, with_init_pid j))) (λ e. omega arith) (λ e. omega arith)
      (omega arith) refl (λ e. absurd (ground arith))

pub sample-Inv : Inv sample
sample-Inv = reinit with_shell-Inv 0

abbrev pub plain : Services
plain = record {
  World = ℕ;
  kalloc = λ w. (4096, w + 1);
  kfree = λ p w. w - 1;
  setupkvm = λ w. (8192, w);
  inituvm = λ d w. w;
  copyuvm = λ d n w. (12288, w);
  freevm = λ d w. w;
  allocuvm = λ d old new w. (new, w);
  deallocuvm = λ d old new w. (new, w);
  filedup = λ f w. w;
  idup = λ i w. w;
  fileclose = λ f w. ([], w);
  iput = λ i w. ([], w);
  namei_root = λ w. (1, w);
}
