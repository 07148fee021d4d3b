-- ===== src/Proc/Life/Boot.antt =====
-- The table at the start, and `userinit`, which makes the first process.
use nice_system_calls.Common.{
  ℕ, ◌<◌, ◌≡◌, refl, sym, ap, ◌∙◌, ◌≢◌, ◌⊎◌, inl, inr, List, arith, ◌==◌, Bool-cases, Returns-mono,
  ok, fault, Ends, Ends-bind, Returns-Ends, load-out,
}
use nice_system_calls.Common.Int.{ℤ, pos, negsuc}
use nice_system_calls.Queue.{null, nproc}
use nice_system_calls.Queue.Empty.{get_or-replicate, no_queues-IsQueues}
use nice_system_calls.Proc.{Table, Proc, Services, proc_at, blank, boot_table, no_trapframe}
use nice_system_calls.Proc.Queueing.{make_runnable}
use nice_system_calls.Proc.Queueing.Wake.{make_runnable_keeps}
use nice_system_calls.Proc.Life.{
  allocproc, userinit, userinit_slot, pgsize, user_code, user_data, fl_if,
}
use nice_system_calls.Proc.Life.Alloc.{Allocated, allocproc_lem}
use nice_system_calls.Proc.Inv.{Inv, put-ok, load-slot, written, written-Keeps, reinit}

pub boot_slot : (i : ℕ) → proc_at boot_table i ≡ blank
boot_slot i = get_or-replicate nproc i blank

-- The zeroed table of the kernel image has the invariant.
pub boot_table-Inv : Inv boot_table
boot_table-Inv = record {
  size = refl;
  queues = no_queues-IsQueues;
  unique = λ i j hi hj ne e. absurd (ne (ap (λ (p : Proc). p.pid) (boot_slot i)));
  fresh = λ i h. rw (boot_slot i) (omega arith);
  live = λ i h ne e. ne (ap (λ (p : Proc). p.state) (boot_slot i));
  ranked = λ i h ne. absurd (ne (ap (λ (p : Proc). p.pid) (boot_slot i)));
  capped = λ i h. rw (boot_slot i) (omega arith);
  files = λ i h. rw (boot_slot i);
  queued = λ i h ne e. absurd (ground (arith, boot_slot i));
}

module _ (S : Services) where
  open S use {World, kalloc, setupkvm, inituvm, namei_root}

  settle :
      (res : ℤ) (t : Table) (w : World)
      → Inv t
      → Ends (λ (r : Table × World). Inv r.0) (elim res [ negsuc n ↦ fault | pos n ↦ ok (t, w) ])
  settle (pos n) t w v = v
  settle (negsuc n) t w v = tt

  userinit_slot_keeps :
      {t : Table} (initcode : List ℕ) (p : ℕ) (w : World)
      → Inv t
      → (p ≡ null) ⊎ ((p < nproc) × ((proc_at t p).pid ≢ 0))
      → Ends (λ (r : Table × World). Inv r.0) (userinit_slot S initcode p t w)
  unfolding userinit_slot
  userinit_slot_keeps {t} initcode p w v (inl e) =
      rw (load-out t.procs p (omega (arith, v.size))) tt
  userinit_slot_keeps {t} initcode p w v (inr (h, live)) =
      rw (load-slot t p v.size h) (elim (Bool-cases ((setupkvm w).0 == 0)) [
        | inl no_memory ↦ rw no_memory tt
        | inr memory ↦
            let root = namei_root (inituvm (setupkvm w).0 (setupkvm w).1) in
            let q : Proc = record (proc_at t p) {
              pgdir = (setupkvm w).0;
              sz = pgsize;
              tf = record no_trapframe {
                cs = user_code;
                ds = user_data;
                es = user_data;
                ss = user_data;
                eflags = fl_if;
                esp = pgsize;
                eip = 0;
              };
              name = initcode;
              cwd = root.0;
            } in
            let k = written-Keeps v p h q refl refl (v.files p h) (λ e. live) (λ e. e) in
            rw (memory, put-ok t p q v.size h)
              (Ends-bind (λ (r : ℤ × Table). Inv r.1) _ (make_runnable p (written t p q)) _
                (Returns-Ends _ (make_runnable p (written t p q)) (
                  Returns-mono _ (λ (r : ℤ × Table). Inv r.1) (make_runnable p (written t p q))
                    (make_runnable_keeps p k.0 h (λ z. live (sym (k.1.pid_kept p h) ∙ z)))
                    (λ r e. e.0)))
                (λ (r : ℤ × Table) e. settle r.0 r.1 root.1 e))
      ])

  -- Where `userinit` comes to an end, the table has the invariant.
  pub userinit_keeps :
      {t : Table} (initcode : List ℕ) (w : World)
      → Inv t
      → Ends (λ (r : Table × World). Inv r.0) (userinit S initcode t w)
  unfolding userinit
  userinit_keeps {t} initcode w v =
      Ends-bind (λ (r : ℕ × Table × World). Allocated t (kalloc w).0 r.0 r.1) _ (allocproc S t w) _
        (Returns-Ends _ (allocproc S t w)
          (Returns-mono _ _ (allocproc S t w) (allocproc_lem S w v) (λ r k. k.0)))
        (λ (r : ℕ × Table × World) k.
          userinit_slot_keeps initcode r.0 r.2 (reinit k.0 r.0) (elim k.1 [
            | inl none_left ↦ inl none_left.0
            | inr new ↦
                inr (
                  new.0.in_table,
                  k.0.live r.0 new.0.in_table (λ z. ground (arith, new.0.is_embryo)),
                )
          ]))
