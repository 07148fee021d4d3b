-- ===== src/Proc/Life/Alloc.antt =====
-- `allocproc`, `userinit` and `fork` keep the invariant; a new process has a pid that no other has.
use nice_system_calls.Common.{
  ℕ, ◌+◌, ◌<◌, ◌≡◌, refl, subst, ◌≢◌, ◌⊎◌, inl, inr, some, arith, ◌==◌, if◌then◌else◌, Bool-cases,
  Option-cases, ok, Returns,
}
use nice_system_calls.Queue.{null, nproc}
use nice_system_calls.Proc.{
  Table, Proc, Services, unused, embryo, is_unused, proc_at, find_slot, no_context,
}
use nice_system_calls.Proc.Life.{claim, alloc_slot, allocproc, forkret}
use nice_system_calls.Proc.Inv.{
  Inv, put-ok, load-slot, written, written-Keeps, proc_at-written, renamed-Inv, Found,
}
use nice_system_calls.Proc.Find.{find_slot_lem}

-- The slot as `allocproc` marks it.
abbrev claimed : Table → ℕ → Proc
claimed t i = record (proc_at t i) { state = embryo; pid = t.nextpid; priority = 3 }

abbrev claimed_table : Table → ℕ → Table
claimed_table t i = record (written t i (claimed t i)) { nextpid = t.nextpid + 1 }

claim-ok : {t : Table} (i : ℕ) → Inv t → i < nproc → claim i t ≡ ok (claimed_table t i)
unfolding claim
claim-ok {t} i v h = rw (load-slot t i v.size h, put-ok t i (claimed t i) v.size h)

claimed-Inv : {t : Table} (i : ℕ) → Inv t → i < nproc → Inv (claimed_table t i)
claimed-Inv {t} i v h =
    renamed-Inv v i h (claimed t i) (t.nextpid + 1) (omega arith) (omega arith)
      (λ j hj e. omega (arith, v.fresh j hj)) (λ e. omega (arith, v.fresh i h)) (λ e. omega arith)
      (omega arith) (v.files i h) (λ e. absurd (ground arith))

-- What `allocproc` gives: `null`, or a slot that was unused and now holds a process that is being
-- made, under the next pid and with the middle priority, beside the same other processes.
pub record NewProc (t : Table) (i : ℕ) (t' : Table) : Type 0 where
  pub in_table : i < nproc
  pub was_unused : (proc_at t i).state ≡ unused
  pub is_embryo : (proc_at t' i).state ≡ embryo
  pub new_pid : (proc_at t' i).pid ≡ t.nextpid
  pub medium : (proc_at t' i).priority ≡ 3
  pub next : t'.nextpid ≡ t.nextpid + 1
  pub same_init : t'.initproc ≡ t.initproc
  pub same_queues : t'.queues ≡ t.queues
  pub others : (j : ℕ) → j ≢ i → proc_at t' j ≡ proc_at t j

-- No slot of the table is free.
abbrev pub Full : Table → Type 0
Full t = (j : ℕ) → j < nproc → (proc_at t j).state ≢ unused

-- `page` is what `kalloc` gives.
abbrev pub Allocated : Table → ℕ → ℕ → Table → Type 0
Allocated t page i t' =
    Inv t'
    × (((i ≡ null)
          × (t'.initproc ≡ t.initproc)
          × ((j : ℕ) → (proc_at t j).state ≢ unused → proc_at t' j ≡ proc_at t j)
          × (Full t ⊎ (page ≡ 0)))
        ⊎ (NewProc t i t' × (page ≢ 0)))

module _ (S : Services) where
  open S use {World, kalloc, copyuvm, idup}

  -- A slot is given together with the state behind `kalloc`.
  abbrev pub Gives : Table → World → ℕ × Table × World → Type 0
  Gives t w r = Allocated t (kalloc w).0 r.0 r.1 × (r.0 ≢ null → r.2 ≡ (kalloc w).1)

  alloc-Found :
      {t : Table} (i : ℕ) (w : World)
      → Inv t
      → Found (λ p. is_unused p.state) t (some i)
      → Returns (Gives t w) (alloc_slot S i t w)
  unfolding alloc_slot
  alloc-Found {t} i w v (h, was, first) =
      let t1 = claimed_table t i in
      let v1 = claimed-Inv i v h in
      let at : (j : ℕ) → proc_at t1 j ≡ (if i == j then claimed t i else proc_at t j) =
        λ j. proc_at-written t i j (claimed t i) v.size h in
      rw (claim-ok i v h, load-slot t1 i v1.size h)
        (elim (Bool-cases ((kalloc w).0 == 0)) [
          | inl no_page ↦
              let q : Proc = record (proc_at t1 i) { kstack = 0; state = unused } in
              rw (no_page, put-ok t1 i q v1.size h)
                (
                  (
                    (written-Keeps v1 i h q refl refl (v1.files i h) (λ e. absurd (e refl))
                        (λ e. absurd (ground arith))).0,
                    inl (
                      refl,
                      refl,
                      λ j e. ground (arith, proc_at-written t1 i j q v1.size h, at j),
                      inr (ground arith),
                    ),
                  ),
                  λ e. refl,
                )
          | inr page ↦
              let q : Proc = record (proc_at t1 i) {
                kstack = (kalloc w).0;
                context = record no_context { eip = forkret };
              } in
              rw (page, put-ok t1 i q v1.size h)
                (
                  (
                    (written-Keeps v1 i h q refl refl (v1.files i h) (v1.live i h) (λ e. e)).0,
                    inr (
                      record {
                        in_table = h;
                        was_unused = ground arith;
                        is_embryo = ground (arith, proc_at-written t1 i i q v1.size h, at i);
                        new_pid = ground (arith, proc_at-written t1 i i q v1.size h, at i);
                        medium = ground (arith, proc_at-written t1 i i q v1.size h, at i);
                        next = refl;
                        same_init = refl;
                        same_queues = refl;
                        others = λ j ne. ground (arith, proc_at-written t1 i j q v1.size h, at j);
                      },
                      λ z. ground arith,
                    ),
                  ),
                  λ e. refl,
                )
        ])

  -- On a well formed table `allocproc` returns and leaves it well formed. It gives no slot, where
  -- none is free or `kalloc` gives 0, and the slots in use are as before; or it gives a slot that
  -- was unused, whose process is now an embryo with the old `nextpid` as its pid and priority 3,
  -- `nextpid` is one more, and every other slot is as before.
  pub allocproc_lem : {t : Table} (w : World) → Inv t → Returns (Gives t w) (allocproc S t w)
  unfolding allocproc
  allocproc_lem {t} w v = elim (Option-cases (find_slot (λ p. is_unused p.state) t.procs 0)) [
    | inl e ↦
        let all =
          subst (Found (λ p. is_unused p.state) t) e
            (find_slot_lem (λ p. is_unused p.state) t v.size) in
        rw (e, allocproc)
          (
            (v, inl (refl, refl, λ j ne. refl, inl (λ j hj z. ground (arith, all j hj)))),
            λ e. absurd (e refl),
          )
    | inr (i, e) ↦
        rw (e, allocproc)
          (alloc-Found i w v (
            subst (Found (λ p. is_unused p.state) t) e
              (find_slot_lem (λ p. is_unused p.state) t v.size)))
  ]
