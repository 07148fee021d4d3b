-- ===== src/Proc/Queueing/Wake.antt =====
-- make_runnable and wakeup1: who is woken, that nothing else changes, and that the invariant holds.
use nice_system_calls.Common.{
  ℕ, zero, suc, ◌+◌, ◌≤◌, ◌<◌, ◌≡◌, refl, ap, subst, ◌∙◌, ◌≢◌, inl, inr, true, false, List, [], ◌∷◌,
  arith, ltb, leb, ◌==◌, ==_iff, if◌then◌else◌, ◌&&◌, Bool-cases, length, Returns, Returns-bind,
  Returns-mono,
}
use nice_system_calls.Common.Int.{ℤ}
use nice_system_calls.Queue.{nproc}
use nice_system_calls.Proc.{Table, Proc, runnable, is_sleeping, proc_at}
use nice_system_calls.Proc.Queueing.{
  add_to_level, level_of, make_runnable, wakeup_slot, wakeup_from, wakeup1, wakeups,
}
use nice_system_calls.Proc.Inv.{
  Inv, put-ok, load-slot, written, proc_at-written, written-InvBut, Frame, Frame-refl, Keeps,
  Keeps-trans,
}
use nice_system_calls.Proc.Queueing.Keep.{add_to_level_keeps}

-- What a routine has done to the slots: each is what `f` says, and the counters stay.
pub record Maps (f : ℕ → Proc → Proc) (t t' : Table) : Type 0 where
  pub slots : (j : ℕ) → j < nproc → proc_at t' j ≡ f j (proc_at t j)
  pub nextpid_same : t'.nextpid ≡ t.nextpid
  pub initproc_same : t'.initproc ≡ t.initproc

abbrev pub woken : ℕ → Proc → Proc
woken chan q = if is_sleeping q.state && q.chan == chan then record q { state = runnable } else q

abbrev pub made_runnable : ℕ → ℕ → Proc → Proc
made_runnable p j q = if p == j then record q { state = runnable } else q

pub written-Maps :
    {t : Table} (p : ℕ)
    → length t.procs ≡ nproc
    → p < nproc
    → (t' : Table)
    → t' ≡ record (written t p (record (proc_at t p) { state = runnable })) { queues = t'.queues }
    → Maps (made_runnable p) t t'
written-Maps {t} p e h t' rest = record {
  slots = λ j hj.
      ap (λ (s : Table). proc_at s j) rest
      ∙ proc_at-written t p j (record (proc_at t p) { state = runnable }) e h
      ∙ elim (Bool-cases (p == j)) [
        | inl same ↦ rw same (ap (λ k. record (proc_at t k) { state = runnable }) (ground arith))
        | inr other ↦ rw other
      ];
  nextpid_same = ap (λ (s : Table). s.nextpid) rest;
  initproc_same = ap (λ (s : Table). s.initproc) rest;
}

-- Where the map leaves pid and priority alone, it is in the frame.
pub Maps-Frame :
    (f : ℕ → Proc → Proc) {t t' : Table}
    → ((j : ℕ) (q : Proc) → (f j q).pid ≡ q.pid)
    → ((j : ℕ) (q : Proc) → (f j q).priority ≡ q.priority)
    → Maps f t t'
    → Frame t t'
Maps-Frame f {t} {t'} same rank m = record {
  pid_kept = λ j h. ap (λ (q : Proc). q.pid) (m.slots j h) ∙ same j (proc_at t j);
  priority_kept = λ j h. ap (λ (q : Proc). q.priority) (m.slots j h) ∙ rank j (proc_at t j);
  nextpid_kept = m.nextpid_same;
  initproc_kept = m.initproc_same;
}

pub make_runnable_keeps :
    {t : Table} (p : ℕ)
    → Inv t
    → p < nproc
    → (proc_at t p).pid ≢ 0
    → Returns (λ r. Inv r.1 × Maps (made_runnable p) t r.1) (make_runnable p t)
unfolding make_runnable
make_runnable_keeps {t} p v h live =
    let q : Proc = record (proc_at t p) { state = runnable } in
    rw (load-slot t p v.size h, put-ok t p q v.size h)
      (Returns-mono _ _ (add_to_level p (level_of (proc_at t p).priority) (written t p q))
        (add_to_level_keeps
          (written-InvBut v p h q p refl (λ e. live) (λ e. v.ranked p h live) (v.capped p h)
            (v.files p h) (λ ne. absurd (ne refl)) (λ j hj ne nn e. v.queued j hj (omega arith) e))
          h (level_of (proc_at t p).priority) (ground (arith, v.ranked p h live, v.capped p h)))
        (λ r k. (k.0, written-Maps p v.size h r.1 k.1.rest)))

-- The two replies of the call.
pub make_runnable_pid :
    {t : Table} (p : ℕ)
    → Inv t
    → p < nproc
    → (proc_at t p).pid ≢ 0
    → Returns (λ r. Keeps t r.1) (make_runnable p t)
make_runnable_pid {t} p v h live =
    Returns-mono _ _ (make_runnable p t) (make_runnable_keeps p v h live)
      (λ r k. (k.0, Maps-Frame (made_runnable p) (λ j q. ground arith) (λ j q. ground arith) k.1))

-- One round of the loop of `wakeup1`.
wakeup_slot_lem :
    {t : Table} (chan i : ℕ)
    → Inv t
    → i < nproc
    → Returns
        (λ t'. Inv t' × Maps (λ j q. if i == j then woken chan q else q) t t')
        (wakeup_slot chan i t)
unfolding wakeup_slot
wakeup_slot_lem {t} chan i v h =
    rw (load-slot t i v.size h)
      (elim (Bool-cases (is_sleeping (proc_at t i).state && (proc_at t i).chan == chan)) [
        | inl wakes ↦ rw wakes (
            Returns-bind _ _ (make_runnable i t) _
              (make_runnable_keeps i v h (v.live i h (λ e. ground arith)))
              (λ (r : ℤ × Table) k. (
                k.0,
                record {
                  slots = λ j hj. k.1.slots j hj ∙ elim (Bool-cases (i == j)) [
                    | inl same ↦ rw same (
                        rw (
                          subst
                            (λ n.
                              (is_sleeping (proc_at t n).state && (proc_at t n).chan == chan)
                              ≡ true)
                            ((==_iff i j).0 same) wakes))
                    | inr other ↦ rw other
                  ];
                  nextpid_same = k.1.nextpid_same;
                  initproc_same = k.1.initproc_same;
                },
              )))
        | inr stays ↦ rw stays (
          v,
          record {
            slots = λ j hj. elim (Bool-cases (i == j)) [
              | inl same ↦ rw same (
                  rw (
                    subst
                      (λ n. (is_sleeping (proc_at t n).state && (proc_at t n).chan == chan) ≡ false)
                      ((==_iff i j).0 same) stays))
              | inr other ↦ rw other
            ];
            nextpid_same = refl;
            initproc_same = refl;
          },
        )
      ])

-- The slots that `rounds` rounds of the loop from slot `i` on have been through.
abbrev woken_from : ℕ → ℕ → ℕ → ℕ → Proc → Proc
woken_from chan i rounds j q = if leb i j && ltb j (i + rounds) then woken chan q else q

wakeup_from_lem :
    {t : Table} (chan rounds i : ℕ)
    → Inv t
    → i + rounds ≤ nproc
    → Returns (λ t'. Inv t' × Maps (woken_from chan i rounds) t t') (wakeup_from chan rounds i t)
unfolding wakeup_from
wakeup_from_lem {t} chan zero i v h =
    (v, record { slots = λ j hj. ground arith; nextpid_same = refl; initproc_same = refl })
wakeup_from_lem {t} chan (suc rounds) i v h =
    Returns-bind _ _ (wakeup_slot chan i t) (wakeup_from chan rounds (suc i))
      (wakeup_slot_lem chan i v (omega arith))
      (λ (t1 : Table) k1.
        Returns-mono _ _ (wakeup_from chan rounds (suc i) t1)
          (wakeup_from_lem chan rounds (suc i) k1.0 (omega arith))
          (λ t2 k2. (
            k2.0,
            record {
              slots = λ j hj.
                  k2.1.slots j hj
                  ∙ ap (woken_from chan (suc i) rounds j) (k1.1.slots j hj)
                  ∙ split j (proc_at t j);
              nextpid_same = k2.1.nextpid_same ∙ k1.1.nextpid_same;
              initproc_same = k2.1.initproc_same ∙ k1.1.initproc_same;
            },
          )))
  where
    split :
        (j : ℕ) (q : Proc)
        → woken_from chan (suc i) rounds j (if i == j then woken chan q else q)
          ≡ woken_from chan i (suc rounds) j q
    split j q = ground arith

-- On a well formed table `wakeup1` returns, makes exactly the processes runnable that sleep on the
-- channel, changes nothing else of any process nor `nextpid` and `initproc`, and leaves the table
-- well formed.
pub wakeup1_lem :
    {t : Table} (chan : ℕ)
    → Inv t
    → Returns (λ t'. Inv t' × Maps (λ j. woken chan) t t') (wakeup1 chan t)
unfolding wakeup1
wakeup1_lem {t} chan v =
    Returns-mono _ _ (wakeup_from chan nproc 0 t) (wakeup_from_lem chan nproc 0 v (omega arith))
      (λ t' k. (
        k.0,
        record {
          slots = λ j hj. k.1.slots j hj ∙ ground arith;
          nextpid_same = k.1.nextpid_same;
          initproc_same = k.1.initproc_same;
        },
      ))

pub wakeup1-Keeps : {t : Table} (chan : ℕ) → Inv t → Returns (Keeps t) (wakeup1 chan t)
wakeup1-Keeps {t} chan v =
    Returns-mono _ _ (wakeup1 chan t) (wakeup1_lem chan v)
      (λ t' k. (k.0, Maps-Frame (λ j. woken chan) (λ j q. ground arith) (λ j q. ground arith) k.1))

pub wakeups-Keeps : {t : Table} (chans : List ℕ) → Inv t → Returns (Keeps t) (wakeups chans t)
unfolding wakeups
wakeups-Keeps {t} [] v = (v, Frame-refl t)
wakeups-Keeps {t} (chan ∷ chans) v =
    Returns-bind _ _ (wakeup1 chan t) (wakeups chans) (wakeup1-Keeps chan v)
      (λ (t1 : Table) k1. Keeps-trans (wakeups chans t1) k1 (wakeups-Keeps chans k1.0))

-- A single call of `wakeup`.
pub wakeups-one_lem :
    {t : Table} (chan : ℕ)
    → Inv t
    → Returns (λ t'. Inv t' × Maps (λ j. woken chan) t t') (wakeups (chan ∷ []) t)
unfolding wakeups
wakeups-one_lem {t} chan v =
    Returns-bind _ _ (wakeup1 chan t) _ (wakeup1_lem chan v) (λ (t' : Table) k. k)

-- A property that every wakeup keeps, over the channels of a list.
pub wakeups_all :
    (P : Table → Table → Type 0) {t : Table} (chans : List ℕ)
    → Inv t
    → ((t : Table) → Inv t → P t t)
    → ((t t' t'' : Table) → P t t' → P t' t'' → P t t'')
    → ((t : Table) (chan : ℕ) → Inv t → Returns (λ t'. Inv t' × P t t') (wakeup1 chan t))
    → Returns (P t) (wakeups chans t)
unfolding wakeups
wakeups_all P {t} [] v same joins one = same t v
wakeups_all P {t} (chan ∷ chans) v same joins one =
    Returns-bind _ _ (wakeup1 chan t) (wakeups chans) (one t chan v) (λ (t1 : Table) k.
      Returns-mono (P t1) (P t) (wakeups chans t1) (wakeups_all P chans k.0 same joins one)
        (λ t2 e. joins t t1 t2 k.1 e))
