-- ===== src/Proc/Life/Wait.antt =====
-- `wait`: it frees one zombie child and returns its pid, or fails, or sleeps until a child exits.
use nice_system_calls.Common.{
  ℕ, zero, suc, ◌-◌, ◌≤◌, ◌<◌, ◌≡◌, refl, ap, ◌≢◌, ◌⊎◌, inl, inr, Bool, true, false, List, [], ◌∷◌,
  Option, none, some, arith, ◌==◌, if◌then◌else◌, not, ◌||◌, Bool-cases, length, get_or, Returns,
  Returns-bind,
}
use nice_system_calls.Common.Int.{ℤ, pos, negsuc}
use nice_system_calls.Queue.{null, nproc, plevels}
use nice_system_calls.Proc.{
  Table, Proc, Services, Reply, value, parked, unused, sleeping, zombie, is_zombie, proc_at, blank,
}
use nice_system_calls.Proc.Queueing.{remove_from_level, level_of}
use nice_system_calls.Proc.Life.{wait_scan, reap, wait_end, wait_round}
use nice_system_calls.Proc.Queueing.Turns.{sleep-ok}
use nice_system_calls.Proc.Inv.{
  Inv, InvBut-null, exempt, put-ok, load-slot, written, written-Keeps, proc_at-written, renamed-Inv,
}
use nice_system_calls.Proc.Queueing.Keep.{remove_from_level_keeps}

-- The scan through `ps`, which begins at slot `i`.
abbrev ScansIn : ℕ → List Proc → ℕ → Bool → Bool × Option ℕ → Type 0
ScansIn me ps i kids (b, some j) =
    (i ≤ j)
    × (j - i < length ps)
    × ((get_or ps (j - i) blank).parent ≡ me)
    × (is_zombie (get_or ps (j - i) blank).state ≡ true)
ScansIn me ps i kids (b, none) =
    ((k : ℕ)
      → k < length ps
      → (get_or ps k blank).parent ≡ me
      → (is_zombie (get_or ps k blank).state ≡ false) × (b ≡ true))
    × (kids ≡ true → b ≡ true)
    × (b ≡ true → (kids ≡ true) ⊎ ((k : ℕ) × (k < length ps) × ((get_or ps k blank).parent ≡ me)))

-- One more slot in front: a child that is no zombie, or a process of another parent.
ScansIn-cons :
    (me : ℕ) (p : Proc) (ps : List Proc) (i : ℕ) (kids kids' : Bool) (r : Bool × Option ℕ)
    → (p.parent ≡ me → (is_zombie p.state ≡ false) × (kids' ≡ true))
    → (kids' ≡ true → (kids ≡ true) ⊎ (p.parent ≡ me))
    → (kids ≡ true → kids' ≡ true)
    → ScansIn me ps (suc i) kids' r
    → ScansIn me (p ∷ ps) i kids r
ScansIn-cons me p ps i kids kids' (b, some j) mine back grows (a, c, d, e) =
    let one : j - i ≡ suc (j - suc i) = omega arith in
    (omega arith, omega arith, rw one d, rw one e)
ScansIn-cons me p ps i kids kids' (b, none) mine back grows (a, d, e) =
    (all, λ h. d (grows h), exists)
  where
    all :
        (k : ℕ)
        → k < suc (length ps)
        → (get_or (p ∷ ps) k blank).parent ≡ me
        → (is_zombie (get_or (p ∷ ps) k blank).state ≡ false) × (b ≡ true)
    all zero h m = ((mine m).0, d (mine m).1)
    all (suc k) h m = a k (omega arith) m

    exists :
        b ≡ true
        → (kids ≡ true)
          ⊎ ((k : ℕ) × (k < suc (length ps)) × ((get_or (p ∷ ps) k blank).parent ≡ me))
    exists h = elim (e h) [
      | inl x ↦ elim (back x) [ inl y ↦ inl y | inr y ↦ inr (0, omega arith, y) ]
      | inr (k, x, y) ↦ inr (suc k, omega arith, y)
    ]

wait_scan-ScansIn :
    (me : ℕ) (ps : List Proc) (i : ℕ) (kids : Bool) → ScansIn me ps i kids (wait_scan me ps i kids)
unfolding wait_scan
wait_scan-ScansIn me [] i kids = (λ k h. absurd (omega arith), λ h. h, λ h. inl h)
wait_scan-ScansIn me (p ∷ ps) i kids = elim (Bool-cases (p.parent == me)) [
  | inr other ↦ rw other (
      ScansIn-cons me p ps i kids kids (wait_scan me ps (suc i) kids) (λ e. absurd (ground arith))
        (λ e. inl e) (λ e. e) (wait_scan-ScansIn me ps (suc i) kids))
  | inl mine ↦ elim (Bool-cases (is_zombie p.state)) [
    | inl dead ↦
        let here : i - i ≡ 0 = omega arith in
        rw (mine, dead, here) (omega arith, omega arith, ground arith, dead)
    | inr lives ↦
        rw (mine, lives)
          (ScansIn-cons me p ps i kids true (wait_scan me ps (suc i) true) (λ e. (lives, refl))
            (λ e. inr (ground arith)) (λ e. refl) (wait_scan-ScansIn me ps (suc i) true))
  ]
]

-- What the scan of the whole table tells.
abbrev pub Scanned : ℕ → Table → Bool × Option ℕ → Type 0
Scanned me t (b, some i) =
    (i < nproc) × ((proc_at t i).parent ≡ me) × (is_zombie (proc_at t i).state ≡ true)
Scanned me t (b, none) =
    ((k : ℕ)
      → k < nproc
      → (proc_at t k).parent ≡ me
      → (is_zombie (proc_at t k).state ≡ false) × (b ≡ true))
    × (b ≡ true → (k : ℕ) × (k < nproc) × ((proc_at t k).parent ≡ me))

pub wait_scan_lem :
    (me : ℕ) (t : Table) → length t.procs ≡ nproc → Scanned me t (wait_scan me t.procs 0 false)
wait_scan_lem me t size =
    whole (wait_scan me t.procs 0 false) (wait_scan-ScansIn me t.procs 0 false)
  where
    whole : (r : Bool × Option ℕ) → ScansIn me t.procs 0 false r → Scanned me t r
    whole (b, some i) (a, c, d, e) =
        let same : i - 0 ≡ i = omega arith in (omega arith, rw same at d, rw same at e)
    whole (b, none) (a, d, e) = (
      λ k h m. a k (omega arith) m,
      λ h. elim (e h) [ inl x ↦ absurd (ground arith) | inr (k, x, m) ↦ (k, omega arith, m) ],
    )

-- The child in slot `i` is gone, and its pid was `pid`.
pub record IsReaped (t : Table) (i pid : ℕ) (t' : Table) : Type 0 where
  pub pid_was : pid ≡ (proc_at t i).pid
  pub no_pid : (proc_at t' i).pid ≡ 0
  pub free : (proc_at t' i).state ≡ unused
  pub others : (j : ℕ) → j ≢ i → proc_at t' j ≡ proc_at t j

-- No child of `me` is a zombie.
abbrev pub NoZombie : ℕ → Table → Type 0
NoZombie me t = (k : ℕ) → k < nproc → (proc_at t k).parent ≡ me → (proc_at t k).state ≢ zombie

-- The ends of a round of `wait`.
abbrev pub Waited : ℕ → Table → Reply × Table → Type 0
Waited me t r =
    ((i pid : ℕ) × (i < nproc)
      × ((proc_at t i).parent ≡ me)
      × ((proc_at t i).state ≡ zombie)
      × (r.0 ≡ value (pos pid))
      × IsReaped t i pid r.1)
    ⊎ ((r.0 ≡ value (negsuc 0))
        × (r.1 ≡ t)
        × NoZombie me t
        × (((k : ℕ) → k < nproc → (proc_at t k).parent ≢ me) ⊎ ((proc_at t me).killed ≢ 0)))
    ⊎ ((r.0 ≡ parked)
        × ((proc_at r.1 me).state ≡ sleeping)
        × ((proc_at r.1 me).chan ≡ me)
        × NoZombie me t
        × ((k : ℕ) × (k < nproc) × ((proc_at t k).parent ≡ me)))

module _ (S : Services) where
  open S use {World}

  -- `wait` frees a process with all it has in the table.
  pub reap_lem :
      {t : Table} (i : ℕ) (w : World)
      → Inv t
      → i < nproc
      → (proc_at t i).pid ≢ 0
      → Returns (λ (r : ℕ × Table × World). Inv r.1 × IsReaped t i r.0 r.1) (reap S i t w)
  unfolding reap
  reap_lem {t} i w v h live =
      let q : Proc = record (proc_at t i) {
        kstack = 0;
        pid = 0;
        parent = null;
        name = [];
        killed = 0;
        state = unused;
      } in
      let t1 : Table = written t i q in
      let at : (j : ℕ) → proc_at t1 j ≡ (if i == j then q else proc_at t j) =
        λ j. proc_at-written t i j q v.size h in
      let v1 : Inv t1 =
        renamed-Inv v i h q t.nextpid (omega arith) (omega (arith, v.fresh i h)) (λ j hj e. refl)
          (λ e. absurd (e refl)) (λ e. absurd (e refl)) (v.capped i h) (v.files i h)
          (λ e. absurd (ground arith)) in
      let l = level_of (proc_at t i).priority in
      let hl : l < plevels = ground (arith, v.ranked i h live, v.capped i h) in
      rw (load-slot t i v.size h, put-ok t i q v.size h)
        (Returns-bind _ _ (remove_from_level i l t1) _
          (remove_from_level_keeps (exempt v1 i) h l hl)
          (λ (r : ℤ × Table) k.
            let same : (j : ℕ) → proc_at r.1 j ≡ proc_at t1 j =
              λ j. ap (λ (s : Table). proc_at s j) k.1.rest in
            (
              InvBut-null k.0 (λ e. ground (arith, same i, at i)),
              record {
                pid_was = refl;
                no_pid = ground (arith, same i, at i);
                free = ground (arith, same i, at i);
                others = λ j ne. ground (arith, same j, at j);
              },
            )))

  wait_end_lem :
      {t : Table} (lock me : ℕ) (r : Bool × Option ℕ) (w : World)
      → Inv t
      → Scanned me t r
      → me < nproc
      → lock ≢ null
      → (proc_at t me).pid ≢ 0
      → Returns
          (λ (x : Reply × Table × World). Inv x.1 × Waited me t (x.0, x.1))
          (wait_end S lock me r t w)
  unfolding wait_end
  wait_end_lem {t} lock me (kids, some i) w v (hi, child, dead) h hl live =
      Returns-bind _ _ (reap S i t w) _ (reap_lem i w v hi (v.live i hi (λ z. ground arith)))
        (λ (r : ℕ × Table × World) k. (k.0, inl (i, r.0, hi, child, ground arith, refl, k.1)))
  wait_end_lem {t} lock me (kids, none) w v (all, exists) h hl live =
      rw (load-slot t me v.size h)
        (elim (Bool-cases (not kids || not ((proc_at t me).killed == 0))) [
          | inl fails ↦ rw fails (v, inr (inl (refl, refl, alive, failed fails)))
          | inr waits ↦
              let q : Proc = record (proc_at t me) { chan = me; state = sleeping } in
              let at = proc_at-written t me me q v.size h in
              rw (waits, sleep-ok me me lock v h hl)
                (
                  (written-Keeps v me h q refl refl (v.files me h) (λ e. live)
                      (λ e. absurd (ground arith))).0,
                  inr (
                      inr (
                        refl,
                        ground (arith, at),
                        ground (arith, at),
                        alive,
                        exists (ground arith),
                      )),
                )
        ])
    where
      alive : NoZombie me t
      alive k hk m z = ground (arith, (all k hk m).0)

      failed :
          (not kids || not ((proc_at t me).killed == 0)) ≡ true
          → ((k : ℕ) → k < nproc → (proc_at t k).parent ≢ me) ⊎ ((proc_at t me).killed ≢ 0)
      failed e = elim (Bool-cases kids) [
        | inr no_kids ↦ inl (λ k hk m. ground (arith, all k hk m))
        | inl some_kids ↦ inr (λ z. ground arith)
      ]

  pub wait_round_lem :
      {t : Table} (lock me : ℕ) (w : World)
      → Inv t
      → me < nproc
      → lock ≢ null
      → (proc_at t me).pid ≢ 0
      → Returns
          (λ (r : Reply × Table × World). Inv r.1 × Waited me t (r.0, r.1))
          (wait_round S lock me t w)
  unfolding wait_round
  wait_round_lem {t} lock me w v h hl live =
      wait_end_lem lock me (wait_scan me t.procs 0 false) w v (wait_scan_lem me t v.size) h hl live
