-- ===== src/Proc/Queueing/Schedule.antt =====
-- The priority scheduler: which process a round picks, and that the invariant holds after it.
use nice_system_calls.Common.{
  ℕ, zero, suc, ◌+◌, ◌-◌, ◌≤◌, ◌<◌, ◌≡◌, refl, ap, subst, ◌∙◌, ◌≢◌, ◌⊎◌, inl, inr, false, List, [],
  ◌∷◌, Option, none, some, arith, ltb, ◌==◌, ==_iff, if◌then◌else◌, ◌&&◌, Bool-cases, window, ok,
  ◌>>=◌, load, load-ok, Returns, Returns-bind, Returns-mono, ℕ_discrete,
}
use nice_system_calls.Common.Int.{ℤ}
use nice_system_calls.Common.Distinct.{In, Below}
use nice_system_calls.Queue.{null, nproc, plevels}
use nice_system_calls.Queue.Spec.{drop_pid}
use nice_system_calls.Queue.Scan.{pid_in, cell}
use nice_system_calls.Queue.Refine.{contents, count_of, row_of}
use nice_system_calls.Proc.{Table, runnable, running, is_runnable, pids, proc_at}
use nice_system_calls.Proc.Queueing.{remove_from_level, pick_from, dispatch, schedule}
use nice_system_calls.Proc.Inv.{
  Inv, InvBut, InvBut-null, put-ok, load-slot, proc_at-written, written-InvBut, exempt,
}
use nice_system_calls.Proc.Queueing.Keep.{remove_from_level_keeps}

-- The queue of a level.
abbrev pub level : Table → ℕ → List ℕ
level t l = contents t.queues l

-- `q` heads level `l`, and the levels from `i` up to `l` are empty.
pub record Heads (t : Table) (i l q : ℕ) (rest : List ℕ) : Type 0 where
  pub from : i ≤ l
  pub in_range : l < plevels
  pub head : level t l ≡ q ∷ rest
  pub above : (k : ℕ) → i ≤ k → k < l → level t k ≡ []

abbrev Picks : ℕ → ℕ → Table → ℕ × Table → Type 0
Picks i p t r =
    (((l : ℕ) → i ≤ l → l < plevels → level t l ≡ []) × (r.0 ≡ p) × (r.1 ≡ t))
    ⊎ ((l : ℕ) × (rest : List ℕ) × Heads t i l r.0 rest
        × InvBut r.0 r.1
        × (r.1 ≡ record t { queues = r.1.queues })
        × (level r.1 l ≡ rest)
        × ((k : ℕ) → k ≢ l → level r.1 k ≡ level t k))

nonempty : (t : Table) (i : ℕ) → count_of t.queues i ≡ 0 → level t i ≡ []
unfolding contents
nonempty t i e = rw e

head_cell :
    (t : Table) (i : ℕ)
    → 0 < count_of t.queues i
    → (rest : List ℕ) × (level t i ≡ cell (row_of t.queues i) 0 ∷ rest)
unfolding contents
head_cell t i h =
    let n = count_of t.queues i - 1 in
    let one : count_of t.queues i ≡ suc n = omega arith in
    (window (cell (row_of t.queues i)) 1 n, ap (window (cell (row_of t.queues i)) 0) one)

skipped :
    {t : Table} {r : ℕ × Table} (i p : ℕ)
    → Inv t
    → level t i ≡ []
    → Picks (suc i) p t r
    → Picks i p t r
skipped {t} i p v none_here (inl (all, a, b)) = inl (all', a, b)
  where
    all' : (l : ℕ) → i ≤ l → l < plevels → level t l ≡ []
    all' l h k = elim (ℕ_discrete l i) [
      | yes same ↦ rw same none_here
      | no other ↦ all l (omega arith) k
    ]
skipped {t} i p v none_here (inr (l, rest, heads, a, b, c, d)) = inr (
  l,
  rest,
  record {
    from = omega (arith, heads.from);
    in_range = heads.in_range;
    head = heads.head;
    above = above;
  },
  a,
  b,
  c,
  d,
)
  where
    above : (k : ℕ) → i ≤ k → k < l → level t k ≡ []
    above k h m = elim (ℕ_discrete k i) [
      | yes same ↦ rw same none_here
      | no other ↦ heads.above k (omega arith) m
    ]

-- The branch of the loop that takes the head of level `i`.
take_head :
    {t : Table} (i p : ℕ)
    → Inv t
    → i < plevels
    → 0 < count_of t.queues i
    → Returns (Picks i p t) (do
      row ← load t.queues.priority_q i
      q ← load row 0
      (res, t') ← remove_from_level q i t
      ok (q, t'))
take_head {t} i p v hi some_here =
    let (rest, e) = head_cell t i some_here in
    let q : ℕ = cell (row_of t.queues i) 0 in
    let hq : q < nproc = (subst (Below nproc) e (v.queues.slots i hi)).0 in
    rw
      (
        load-ok t.queues.priority_q i [] (omega (arith, v.queues.levels)),
        load-ok (row_of t.queues i) 0 null (omega (arith, v.queues.rows i hi)),
      )
      (Returns-bind _ _ (remove_from_level q i t) _ (remove_from_level_keeps (exempt v q) hq i hi)
        (λ (r : ℤ × Table) k. inr (
          i,
          rest,
          record {
            from = omega arith;
            in_range = hi;
            head = e;
            above = λ k a b. absurd (omega arith);
          },
          k.0,
          k.1.rest,
          k.1.updated
              ∙ ap (drop_pid (pid_in (pids t.procs)) (pid_in (pids t.procs) q)) e
              ∙ ground arith,
          k.1.others,
        )))

pick_from_lem :
    {t : Table} (rounds i p : ℕ)
    → Inv t
    → i + rounds ≡ plevels
    → Returns (Picks i p t) (pick_from rounds i p t)
unfolding pick_from
pick_from_lem zero i p v e = inl (λ l a b. absurd (omega arith), refl, refl)
pick_from_lem {t} (suc rounds) i p v e =
    rw (load-ok t.queues.marker i 0 (omega (arith, v.queues.markers)))
      (elim (Bool-cases (ltb 0 (count_of t.queues i))) [
        | inr none_here ↦ rw none_here (
            Returns-mono _ _ (pick_from rounds (suc i) p t)
              (pick_from_lem rounds (suc i) p v (omega arith))
              (λ r k. skipped i p v (nonempty t i (ground arith)) k))
        | inl some_here ↦ rw some_here (take_head i p v (omega arith) (ground arith))
      ])

-- One round of the scheduler. Either no level has a process and nothing happens; or the head of the
-- first non-empty level leaves its queue, and runs if it is runnable.
pub record Dispatched (t : Table) (l : ℕ) (rest : List ℕ) (r : Option ℕ × ℕ × Table) : Type 0 where
  pub heads : Heads t 0 l r.1 rest
  pub valid : Inv r.2
  pub taken : level r.2 l ≡ rest
  pub others : (k : ℕ) → k ≢ l → level r.2 k ≡ level t k
  pub runs : (proc_at t r.1).state ≡ runnable → r.0 ≡ some r.1
  pub drops : (proc_at t r.1).state ≢ runnable → (r.0 ≡ none) × (r.2.procs ≡ t.procs)
  pub slots :
      (j : ℕ)
      → proc_at r.2 j ≡ (
          if (r.1 == j) && is_runnable (proc_at t j).state
          then record (proc_at t j) { state = running }
          else proc_at t j)

abbrev pub Round : ℕ → Table → Option ℕ × ℕ × Table → Type 0
Round p t r =
    (((l : ℕ) → l < plevels → level t l ≡ []) × (r.0 ≡ none) × (r.1 ≡ p) × (r.2 ≡ t))
    ⊎ ((l : ℕ) × (rest : List ℕ) × Dispatched t l rest r)

-- Nothing runs where all levels are empty: the process of an earlier round, which the code still
-- has in `p`, is not runnable.
dispatch-none :
    {t : Table} (p : ℕ)
    → Inv t
    → p ≤ null
    → ((l : ℕ) → l < plevels → level t l ≡ [])
    → dispatch p t ≡ ok (none, t)
unfolding dispatch
dispatch-none {t} p v h all = elim (ℕ_discrete p null) [
  | yes e ↦ ground arith
  | no ne ↦
      let hp : p < nproc = omega arith in
      let idle : (proc_at t p).state ≢ runnable =
        λ run. let (l, hl, m) = v.queued p hp ne run in subst (In p) (all l hl) m in
      rw (load-slot t p v.size hp) (ground arith)
]

dispatch_head :
    {t : Table} (l q : ℕ) (rest : List ℕ) (t1 : Table)
    → Heads t 0 l q rest
    → q < nproc
    → InvBut q t1
    → t1 ≡ record t { queues = t1.queues }
    → level t1 l ≡ rest
    → ((k : ℕ) → k ≢ l → level t1 k ≡ level t k)
    → Returns (λ (r : Option ℕ × Table). Dispatched t l rest (r.0, q, r.1)) (dispatch q t1)
unfolding dispatch
dispatch_head {t} l q rest t1 heads hq v same taken others =
    let not_null : (q == null) ≡ false = ground arith in
    let at1 : (j : ℕ) → proc_at t1 j ≡ proc_at t j = λ j. ap (λ (s : Table). proc_at s j) same in
    rw (not_null, load-slot t1 q v.size hq)
      (elim (Bool-cases (is_runnable (proc_at t1 q).state)) [
        | inl run ↦
            rw (run, put-ok t1 q (record (proc_at t1 q) { state = running }) v.size hq)
              (record {
                heads = heads;
                valid =
                    written-InvBut v q hq (record (proc_at t1 q) { state = running }) null refl
                      (λ e. v.live q hq (λ z. ground arith)) (v.ranked q hq) (v.capped q hq)
                      (v.files q hq) (λ ne e. absurd (ground arith))
                      (λ j hj ne nn e. v.queued j hj ne e);
                taken = taken;
                others = others;
                runs = λ e. refl;
                drops = λ ne. absurd (ne (ground arith));
                slots = λ j.
                    proc_at-written t1 q j (record (proc_at t1 q) { state = running }) v.size hq
                    ∙ elim (Bool-cases (q == j)) [
                      | inl e ↦
                          let here : proc_at t1 q ≡ proc_at t j =
                            at1 q ∙ ap (proc_at t) ((==_iff q j).0 e) in
                          rw (e, ← here, run)
                      | inr e ↦ rw e (at1 j)
                    ];
              })
        | inr idle ↦ rw idle (record {
          heads = heads;
          valid = InvBut-null v (ground arith);
          taken = taken;
          others = others;
          runs = λ e. absurd (ground arith);
          drops = λ ne. (refl, ap (λ (s : Table). s.procs) same);
          slots = λ j. at1 j ∙ elim (Bool-cases (q == j)) [
            | inl e ↦
                let here : proc_at t1 q ≡ proc_at t j = at1 q ∙ ap (proc_at t) ((==_iff q j).0 e) in
                rw (e, ← here, idle)
            | inr e ↦ rw e
          ];
        })
      ])

-- On a well formed table a round of the priority scheduler returns. Where no level holds a process
-- it changes nothing; otherwise it takes the head of the first level that holds one, which then
-- runs if it was runnable and is dropped if not. The table stays well formed.
pub schedule_lem : {t : Table} (p : ℕ) → Inv t → p ≤ null → Returns (Round p t) (schedule p t)
unfolding schedule
schedule_lem {t} p v h =
    Returns-bind _ _ (pick_from plevels 0 p t) _ (pick_from_lem plevels 0 p v refl) dispatched
  where
    dispatched :
        (r : ℕ × Table)
        → Picks 0 p t r
        → Returns (Round p t) (do (chosen, t'') ← dispatch r.0 r.1; ok (chosen, r.0, t''))
    dispatched r (inl (all, same_p, same_t)) =
        rw (same_p, same_t, dispatch-none p v h (λ l k. all l (omega arith) k))
          (inl (λ l k. all l (omega arith) k, refl, refl, refl))
    dispatched r (inr (l, rest, heads, a, b, c, d)) =
        Returns-bind _ _ (dispatch r.0 r.1) _
          (dispatch_head l r.0 rest r.1 heads
            (subst (Below nproc) heads.head (v.queues.slots l heads.in_range)).0 a b c d)
          (λ (x : Option ℕ × Table) k. inr (l, rest, k))
