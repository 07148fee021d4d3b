-- ===== src/Queue/Refine.antt =====
-- The array routines of the priority queues implement the FIFO contract of `Queue.Spec`.
use nice_system_calls.Common.{
  ℕ, ◌+◌, ◌≤◌, ◌<◌, ◌≡◌, refl, sym, ap₂, subst, ◌∙◌, ◌≢◌, inl, inr, Bool, false, List, [], ◌∷◌,
  ◌++◌, arith, ◌==◌, if◌then◌else◌, Bool-cases, Option-cases, length, get_or, set, length-set,
  length-append, window, window_ext, window_snoc, length-window, ok, fault, load-ok, load-out,
  store-ok, get_or-set, Returns,
}
use native.Mathlib.Numerals.{add-one}
use nice_system_calls.Common.Int.{ℤ, pos, negsuc}
use nice_system_calls.Common.Distinct.{
  Below, Distinct, Distinct-length, Below-snoc, Distinct-snoc, In,
}
use nice_system_calls.Queue.{Queues, null, nproc, plevels, find_pid, add_process_to_queue}
use nice_system_calls.Queue.Spec.{has_pid, enqueue}
use nice_system_calls.Queue.Scan.{
  cell, pid_in, first_at, find_pid_lem, has_pid_missing, has_pid_found,
}

abbrev pub row_of : Queues → ℕ → List ℕ
row_of qs l = get_or qs.priority_q l []

abbrev pub count_of : Queues → ℕ → ℕ
count_of qs l = get_or qs.marker l 0

-- The processes that wait at a level, the next one first.
unfoldable pub contents : Queues → ℕ → List ℕ
contents qs l = window (cell (row_of qs l)) 0 (count_of qs l)

-- The arrays have their declared sizes, and a level holds slots of the table, none of them twice.
pub record IsQueues (qs : Queues) : Type 0 where
  pub levels : length qs.priority_q ≡ plevels
  pub markers : length qs.marker ≡ plevels
  pub rows : (l : ℕ) → l < plevels → length (row_of qs l) ≡ nproc
  pub slots : (l : ℕ) → l < plevels → Below nproc (contents qs l)
  pub distinct : (l : ℕ) → l < plevels → Distinct (contents qs l)

pub length-contents : (qs : Queues) (l : ℕ) → length (contents qs l) ≡ count_of qs l
unfolding contents
length-contents qs l = length-window (cell (row_of qs l)) 0 (count_of qs l)

-- In well formed queues the count of each of the 5 levels is at most 64, the number of cells of its
-- row.
pub marker-le-nproc : (qs : Queues) (l : ℕ) → IsQueues qs → l < plevels → count_of qs l ≤ nproc
marker-le-nproc qs l v h = omega (
  arith,
  length-contents qs l,
  Distinct-length nproc (contents qs l) (v.distinct l h) (v.slots l h),
)

-- What a routine has done to level `pr`: its reply, and the new queue of that level.
pub record Updates (qs : Queues) (pr : ℕ) (queue : List ℕ) (reply : ℤ) (r : ℤ × Queues)
    : Type 0 where
  pub valid : IsQueues r.1
  pub replied : r.0 ≡ reply
  pub updated : contents r.1 pr ≡ queue
  pub others : (l : ℕ) → l ≢ pr → contents r.1 l ≡ contents qs l

-- The queues with the row and the count of level `pr` put in.
abbrev pub put_level : Queues → ℕ → List ℕ → ℕ → Queues
put_level qs pr row count = record {
  priority_q = set qs.priority_q pr row;
  marker = set qs.marker pr count;
}

module _ (qs : Queues) (row : List ℕ) (count pr : ℕ) (v : IsQueues qs) (h : pr < plevels) where
  abbrev pub replaced : Queues
  replaced = put_level qs pr row count

  row-replaced : (l : ℕ) → row_of replaced l ≡ (if pr == l then row else row_of qs l)
  row-replaced l = get_or-set qs.priority_q pr l row [] (omega (arith, v.levels))

  contents-replaced :
      (l : ℕ) → contents replaced l ≡ (if pr == l then window (cell row) 0 count else contents qs l)
  unfolding contents
  contents-replaced l = elim (Bool-cases (pr == l)) [
    | inl same ↦
        rw (row-replaced l, get_or-set qs.marker pr l count 0 (omega (arith, v.markers)), same)
    | inr other ↦
        rw (row-replaced l, get_or-set qs.marker pr l count 0 (omega (arith, v.markers)), other)
  ]

  -- A level whose new queue is sound can be put in place of the old one.
  pub replaced-Updates :
      (queue : List ℕ) (reply : ℤ)
      → length row ≡ nproc
      → window (cell row) 0 count ≡ queue
      → Below nproc queue
      → Distinct queue
      → Updates qs pr queue reply (reply, replaced)
  replaced-Updates queue reply len e b d = record {
    valid = record {
      levels = length-set qs.priority_q pr row ∙ v.levels;
      markers = length-set qs.marker pr count ∙ v.markers;
      rows = λ l k. ground (arith, row-replaced l, v.rows l k);
      slots = λ l k. level (Below nproc) b l (v.slots l k);
      distinct = λ l k. level Distinct d l (v.distinct l k);
    };
    replied = refl;
    updated = ground (arith, contents-replaced pr);
    others = λ l ne. ground (arith, contents-replaced l);
  }
    where
      level :
          (P : List ℕ → Type 0) → P queue → (l : ℕ) → P (contents qs l) → P (contents replaced l)
      level P new l old = elim (Bool-cases (pr == l)) [
        | inl same ↦ rw (contents-replaced l, same, e) new
        | inr other ↦ rw (contents-replaced l, other) old
      ]

-- A process that is not in a list of pairwise different ones is not there under its pid.
pub absent :
    (pid_of : ℕ → ℕ) (p : ℕ) (queue : List ℕ)
    → has_pid pid_of (pid_of p) queue ≡ false
    → ¬ In p queue
absent pid_of p (q ∷ queue) e (inl same) = ground arith
absent pid_of p (q ∷ queue) e (inr later) = absent pid_of p queue (ground arith) later
absent pid_of p [] e h = h

-- One more cell, written just past the queue.
window_append :
    (row : List ℕ) (n p : ℕ)
    → n < length row
    → window (cell (set row n p)) 0 (n + 1) ≡ window (cell row) 0 n ++ p ∷ []
window_append row n p h = rw add-one (
    window_snoc (cell (set row n p)) 0 n
    ∙ ap₂ (λ (l : List ℕ) (x : ℕ). l ++ x ∷ [])
        (window_ext (cell (set row n p)) (cell row) 0 n
          (λ k a b. ground (arith, get_or-set row n k p null)))
        (ground (arith, get_or-set row n (0 + n) p null)))

module _ (pids : List ℕ) (p pr : ℕ) (qs : Queues) (v : IsQueues qs) where
  abbrev pub waits : Bool
  waits = has_pid (pid_in pids) (pid_in pids p) (contents qs pr)

  -- The search of both routines.
  pub search :
      length pids ≡ nproc
      → pr < plevels
      → find_pid pids (row_of qs pr) (pid_in pids p) (count_of qs pr) 0
        ≡ ok (first_at (pid_in pids) (pid_in pids p) (contents qs pr) 0)
  unfolding contents
  search len hl =
      find_pid_lem pids (row_of qs pr) (pid_in pids p) (count_of qs pr) 0
        (omega (arith, marker-le-nproc qs pr v hl, v.rows pr hl))
        (subst (λ n. Below n (contents qs pr)) (sym len) (v.slots pr hl))

  pub unchanged : Updates qs pr (contents qs pr) (negsuc 0) (negsuc 0, qs)
  unchanged = record { valid = v; replied = refl; updated = refl; others = λ l ne. refl }

  -- A process that does not wait yet finds a free cell.
  room : p < nproc → pr < plevels → waits ≡ false → count_of qs pr < nproc
  room hp hl miss =
      let more : List ℕ = contents qs pr ++ p ∷ [] in
      omega (
        arith,
        length-contents qs pr,
        length-append (contents qs pr) (p ∷ []),
        Distinct-length nproc more
            (Distinct-snoc p (contents qs pr) (v.distinct pr hl)
              (absent (pid_in pids) p (contents qs pr) miss))
            (Below-snoc p nproc (contents qs pr) (v.slots pr hl) hp),
      )

  abbrev grown : List ℕ
  grown = set (row_of qs pr) (count_of qs pr) p

  added :
      p < nproc
      → pr < plevels
      → waits ≡ false
      → Updates qs pr
          (contents qs pr ++ p ∷ [])
          (pos 1)
          (pos 1, put_level qs pr grown (count_of qs pr + 1))
  unfolding contents
  added hp hl miss =
      replaced-Updates qs grown (count_of qs pr + 1) pr v hl (contents qs pr ++ p ∷ []) (pos 1)
        (length-set (row_of qs pr) (count_of qs pr) p ∙ v.rows pr hl)
        (window_append (row_of qs pr) (count_of qs pr) p
          (omega (arith, room hp hl miss, v.rows pr hl)))
        (Below-snoc p nproc (contents qs pr) (v.slots pr hl) hp)
        (Distinct-snoc p (contents qs pr) (v.distinct pr hl)
          (absent (pid_in pids) p (contents qs pr) miss))

  -- On well formed queues, for a slot of the table and one of the 5 levels, `add_process_to_queue`
  -- returns: it puts the process at the end of its level and replies 1, or finds its pid there,
  -- changes nothing and replies -1. The queues stay well formed and the other levels are as before.
  pub add_process_to_queue_lem :
      length pids ≡ nproc
      → p < nproc
      → pr < plevels
      → Returns
          (Updates qs pr
            (enqueue (pid_in pids) p (contents qs pr))
            (if waits then negsuc 0 else pos 1))
          (add_process_to_queue pids p pr qs)
  unfolding add_process_to_queue
  add_process_to_queue_lem len hp hl =
      let stored : length (row_of qs pr) ≡ nproc = v.rows pr hl in
      rw
        (
          load-ok qs.marker pr 0 (omega (arith, v.markers)),
          load-ok qs.priority_q pr [] (omega (arith, v.levels)),
          load-ok pids p 0 (omega arith),
          search len hl,
        )
        (elim (Option-cases (first_at (pid_in pids) (pid_in pids p) (contents qs pr) 0)) [
          | inl e ↦
              let miss : waits ≡ false =
                has_pid_missing (pid_in pids) (pid_in pids p) (contents qs pr) 0 e in
              rw
                (
                  e,
                  miss,
                  store-ok (row_of qs pr) (count_of qs pr) p (omega (arith, room hp hl miss)),
                  store-ok qs.priority_q pr grown (omega (arith, v.levels)),
                  store-ok qs.marker pr (count_of qs pr + 1) (omega (arith, v.markers)),
                )
                (added hp hl miss)
          | inr (i, e) ↦ rw (e, has_pid_found _ _ _ 0 i e) unchanged
        ])

pub add_process_to_queue-out :
    (pids : List ℕ) (p pr : ℕ) (qs : Queues)
    → length qs.marker ≤ pr
    → add_process_to_queue pids p pr qs ≡ fault
unfolding add_process_to_queue
add_process_to_queue-out pids p pr qs h = rw (load-out qs.marker pr h)
