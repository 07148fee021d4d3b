-- ===== src/Queue/Remove.antt =====
-- `remove_process_from_queue` implements `drop_pid` of `Queue.Spec`.
use nice_system_calls.Common.{
  ℕ, suc, ◌-◌, ◌≤◌, ◌<◌, ◌≡◌, sym, subst, ◌∙◌, ◌≢◌, inl, inr, false, List, [], ◌∷◌, some, arith,
  if◌then◌else◌, Option-cases, length, window, length-window, ok, load-ok, store-ok, Returns,
}
use nice_system_calls.Common.Int.{pos, negsuc}
use nice_system_calls.Common.Distinct.{Below, Distinct, In}
use nice_system_calls.Queue.{Queues, nproc, plevels, shift_down, remove_process_from_queue}
use nice_system_calls.Queue.Spec.{drop_pid}
use nice_system_calls.Queue.Scan.{
  cell, pid_in, first_at, has_pid_missing, shift_down_lem, window_shifted, first_at_range,
  has_pid_found, drop_pid_absent,
}
use nice_system_calls.Queue.Refine.{
  IsQueues, Updates, contents, row_of, count_of, length-contents, marker-le-nproc, replaced-Updates,
  search, unchanged, waits,
}

pub In-drop_pid :
    (pid_of : ℕ → ℕ) (pid a : ℕ) (qs : List ℕ) → In a (drop_pid pid_of pid qs) → In a qs
In-drop_pid pid_of pid a [] h = h
In-drop_pid pid_of pid a (q ∷ qs) h = ground (arith, In-drop_pid pid_of pid a qs)

-- Processes with other pids stay.
pub In-drop_pid_other :
    (pid_of : ℕ → ℕ) (pid a : ℕ) (qs : List ℕ)
    → pid_of a ≢ pid
    → In a qs
    → In a (drop_pid pid_of pid qs)
In-drop_pid_other pid_of pid a [] ne h = h
In-drop_pid_other pid_of pid a (q ∷ qs) ne h = ground (arith, In-drop_pid_other pid_of pid a qs ne)

pub Below-drop_pid :
    (pid_of : ℕ → ℕ) (pid n : ℕ) (qs : List ℕ) → Below n qs → Below n (drop_pid pid_of pid qs)
Below-drop_pid pid_of pid n [] h = tt
Below-drop_pid pid_of pid n (q ∷ qs) h = ground (arith, Below-drop_pid pid_of pid n qs h.1)

pub Distinct-drop_pid :
    (pid_of : ℕ → ℕ) (pid : ℕ) (qs : List ℕ) → Distinct qs → Distinct (drop_pid pid_of pid qs)
Distinct-drop_pid pid_of pid [] h = tt
Distinct-drop_pid pid_of pid (q ∷ qs) h =
    ground (arith, Distinct-drop_pid pid_of pid qs h.1, In-drop_pid pid_of pid q qs)

-- Removal of the process at position `i` of a row that holds `suc last` of them.
closes_up :
    (pid_of : ℕ → ℕ) (pid : ℕ) (old : List ℕ) (last i : ℕ)
    → suc last ≤ length old
    → first_at pid_of pid (window (cell old) 0 (suc last)) 0 ≡ some i
    → (row : List ℕ) × (shift_down old (last - i) i ≡ ok row)
      × (length row ≡ length old)
      × (window (cell row) 0 last ≡ drop_pid pid_of pid (window (cell old) 0 (suc last)))
closes_up pid_of pid old last i h e =
    let range = first_at_range pid_of pid (window (cell old) 0 (suc last)) 0 i e in
    let bound : i < suc last = omega (arith, length-window (cell old) 0 (suc last)) in
    let (row, run, len, cells) = shift_down_lem old (last - i) i (omega arith) in
    (
      row,
      run,
      len,
      window_shifted pid_of pid (cell old) (cell row) last 0 i e (λ k a. ground (arith, cells k))
          (λ k a b. ground (arith, cells k)),
    )

module _ (pids : List ℕ) (p pr : ℕ) (qs : Queues) (v : IsQueues qs) where
  abbrev pub remaining : List ℕ
  remaining = drop_pid (pid_in pids) (pid_in pids p) (contents qs pr)

  abbrev last : ℕ
  last = count_of qs pr - 1

  closes_up_level :
      (i : ℕ)
      → pr < plevels
      → first_at (pid_in pids) (pid_in pids p) (contents qs pr) 0 ≡ some i
      → (row : List ℕ) × (shift_down (row_of qs pr) (last - i) i ≡ ok row)
        × (length row ≡ nproc)
        × (window (cell row) 0 last ≡ remaining)
  unfolding contents
  closes_up_level i hl e =
      let range = first_at_range (pid_in pids) (pid_in pids p) (contents qs pr) 0 i e in
      let one : count_of qs pr ≡ suc last = omega (arith, length-contents qs pr) in
      let found =
        subst
          (λ n.
            first_at (pid_in pids) (pid_in pids p) (window (cell (row_of qs pr)) 0 n) 0 ≡ some i)
          one e in
      let (row, run, len, same) =
        closes_up (pid_in pids) (pid_in pids p) (row_of qs pr) last i
          (omega (arith, marker-le-nproc qs pr v hl, v.rows pr hl)) found in
      (
        row,
        run,
        len ∙ v.rows pr hl,
        subst
            (λ n.
              window (cell row) 0 last
              ≡ drop_pid (pid_in pids) (pid_in pids p) (window (cell (row_of qs pr)) 0 n))
            (sym one) same,
      )

  -- On well formed queues, for a slot of the table and one of the 5 levels,
  -- `remove_process_from_queue` returns: it takes the first process with the pid out of the level,
  -- keeps the order of the others and replies 1, or finds none and replies -1. The queues stay well
  -- formed and the other levels are as before.
  pub remove_process_from_queue_lem :
      length pids ≡ nproc
      → p < nproc
      → pr < plevels
      → Returns
          (Updates qs pr remaining (if waits pids p pr qs v then pos 1 else negsuc 0))
          (remove_process_from_queue pids p pr qs)
  unfolding remove_process_from_queue
  remove_process_from_queue_lem len hp hl =
      rw
        (
          load-ok qs.marker pr 0 (omega (arith, v.markers)),
          load-ok qs.priority_q pr [] (omega (arith, v.levels)),
          load-ok pids p 0 (omega arith),
          search pids p pr qs v len hl,
        )
        (elim (Option-cases (first_at (pid_in pids) (pid_in pids p) (contents qs pr) 0)) [
          | inl e ↦
              let miss : waits pids p pr qs v ≡ false =
                has_pid_missing (pid_in pids) (pid_in pids p) (contents qs pr) 0 e in
              rw (e, miss, drop_pid_absent (pid_in pids) (pid_in pids p) (contents qs pr) miss)
                (unchanged pids p pr qs v)
          | inr (i, e) ↦
              let (row, run, size, same) = closes_up_level i hl e in
              rw
                (
                  e,
                  has_pid_found (pid_in pids) (pid_in pids p) (contents qs pr) 0 i e,
                  run,
                  store-ok qs.priority_q pr row (omega (arith, v.levels)),
                  store-ok qs.marker pr (count_of qs pr - 1) (omega (arith, v.markers)),
                )
                (replaced-Updates qs row last pr v hl remaining (pos 1) size same
                  (Below-drop_pid (pid_in pids) (pid_in pids p) nproc (contents qs pr)
                    (v.slots pr hl))
                  (Distinct-drop_pid (pid_in pids) (pid_in pids p) (contents qs pr)
                    (v.distinct pr hl)))
        ])
