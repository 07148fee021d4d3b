-- ===== src/Queue/Scan.antt =====
-- The two loops over a row of `priority_q`: the search for a pid, and the shift after a removal.
use nice_system_calls.Common.{
  ℕ, zero, suc, ◌+◌, ◌≤◌, ◌<◌, ◌≡◌, refl, ap₂, ◌∙◌, inl, inr, true, false, List, [], ◌∷◌, Option,
  none, some, arith, ltb, leb, ◌==◌, if◌then◌else◌, Bool-cases, ◌&&◌, length, get_or, set,
  length-set, window, ok, load-ok, store-ok, get_or-set,
}
use nice_system_calls.Common.Distinct.{Below}
use nice_system_calls.Queue.{null, find_pid, shift_down}
use nice_system_calls.Queue.Spec.{has_pid, drop_pid}

-- The position of the first process with this pid, counted from `i`.
abbrev pub first_at : (ℕ → ℕ) → ℕ → List ℕ → ℕ → Option ℕ
first_at pid_of pid [] i = none
first_at pid_of pid (q ∷ qs) i = if pid_of q == pid then some i else first_at pid_of pid qs (suc i)

abbrev pub cell : List ℕ → ℕ → ℕ
cell row k = get_or row k null

abbrev pub pid_in : List ℕ → ℕ → ℕ
pid_in pids q = get_or pids q 0

-- The search reads inside the row and finds the first process with the pid.
pub find_pid_lem :
    (pids row : List ℕ) (pid n i : ℕ)
    → i + n ≤ length row
    → Below (length pids) (window (cell row) i n)
    → find_pid pids row pid n i ≡ ok (first_at (pid_in pids) pid (window (cell row) i n) i)
unfolding find_pid
find_pid_lem pids row pid zero i h b = refl
find_pid_lem pids row pid (suc n) i h b =
    rw
      (
        load-ok row i null (omega arith),
        load-ok pids (cell row i) 0 b.0,
        find_pid_lem pids row pid n (suc i) (omega arith) b.1,
      )
      (ground arith)

pub has_pid_missing :
    (pid_of : ℕ → ℕ) (pid : ℕ) (qs : List ℕ) (i : ℕ)
    → first_at pid_of pid qs i ≡ none
    → has_pid pid_of pid qs ≡ false
has_pid_missing pid_of pid [] i h = refl
has_pid_missing pid_of pid (q ∷ qs) i h = ground (arith, has_pid_missing pid_of pid qs (suc i))

-- The shift reads and writes inside the row, and moves `n` cells one place down.
pub shift_down_lem :
    (row : List ℕ) (n j : ℕ)
    → j + n < length row
    → (row' : List ℕ) × (shift_down row n j ≡ ok row')
      × (length row' ≡ length row)
      × ((k : ℕ)
          → cell row' k ≡ (if leb j k && ltb k (j + n) then cell row (suc k) else cell row k))
unfolding shift_down
shift_down_lem row zero j h = (row, refl, refl, λ k. ground arith)
shift_down_lem row (suc n) j h =
    let row1 : List ℕ = set row j (cell row (suc j)) in
    let (row', e, l, f) =
      shift_down_lem row1 n (suc j) (omega (arith, length-set row j (cell row (suc j)))) in
    (
      row',
      rw (load-ok row (suc j) null (omega arith), store-ok row j (cell row (suc j)) (omega arith))
          e,
      l ∙ length-set row j (cell row (suc j)),
      λ k. ground (
        arith,
        f k,
        get_or-set row j k (cell row (suc j)) null,
        get_or-set row j (suc k) (cell row (suc j)) null,
      ),
    )

pub first_at_range :
    (pid_of : ℕ → ℕ) (pid : ℕ) (qs : List ℕ) (i j : ℕ)
    → first_at pid_of pid qs i ≡ some j
    → (i ≤ j) × (j < i + length qs)
first_at_range pid_of pid [] i j h = cc
first_at_range pid_of pid (q ∷ qs) i j h = ground (arith, first_at_range pid_of pid qs (suc i) j)

pub has_pid_found :
    (pid_of : ℕ → ℕ) (pid : ℕ) (qs : List ℕ) (i j : ℕ)
    → first_at pid_of pid qs i ≡ some j
    → has_pid pid_of pid qs ≡ true
has_pid_found pid_of pid [] i j h = cc
has_pid_found pid_of pid (q ∷ qs) i j h = ground (arith, has_pid_found pid_of pid qs (suc i) j)

pub drop_pid_absent :
    (pid_of : ℕ → ℕ) (pid : ℕ) (qs : List ℕ)
    → has_pid pid_of pid qs ≡ false
    → drop_pid pid_of pid qs ≡ qs
drop_pid_absent pid_of pid [] h = refl
drop_pid_absent pid_of pid (q ∷ qs) h = ground (arith, drop_pid_absent pid_of pid qs)

-- A stretch of cells moved one place down.
window_down :
    (f g : ℕ → ℕ) (i n : ℕ)
    → ((k : ℕ) → i ≤ k → k < i + n → g k ≡ f (suc k))
    → window g i n ≡ window f (suc i) n
window_down f g i zero h = refl
window_down f g i (suc n) h =
    ap₂ ◌∷◌ (h i (omega arith) (omega arith))
      (window_down f g (suc i) n (λ k a b. h k (omega arith) (omega arith)))

-- Where the search finds the pid, the cells below it and those above it, one place down, are the
-- queue without the process.
pub window_shifted :
    (pid_of : ℕ → ℕ) (pid : ℕ) (f g : ℕ → ℕ) (n i j : ℕ)
    → first_at pid_of pid (window f i (suc n)) i ≡ some j
    → ((k : ℕ) → k < j → g k ≡ f k)
    → ((k : ℕ) → j ≤ k → k < i + n → g k ≡ f (suc k))
    → window g i n ≡ drop_pid pid_of pid (window f i (suc n))
window_shifted pid_of pid f g zero i j h low high = ground arith
window_shifted pid_of pid f g (suc m) i j h low high = elim (Bool-cases (pid_of (f i) == pid)) [
  | inl hit ↦ rw hit (window_down f g i (suc m) (λ k a b. high k (ground arith) b))
  | inr miss ↦
      let later : first_at pid_of pid (window f (suc i) (suc m)) (suc i) ≡ some j = ground arith in
      let range = first_at_range pid_of pid (window f (suc i) (suc m)) (suc i) j later in
      rw miss (
        ap₂ ◌∷◌ (low i (omega arith))
          (window_shifted pid_of pid f g m (suc i) j later low (λ k a b. high k a (omega arith))))
]
