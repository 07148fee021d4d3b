-- ===== src/Log/Commit.antt =====
-- What the disk is before each write of `commit` and of `recover_from_log`.
use nice_system_calls.Common.{
  ℕ, suc, ◌+◌, ◌≤◌, ◌<◌, ◌≡◌, refl, sym, ap, subst, ◌∙◌, ◌⊎◌, inl, inr, true, false, List, [], ◌∷◌,
  none, arith, ltb, ◌==◌, length, get_or, Bool-cases, ℕ_discrete,
}
use nice_system_calls.Log.{
  Log, Block, Disk, Store, bread, bwrite, head_block, read_blocks, read_head, install_from,
  write_head, write_from, write_log, commit, recover_from_log,
}
use nice_system_calls.Log.Disks.{
  AllDisks, AllDisks-mono, IsHome, AllHome, Quiet, Armed, done_disk, read-head_block,
}
use nice_system_calls.Log.Install.{Installing, install_trans-Installing, clear-Quiet}

-- The disks from which recovery leads to the whole transaction or to none of it.
abbrev pub Recoverable : ℕ → ℕ → List ℕ → Disk → Disk → Disk → Type 0
Recoverable start size blocks goal old d =
    Quiet start size old d
    ⊎ (Armed start size blocks goal old d ⊎ Quiet start size (done_disk blocks goal old) d)

bread-bwrite_ne :
    (b c : ℕ) (content : Block) (s : Store)
    → (b == c) ≡ false
    → bread b (bwrite c content s) ≡ bread b s
bread-bwrite_ne b c content s ne = ground (arith, ne)

module _ (start size : ℕ) (blocks : List ℕ) (goal old : Disk) (homes : AllHome start size blocks)
    (fits : length blocks < size) where
  -- The first `n` blocks of the transaction stand in the log, whose header is still empty.
  record Logging (n : ℕ) (s : Store) : Type 0 where
    quiet : Quiet start size old s.disk
    history : AllDisks (Quiet start size old) s.history
    view : (b : ℕ) → IsHome start size b → bread b s ≡ goal b
    clear : (k : ℕ) → k < n → s.cached (start + k + 1) ≡ none
    slots : (k : ℕ) → k < n → s.disk (start + k + 1) ≡ goal (get_or blocks k 0)

  log_one :
      (n : ℕ) (s : Store)
      → n < length blocks
      → Logging n s
      → Logging (suc n) (bwrite (start + n + 1) (bread (get_or blocks n 0) s) s)
  log_one n s h l = record {
    quiet = record {
      empty = (let ne : (start == start + n + 1) ≡ false = ground arith in rw ne l.quiet.empty);
      same = λ b hb.
          (let ne : (b == start + n + 1) ≡ false = ground (arith, hb) in rw ne (l.quiet.same b hb));
    };
    history = (l.quiet, l.history);
    view = λ b hb.
        (let ne : (b == start + n + 1) ≡ false = ground (arith, hb) in
          bread-bwrite_ne b (start + n + 1) (bread (get_or blocks n 0) s) s ne ∙ l.view b hb);
    clear = λ k lt. elim (ℕ_discrete k n) [
      | yes e ↦ ground (arith, e)
      | no ne ↦
          (let other : (start + k + 1 == start + n + 1) ≡ false = ground arith in
            rw other (l.clear k (omega arith)))
    ];
    slots = λ k lt. elim (ℕ_discrete k n) [
      | yes e ↦
          (let same : (start + k + 1 == start + n + 1) ≡ true = ground arith in
            rw same
              (l.view (get_or blocks n 0) (homes n h) ∙ ap (λ m. goal (get_or blocks m 0)) (sym e)))
      | no ne ↦
          (let other : (start + k + 1 == start + n + 1) ≡ false = ground arith in
            rw other (l.slots k (omega arith)))
    ];
  }

  log_rest :
      (bs : List ℕ) (n : ℕ) (s : Store)
      → n + length bs ≡ length blocks
      → ((j : ℕ) → j < length bs → get_or bs j 0 ≡ get_or blocks (n + j) 0)
      → Logging n s
      → Logging (length blocks) (write_from start n bs s)
  unfolding write_from
  log_rest [] n s e same l =
      (let all : n ≡ length blocks = omega arith in subst (λ m. Logging m s) all l)
  log_rest (b ∷ bs) n s e same l =
      let here : n + 0 ≡ n = omega arith in
      let first : get_or blocks n 0 ≡ b =
        ap (λ m. get_or blocks m 0) (sym here) ∙ sym (same 0 (omega arith)) in
      log_rest bs (suc n) (bwrite (start + n + 1) (bread b s) s) (omega arith)
        (λ j h. same (suc j) (omega arith) ∙ ap (λ m. get_or blocks m 0) (omega arith))
        (subst (λ c. Logging (suc n) (bwrite (start + n + 1) (bread c s) s)) first
          (log_one n s (omega arith) l))

  -- Writing the header commits.
  head-Installing :
      (s : Store)
      → Logging (length blocks) s
      → Installing start size blocks goal old
          (Recoverable start size blocks goal old)
          homes
          fits
          (λ d a. inr (inl a))
          0
          (write_head start blocks s)
  unfolding write_head
  head-Installing s l = record {
    armed = record {
      head =
          (let e : (start == start) ≡ true = ground arith in
            rw e (read-head_block blocks (bread start s)));
      logged = λ k lt.
          (let ne : (start + k + 1 == start) ≡ false = ground arith in rw ne (l.slots k lt));
      rest = λ b hb e.
          (let ne : (b == start) ≡ false = ground (arith, hb) in rw ne (l.quiet.same b hb));
    };
    history = (inl l.quiet, AllDisks-mono _ _ s.history (λ d q. inl q) l.history);
    slots =
        λ k lt. (let ne : (start + k + 1 == start) ≡ false = ground arith in rw ne (l.clear k lt));
    home = λ k lt. absurd (omega arith);
  }

  pub commit-Recoverable :
      (log : Log) (s : Store)
      → log.start ≡ start
      → log.blocks ≡ blocks
      → Quiet start size old s.disk
      → AllDisks (Quiet start size old) s.history
      → ((b : ℕ) → IsHome start size b → bread b s ≡ goal b)
      → (Recoverable start size blocks goal old (commit log s).1.disk)
        × AllDisks (Recoverable start size blocks goal old) (commit log s).1.history
  unfolding commit
  commit-Recoverable log s es eb q past view =
      rw (es, eb)
        (elim (Bool-cases (ltb 0 (length blocks))) [
          | inr nothing ↦ rw nothing (inl q, AllDisks-mono _ _ s.history (λ d q. inl q) past)
          | inl some_blocks ↦
              let logged =
                log_rest blocks 0 s (omega arith) (λ j h. ap (λ m. get_or blocks m 0) (omega arith))
                  (record {
                    quiet = q;
                    history = past;
                    view = view;
                    clear = λ k h. absurd (omega arith);
                    slots = λ k h. absurd (omega arith);
                  }) in
              let committed = head-Installing (write_log start blocks s) logged in
              let whole =
                install_trans-Installing start size blocks goal old
                  (Recoverable start size blocks goal old) homes fits (λ d a. inr (inl a))
                  (write_head start blocks (write_log start blocks s)) committed in
              let cleared =
                clear-Quiet start size blocks goal old (Recoverable start size blocks goal old)
                  homes fits (λ d a. inr (inl a)) _ whole in
              rw some_blocks (inr (inr cleared.0), cleared.1)
        ])

-- A computer that starts: nothing is in the cache.
abbrev pub restart : Disk → Store
restart d = record { disk = d; cached = λ b. none; history = [] }

recovery-Quiet :
    (start size : ℕ) (old d : Disk)
    → 1 ≤ size
    → Quiet start size old d
    → Quiet start size old (recover_from_log start (restart d)).disk
      × AllDisks (Quiet start size old) (recover_from_log start (restart d)).history
unfolding recover_from_log read_head read_blocks write_head install_from head_block
recovery-Quiet start size old d pos q = rw (q.empty) (
  record {
    empty = ground arith;
    same = λ b hb. (let ne : (b == start) ≡ false = ground (arith, hb) in rw ne (q.same b hb));
  },
  (q, tt),
)

recovery-Armed :
    (start size : ℕ) (blocks : List ℕ) (goal old d : Disk)
    → AllHome start size blocks
    → length blocks < size
    → Armed start size blocks goal old d
    → Quiet start size (done_disk blocks goal old) (recover_from_log start (restart d)).disk
      × AllDisks
          (Recoverable start size blocks goal old)
          (recover_from_log start (restart d)).history
unfolding recover_from_log read_head
recovery-Armed start size blocks goal old d homes fits a =
    let P : Disk → Type 0 = Recoverable start size blocks goal old in
    let begun : Installing start size blocks goal old P homes fits (λ d a. inr (inl a)) 0
        (restart d) =
      record { armed = a; history = tt; slots = λ k h. refl; home = λ k h. absurd (omega arith) } in
    let whole =
      install_trans-Installing start size blocks goal old P homes fits (λ d a. inr (inl a))
        (restart d) begun in
    rw (a.head) (clear-Quiet start size blocks goal old P homes fits (λ d a. inr (inl a)) _ whole)

-- After recovery the disk holds the whole transaction or none of it, and a crash on the way leaves a
-- disk from which recovery leads there again.
pub recover_lem :
    (start size : ℕ) (blocks : List ℕ) (goal old d : Disk)
    → AllHome start size blocks
    → length blocks < size
    → Recoverable start size blocks goal old d
    → (Quiet start size old (recover_from_log start (restart d)).disk
        ⊎ Quiet start size (done_disk blocks goal old) (recover_from_log start (restart d)).disk)
      × AllDisks
          (Recoverable start size blocks goal old)
          (recover_from_log start (restart d)).history
recover_lem start size blocks goal old d homes fits (inl q) =
    let (a, b) = recovery-Quiet start size old d (omega arith) q in
    (inl a, AllDisks-mono _ _ (recover_from_log start (restart d)).history (λ d q. inl q) b)
recover_lem start size blocks goal old d homes fits (inr (inl a)) =
    let (q, b) = recovery-Armed start size blocks goal old d homes fits a in (inr q, b)
recover_lem start size blocks goal old d homes fits (inr (inr q)) =
    let (a, b) = recovery-Quiet start size (done_disk blocks goal old) d (omega arith) q in
    (inr a, AllDisks-mono _ _ (recover_from_log start (restart d)).history (λ d q. inr (inr q)) b)
