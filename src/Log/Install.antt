-- ===== src/Log/Install.antt =====
-- `install_trans` copies the transaction home, and a crash on the way leaves the log as it is.
use nice_system_calls.Common.{
  ℕ, suc, ◌+◌, ◌<◌, ◌≡◌, sym, ap, subst, ◌∙◌, inl, inr, false, List, [], ◌∷◌, none, arith, ◌==◌,
  length, get_or, Bool-cases, ℕ_discrete,
}
use nice_system_calls.Log.{
  Disk, Store, bread, bwrite, head_block, install_from, install_trans, write_head,
}
use nice_system_calls.Log.Disks.{
  AllDisks, is_in, is_in_get, get_of_is_in, AllHome, Quiet, Armed, done_disk,
}

module _ (start size : ℕ) (blocks : List ℕ) (goal old : Disk) (past : Disk → Type 0)
    (homes : AllHome start size blocks) (fits : length blocks < size)
    (armed_past : (d : Disk) → Armed start size blocks goal old d → past d) where
  -- The first `n` blocks of the transaction are home.
  pub record Installing (n : ℕ) (s : Store) : Type 0 where
    pub armed : Armed start size blocks goal old s.disk
    pub history : AllDisks past s.history
    pub slots : (k : ℕ) → k < length blocks → s.cached (start + k + 1) ≡ none
    pub home : (k : ℕ) → k < n → s.disk (get_or blocks k 0) ≡ goal (get_or blocks k 0)

  install_one :
      (n : ℕ) (s : Store)
      → n < length blocks
      → Installing n s
      → Installing (suc n) (bwrite (get_or blocks n 0) (bread (start + n + 1) s) s)
  install_one n s h i =
      let b = get_or blocks n 0 in
      let content : bread (start + n + 1) s ≡ goal b =
        (let e = i.slots n h in rw (e, bread) (i.armed.logged n h)) in
      let out = homes n h in
      record {
        armed = record {
          head = (let ne : (start == b) ≡ false = ground (arith, out) in rw ne i.armed.head);
          logged = λ k lt.
              (let ne : (start + k + 1 == b) ≡ false = ground (arith, out) in
                rw ne (i.armed.logged k lt));
          rest = λ c hc e.
              (let ne : (c == b) ≡ false = ground (arith, is_in_get blocks n, e) in
                rw ne (i.armed.rest c hc e));
        };
        history = (armed_past s.disk i.armed, i.history);
        slots = λ k lt.
            (let ne : (start + k + 1 == b) ≡ false = ground (arith, out) in rw ne (i.slots k lt));
        home = λ k lt. elim (Bool-cases (get_or blocks k 0 == b)) [
          | inl e ↦
              (let same : get_or blocks k 0 ≡ b = ground arith in
                rw e (content ∙ ap goal (sym same)))
          | inr e ↦
              (let earlier : k < n = elim (ℕ_discrete k n) [
                | yes same ↦ absurd (ground (arith, ap (λ j. get_or blocks j 0) same))
                | no ne ↦ omega arith
              ] in
                rw e (i.home k earlier))
        ];
      }

  install_rest :
      (bs : List ℕ) (n : ℕ) (s : Store)
      → n + length bs ≡ length blocks
      → ((j : ℕ) → j < length bs → get_or bs j 0 ≡ get_or blocks (n + j) 0)
      → Installing n s
      → Installing (length blocks) (install_from start n bs s)
  unfolding install_from
  install_rest [] n s e same i =
      (let all : n ≡ length blocks = omega arith in subst (λ m. Installing m s) all i)
  install_rest (b ∷ bs) n s e same i =
      let here : n + 0 ≡ n = omega arith in
      let first : get_or blocks n 0 ≡ b =
        ap (λ m. get_or blocks m 0) (sym here) ∙ sym (same 0 (omega arith)) in
      install_rest bs (suc n) (bwrite b (bread (start + n + 1) s) s) (omega arith)
        (λ j h. same (suc j) (omega arith) ∙ ap (λ m. get_or blocks m 0) (omega arith))
        (subst (λ c. Installing (suc n) (bwrite c (bread (start + n + 1) s) s)) first
          (install_one n s (omega arith) i))

  pub install_trans-Installing :
      (s : Store) → Installing 0 s → Installing (length blocks) (install_trans start blocks s)
  install_trans-Installing s i =
      install_rest blocks 0 s (omega arith) (λ j h. ap (λ m. get_or blocks m 0) (omega arith)) i

  -- Once all is home, an empty header ends the transaction.
  pub clear-Quiet :
      (s : Store)
      → Installing (length blocks) s
      → Quiet start size (done_disk blocks goal old) (write_head start [] s).disk
        × AllDisks past (write_head start [] s).history
  unfolding write_head head_block
  clear-Quiet s i = (
    record {
      empty = ground arith;
      same = λ b hb.
          (let ne : (b == start) ≡ false = ground (arith, hb) in
            rw ne (elim (Bool-cases (is_in b blocks)) [
              | inl e ↦
                  let (k, h, same) = get_of_is_in blocks b e in
                  rw e (subst (λ c. s.disk c ≡ goal c) same (i.home k h))
              | inr e ↦ rw e (i.armed.rest b hb e)
            ]));
    },
    (armed_past s.disk i.armed, i.history),
  )
