-- ===== src/Memory/Strings.antt =====
-- `safestrcpy` stays inside its block and ends the string there.
use nice_system_calls.Common.{
  ℕ, zero, suc, ◌+◌, ◌≤◌, ◌<◌, ◌≡◌, ap, ◌∙◌, false, arith, ◌==◌, Bool-cases, inl, inr,
}
use nice_system_calls.Memory.{Memory, poke, safe_copy, safestrcpy}
use nice_system_calls.Memory.Move.{in_block}

-- The `n` bytes at `s` hold a string, and the other bytes are those of `m`.
pub record Terminated (s n : ℕ) (m m' : Memory) : Type 0 where
  pub size : ℕ
  pub inside : size < n
  pub nul : m' (s + size) ≡ 0
  pub others : (x : ℕ) → in_block s n x ≡ false → m' x ≡ m x

safe_copy_lem : (s t n : ℕ) (m : Memory) → Terminated s (suc n) m (safe_copy s t n m)
unfolding safe_copy
safe_copy_lem s t zero m = record {
  size = 0;
  inside = omega arith;
  nul = ground arith;
  others = λ x h. ground arith;
}
safe_copy_lem s t (suc n) m = elim (Bool-cases (m t == 0)) [
  | inl e ↦
      rw e (record {
        size = 1;
        inside = omega arith;
        nul = ground arith;
        others = λ x h. ground arith;
      })
  | inr e ↦
      let k = safe_copy_lem (suc s) (suc t) n (poke s (m t) m) in
      let same : s + suc k.size ≡ suc s + k.size = omega arith in
      rw e (record {
        size = suc k.size;
        inside = omega (arith, k.inside);
        nul = ap (safe_copy (suc s) (suc t) n (poke s (m t) m)) same ∙ k.nul;
        others = λ x h. k.others x (ground arith) ∙ ground arith;
      })
]

-- `safestrcpy` with a size of at least 1 leaves a NUL inside the block of that size and changes no
-- byte outside it.
pub safestrcpy_lem : (s t n : ℕ) (m : Memory) → 1 ≤ n → Terminated s n m (safestrcpy s t n m)
unfolding safestrcpy
safestrcpy_lem s t zero m h = absurd (omega arith)
safestrcpy_lem s t (suc n) m h = safe_copy_lem s t n m
