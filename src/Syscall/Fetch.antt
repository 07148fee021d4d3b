-- ===== src/Syscall/Fetch.antt =====
-- An argument that is fetched lies in the memory of the process.
use nice_system_calls.Common.{
  ℕ, zero, suc, ◌+◌, ◌-◌, ◌%◌, ◌^◌, ◌≤◌, ◌<◌, ◌≡◌, sym, ap, ◌∙◌, ◌≢◌, inl, inr, some, arith, ltb,
  leb, ◌==◌, ◌||◌, Bool-cases, Option-cases,
}
use nice_system_calls.Common.Int.{pos}
use nice_system_calls.Memory.{Memory}
use nice_system_calls.Kalloc.{read_word}
use nice_system_calls.Syscall.{fetchint, scan_string, fetchstr, argint, argptr}

module _ (user : Memory) (sz : ℕ) (low : sz ≤ 2 ^ 31) where
  -- In a process of at most 2 ^ 31 bytes, a word that `fetchint` gives is the word at the address,
  -- and its four bytes lie inside the memory of the process.
  pub fetchint_lem :
      (addr w : ℕ) → fetchint user sz addr ≡ some w → (addr + 4 ≤ sz) × (w ≡ read_word addr user)
  unfolding fetchint
  fetchint_lem addr w e = elim (Bool-cases (leb sz addr || ltb sz ((addr + 4) % 2 ^ 32))) [
    | inl out ↦ absurd (ground arith)
    | inr inside ↦ ground arith
  ]

  -- In a process of at most 2 ^ 31 bytes, a block of less than 2 ^ 31 bytes whose address `argptr`
  -- accepts starts and ends inside the memory of the process: the sum in its check does not wrap
  -- around.
  pub argptr_lem :
      (esp n size a : ℕ)
      → size < 2 ^ 31
      → argptr user sz esp n (pos size) ≡ some a
      → (a < sz) × (a + size ≤ sz)
  unfolding argptr
  argptr_lem esp n size a h e = elim (Option-cases (argint user sz esp n)) [
    | inl none_there ↦ absurd (ground arith)
    | inr (i, at) ↦ ground arith
  ]

scan_string_lem :
    (user : Memory) (sz rounds addr n len : ℕ)
    → scan_string user sz rounds addr n ≡ some len
    → (n ≤ len)
      × (len < n + rounds)
      × (user (addr + len) ≡ 0)
      × ((k : ℕ) → n ≤ k → k < len → user (addr + k) ≢ 0)
unfolding scan_string
scan_string_lem user sz zero addr n len e = absurd (ground arith)
scan_string_lem user sz (suc rounds) addr n len e = elim (Bool-cases (user (addr + n) == 0)) [
  | inl here ↦
      let same : n ≡ len = ground arith in
      (
        omega arith,
        omega arith,
        ap (λ k. user (addr + k)) (sym same) ∙ ground arith,
        λ k a b. absurd (omega arith),
      )
  | inr later ↦
      let (a, b, c, d) = scan_string_lem user sz rounds addr (suc n) len (ground arith) in
      (
        omega arith,
        omega arith,
        c,
        λ k x y z. elim (Bool-cases (k == n)) [
          | inl e1 ↦
              (let same : k ≡ n = ground arith in ground (arith, ap (λ j. user (addr + j)) same))
          | inr e1 ↦ d k (ground arith) y z
        ],
      )
]

-- A length that `fetchstr` gives is that of the string: the NUL stands behind that many bytes,
-- inside the memory of the process, and no byte before it is 0.
pub fetchstr_lem :
    (user : Memory) (sz addr len : ℕ)
    → fetchstr user sz addr ≡ some len
    → (addr + len < sz) × (user (addr + len) ≡ 0) × ((k : ℕ) → k < len → user (addr + k) ≢ 0)
unfolding fetchstr
fetchstr_lem user sz addr len e = elim (Bool-cases (leb sz addr)) [
  | inl out ↦ absurd (ground arith)
  | inr inside ↦
      let (a, b, c, d) = scan_string_lem user sz (sz - addr) addr 0 len (ground arith) in
      (ground arith, c, λ k h. d k (omega arith) h)
]
