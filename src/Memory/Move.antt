-- ===== src/Memory/Move.antt =====
-- `memmove`, `memset` and `memcmp` do what their names say, also on blocks that overlap.
use nice_system_calls.Common.{
  ℕ, zero, suc, ◌+◌, ◌-◌, ◌*◌, ◌/◌, ◌%◌, ◌^◌, ◌≤◌, ◌<◌, ◌≡◌, refl, sym, ap, ◌∙◌, ◌≢◌, ◌↔◌, Bool,
  arith, ltb, ◌==◌, leb, if◌then◌else◌, ◌&&◌, Bool-cases, inl, inr, ℕ_discrete,
}
use nice_system_calls.Common.Int.{pos}
use nice_system_calls.Memory.{
  Memory, poke, byte_diff, stosb, stosl, memset, memcmp, copy_up, copy_down, memmove,
}

-- Is `x` an address of the block of `n` bytes at `a`?
abbrev pub in_block : ℕ → ℕ → ℕ → Bool
in_block a n x = leb a x && ltb x (a + n)

copy_up_lem :
    (d s n : ℕ) (m : Memory)
    → ((s < d) → s + n ≤ d)
    → (x : ℕ) → copy_up d s n m x ≡ (if in_block d n x then m (s + (x - d)) else m x)
unfolding copy_up
copy_up_lem d s zero m h x = ground arith
copy_up_lem d s (suc n) m h x =
    copy_up_lem (suc d) (suc s) n (poke d (m s) m) (λ lt. omega (arith, h (omega arith))) x
    ∙ elim (ℕ_discrete x d) [ yes e ↦ ground arith | no ne ↦ grind arith ]

copy_down_lem :
    (d s n : ℕ) (m : Memory)
    → s < d
    → (x : ℕ) → copy_down d s n m x ≡ (if in_block d n x then m (s + (x - d)) else m x)
unfolding copy_down
copy_down_lem d s zero m h x = ground arith
copy_down_lem d s (suc n) m h x =
    copy_down_lem d s n (poke (d + n) (m (s + n)) m) h x ∙ elim (ℕ_discrete x (d + n)) [
      | yes e ↦ (let same : s + n ≡ s + (x - d) = omega arith in ground (arith, ap m same))
      | no ne ↦ ground arith
    ]

-- `memmove` puts at each address of the destination the byte that the source held before the call,
-- also where the two blocks overlap, and changes no other byte.
pub memmove_lem :
    (dst src n : ℕ) (m : Memory) (x : ℕ)
    → memmove dst src n m x ≡ (if in_block dst n x then m (src + (x - dst)) else m x)
unfolding memmove
memmove_lem dst src n m x = elim (Bool-cases (ltb src dst && ltb dst (src + n))) [
  | inl down ↦ rw down (copy_down_lem dst src n m (ground arith) x)
  | inr up ↦ rw up (copy_up_lem dst src n m (λ lt. ground arith) x)
]

abbrev word_of : ℕ → ℕ
word_of c = (c % 256) * 2 ^ 24 + (c % 256) * 2 ^ 16 + (c % 256) * 2 ^ 8 + c % 256

bytes_of_word :
    (c : ℕ)
    → (word_of c % 256 ≡ c % 256)
      × (word_of c / 2 ^ 8 % 256 ≡ c % 256)
      × (word_of c / 2 ^ 16 % 256 ≡ c % 256)
      × (word_of c / 2 ^ 24 % 256 ≡ c % 256)
bytes_of_word c = (omega arith, omega arith, omega arith, omega arith)

stosl_lem :
    (a c n : ℕ) (m : Memory) (x : ℕ)
    → stosl a (word_of c) n m x ≡ (if in_block a (n * 4) x then c % 256 else m x)
unfolding stosl
stosl_lem a c zero m x = ground arith
stosl_lem a c (suc n) m x =
    let (b0, b1, b2, b3) = bytes_of_word c in
    stosl_lem (a + 4) c n _ x ∙ rw (b0, b1, b2, b3) (ground arith)

stosb_lem :
    (a c n : ℕ) (m : Memory) (x : ℕ) → stosb a c n m x ≡ (if in_block a n x then c % 256 else m x)
unfolding stosb
stosb_lem a c zero m x = ground arith
stosb_lem a c (suc n) m x = stosb_lem (suc a) c n (poke a (c % 256) m) x ∙ ground arith

agree_suc :
    (s1 s2 n : ℕ) (m : Memory)
    → m s1 ≡ m s2
    → ((k : ℕ) → k < n → m (suc s1 + k) ≡ m (suc s2 + k))
    → (k : ℕ) → k < suc n
    → m (s1 + k) ≡ m (s2 + k)
agree_suc s1 s2 n m e all zero h =
    let here : s1 + 0 ≡ s1 = omega arith in
    let there : s2 + 0 ≡ s2 = omega arith in ap m here ∙ e ∙ ap m (sym there)
agree_suc s1 s2 n m e all (suc k) h =
    let here : s1 + suc k ≡ suc s1 + k = omega arith in
    let there : s2 + suc k ≡ suc s2 + k = omega arith in
    ap m here ∙ all k (omega arith) ∙ ap m (sym there)

agree_tail :
    (s1 s2 n : ℕ) (m : Memory)
    → ((k : ℕ) → k < suc n → m (s1 + k) ≡ m (s2 + k))
    → (k : ℕ) → k < n
    → m (suc s1 + k) ≡ m (suc s2 + k)
agree_tail s1 s2 n m all k h =
    let here : suc s1 + k ≡ s1 + suc k = omega arith in
    let there : suc s2 + k ≡ s2 + suc k = omega arith in
    ap m here ∙ all (suc k) (omega arith) ∙ ap m (sym there)

agree_head :
    (s1 s2 n : ℕ) (m : Memory) → ((k : ℕ) → k < suc n → m (s1 + k) ≡ m (s2 + k)) → m s1 ≡ m s2
agree_head s1 s2 n m all =
    let here : s1 ≡ s1 + 0 = omega arith in
    let there : s2 ≡ s2 + 0 = omega arith in ap m here ∙ all 0 (omega arith) ∙ ap m (sym there)

byte_diff-ne : (a b : ℕ) → a ≢ b → byte_diff a b ≢ pos 0
byte_diff-ne a b ne e = ground arith

-- `memcmp` gives 0 exactly where the two blocks hold the same bytes.
pub memcmp_lem :
    (s1 s2 n : ℕ) (m : Memory)
    → (memcmp s1 s2 n m ≡ pos 0) ↔ ((k : ℕ) → k < n → m (s1 + k) ≡ m (s2 + k))
unfolding memcmp
memcmp_lem s1 s2 zero m = (λ e k h. absurd (omega arith), λ all. refl)
memcmp_lem s1 s2 (suc n) m = elim (Bool-cases (m s1 == m s2)) [
  | inl e ↦ rw e (
    (λ z k h. agree_suc s1 s2 n m (ground arith) ((memcmp_lem (suc s1) (suc s2) n m).0 z) k h),
    (λ all. (memcmp_lem (suc s1) (suc s2) n m).1 (agree_tail s1 s2 n m all)),
  )
  | inr e ↦ rw e (
    (λ z k h. absurd (byte_diff-ne (m s1) (m s2) (ground arith) z)),
    (λ all. absurd (ground (arith, agree_head s1 s2 n m all))),
  )
]

-- `memset` puts the low byte of its argument at each address of the block, by words or by bytes
-- alike, and changes no other byte.
pub memset_lem :
    (dst c n : ℕ) (m : Memory) (x : ℕ)
    → memset dst c n m x ≡ (if in_block dst n x then c % 256 else m x)
unfolding memset
memset_lem dst c n m x = elim (Bool-cases ((dst % 4 == 0) && (n % 4 == 0))) [
  | inl words ↦
      (let whole : n / 4 * 4 ≡ n = ground arith in
        rw words
          (stosl_lem dst c (n / 4) m x ∙ ap (λ k. if in_block dst k x then c % 256 else m x) whole))
  | inr bytes ↦ rw bytes (stosb_lem dst c n m x)
]
