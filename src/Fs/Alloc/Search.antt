-- ===== src/Fs/Alloc/Search.antt =====
-- The loops of balloc over the bitmap.
use nice_system_calls.Common.{
  ℕ, zero, suc, ◌+◌, ◌-◌, ◌*◌, ◌/◌, ◌%◌, ◌<◌, ◌≡◌, ◌≢◌, refl, ap, ap₂, sym, subst, ◌∙◌, true,
  Option, none, some, arith, ltb, ◌==◌, inl, inr, Bool-cases, ℕ_discrete, Outcome, ok, Returns,
}
use nice_system_calls.Memory.{Memory}
use nice_system_calls.Fs.{Fs, bpb, bblock}
use nice_system_calls.Fs.Bits.{bit}
use nice_system_calls.Fs.Alloc.{find_bit, take_block, balloc_from}

-- The bit of a block.
abbrev pub bit_of : ℕ → Fs → ℕ
bit_of b s = bit (s.blocks (bblock b s.sb) (b % bpb / 8)) (b % bpb % 8)

-- What the inner loop of `balloc` finds in a block of the bitmap.
data BitView (size : ℕ) (bp : Memory) (b hi : ℕ) : Option ℕ → Type 0 where
  got :
      (k : ℕ)
      → k < hi
      → b + k < size
      → bit (bp (k / 8)) (k % 8) ≡ 0
      → ((j : ℕ) → j < k → bit (bp (j / 8)) (j % 8) ≢ 0)
      → BitView size bp b hi (some k)
  nothing :
      ((j : ℕ) → j < hi → b + j < size → bit (bp (j / 8)) (j % 8) ≢ 0) → BitView size bp b hi none

-- A property of the numbers below `i`, and of `i`.
below_suc : (P : ℕ → Type 0) (i : ℕ) → ((j : ℕ) → j < i → P j) → P i → (j : ℕ) → j < suc i → P j
below_suc P i h p j lt = elim (ℕ_discrete j i) [
  | yes e ↦ subst P (sym e) p
  | no ne ↦ h j (omega arith)
]

find_bit_view :
    (size : ℕ) (bp : Memory) (b hi n bi : ℕ)
    → bi + n ≡ hi
    → ((j : ℕ) → j < bi → bit (bp (j / 8)) (j % 8) ≢ 0)
    → BitView size bp b hi (find_bit size bp b n bi)
unfolding find_bit
find_bit_view size bp b hi zero bi e seen = nothing (λ j lt s. seen j (omega arith))
find_bit_view size bp b hi (suc n) bi e seen = elim (Bool-cases (ltb (b + bi) size)) [
  | inr l ↦ rw l (nothing (λ j lt s. seen j (ground arith)))
  | inl l ↦ elim (Bool-cases (bit (bp (bi / 8)) (bi % 8) == 0)) [
    | inl z ↦ rw (l, z) (got bi (omega arith) (ground arith) (ground arith) seen)
    | inr z ↦
        rw (l, z)
          (find_bit_view size bp b hi n (suc bi) (omega arith)
            (below_suc (λ j. bit (bp (j / 8)) (j % 8) ≢ 0) bi seen (ground arith)))
  ]
]

-- The bit of block `k` of a round.
bit_of_round :
    (i k : ℕ) (s : Fs)
    → k < bpb
    → bit_of (i * bpb + k) s ≡ bit (s.blocks (bblock (i * bpb) s.sb) (k / 8)) (k % 8)
bit_of_round i k s lt =
    let quotient : (i * bpb + k) / bpb ≡ i * bpb / bpb = omega arith in
    let rest : (i * bpb + k) % bpb ≡ k = omega arith in rw (quotient, rest) refl

-- The block is the first free one, and it is taken.
pub record Taken (s : Fs) (b : ℕ) (s' : Fs) : Type 0 where
  pub inside : b < s.sb.size
  pub was_free : bit_of b s ≡ 0
  pub first : (c : ℕ) → c < b → bit_of c s ≢ 0
  pub state : s' ≡ take_block (b / bpb * bpb) (b % bpb) s

abbrev UsedBelow : ℕ → Fs → Type 0
UsedBelow n s = (c : ℕ) → c < n → c < s.sb.size → bit_of c s ≢ 0

-- One round of the outer loop, before the rest of the loop.
round_lem :
    (i : ℕ) (s : Fs) (rest : Outcome (ℕ × Fs)) (found : Option ℕ)
    → BitView s.sb.size (s.blocks (bblock (i * bpb) s.sb)) (i * bpb) bpb found
    → UsedBelow (i * bpb) s
    → (UsedBelow (suc i * bpb) s → Returns (λ r. Taken s r.0 r.1) rest)
    → Returns
        (λ r. Taken s r.0 r.1)
        (elim found [ none ↦ rest | some bi ↦ ok (i * bpb + bi, take_block (i * bpb) bi s) ])
round_lem i s rest none (nothing h) seen k = k (λ c lt inside. elim (Bool-cases (ltb c (i * bpb))) [
  | inl l ↦ seen c (ground arith) inside
  | inr l ↦
      (let same : i * bpb + (c - i * bpb) ≡ c = ground arith in
        λ z.
          h (c - i * bpb) (ground arith) (omega arith)
            (sym (bit_of_round i (c - i * bpb) s (ground arith)) ∙ ap (λ d. bit_of d s) same ∙ z))
])
round_lem i s rest (some bi) (got bi' lt inside free first) seen k = record {
  inside = inside;
  was_free = bit_of_round i bi s lt ∙ free;
  first = λ c l. elim (Bool-cases (ltb c (i * bpb))) [
    | inl q ↦ seen c (ground arith) (omega arith)
    | inr q ↦
        (let same : i * bpb + (c - i * bpb) ≡ c = ground arith in
          λ z.
            first (c - i * bpb) (ground arith)
              (sym (bit_of_round i (c - i * bpb) s (ground arith)) ∙ ap (λ d. bit_of d s) same ∙ z))
  ];
  state = ap₂ (λ b k. take_block b k s) (omega arith) (omega arith);
}

pub balloc_from_lem :
    (n i f : ℕ) (s : Fs)
    → s.sb.size / bpb + 1 ≡ i + n
    → f < s.sb.size
    → bit_of f s ≡ 0
    → UsedBelow (i * bpb) s
    → Returns (λ r. Taken s r.0 r.1) (balloc_from n (i * bpb) s)
unfolding balloc_from
balloc_from_lem zero i f s e lt free seen = absurd (seen f (omega arith) lt free)
balloc_from_lem (suc n) i f s e lt free seen =
    let here : ltb (i * bpb) s.sb.size ≡ true = elim (Bool-cases (ltb f (i * bpb))) [
      | inl l ↦ absurd (seen f (ground arith) lt free)
      | inr l ↦ ground arith
    ] in
    let next : i * bpb + bpb ≡ suc i * bpb = omega arith in
    rw here (
      round_lem i s (balloc_from n (i * bpb + bpb) s)
        (find_bit s.sb.size (s.blocks (bblock (i * bpb) s.sb)) (i * bpb) bpb 0)
        (find_bit_view s.sb.size (s.blocks (bblock (i * bpb) s.sb)) (i * bpb) bpb bpb 0 refl
          (λ j l. absurd (omega arith)))
        seen
        (λ u.
          subst (λ b. Returns (λ r. Taken s r.0 r.1) (balloc_from n b s)) (sym next)
            (balloc_from_lem n (suc i) f s (omega arith) lt free u)))
