-- ===== src/Common/Distinct.antt =====
-- Lists of distinct numbers below a bound, and the pigeonhole bound on their length.
use nice_system_calls.Common.{
  ℕ, zero, suc, ◌≤◌, ◌<◌, ◌≡◌, refl, subst, ◌⊎◌, inl, inr, List, [], ◌∷◌, ◌++◌, arith, ◌==◌, length,
  if◌then◌else◌, ℕ_discrete,
}

-- Membership by recursion, which the tactics read.
abbrev pub In : ℕ → List ℕ → Type 0
In a [] = ⊥
In a (x ∷ xs) = (a ≡ x) ⊎ In a xs

abbrev pub Distinct : List ℕ → Type 0
Distinct [] = Unit {0}
Distinct (x ∷ xs) = (¬ In x xs) × Distinct xs

abbrev pub Below : ℕ → List ℕ → Type 0
Below n [] = Unit {0}
Below n (x ∷ xs) = (x < n) × Below n xs

pub In-append_left : (a : ℕ) (xs ys : List ℕ) → In a xs → In a (xs ++ ys)
In-append_left a (x ∷ xs) ys (inl e) = inl e
In-append_left a (x ∷ xs) ys (inr h) = inr (In-append_left a xs ys h)
In-append_left a [] ys h = elim h [ ]

pub In-append_right : (a : ℕ) (xs ys : List ℕ) → In a ys → In a (xs ++ ys)
In-append_right a [] ys h = h
In-append_right a (x ∷ xs) ys h = inr (In-append_right a xs ys h)

pub In-append_cases : (a : ℕ) (xs ys : List ℕ) → In a (xs ++ ys) → In a xs ⊎ In a ys
In-append_cases a [] ys h = inr h
In-append_cases a (x ∷ xs) ys (inl e) = inl (inl e)
In-append_cases a (x ∷ xs) ys (inr h) = elim (In-append_cases a xs ys h) [
  | inl l ↦ inl (inr l)
  | inr r ↦ inr r
]

pub Below-In : (a n : ℕ) (xs : List ℕ) → Below n xs → In a xs → a < n
Below-In a n (x ∷ xs) b (inl e) = omega arith
Below-In a n (x ∷ xs) b (inr h) = Below-In a n xs b.1 h
Below-In a n [] b h = elim h [ ]

pub Below-mono : (m n : ℕ) (xs : List ℕ) → m ≤ n → Below m xs → Below n xs
Below-mono m n [] h b = tt
Below-mono m n (x ∷ xs) h b = (omega (arith, b.0), Below-mono m n xs h b.1)

pub Below-snoc : (a n : ℕ) (xs : List ℕ) → Below n xs → a < n → Below n (xs ++ a ∷ [])
Below-snoc a n [] b h = (h, tt)
Below-snoc a n (x ∷ xs) b h = (b.0, Below-snoc a n xs b.1 h)

pub Distinct-snoc : (a : ℕ) (xs : List ℕ) → Distinct xs → ¬ In a xs → Distinct (xs ++ a ∷ [])
Distinct-snoc a [] d h = (λ f. f, tt)
Distinct-snoc a (x ∷ xs) d h = (
  λ m. elim (In-append_cases x xs (a ∷ []) m) [
    | inl l ↦ d.0 l
    | inr (inl e) ↦ h (inl (omega arith))
    | inr (inr f) ↦ f
  ],
  Distinct-snoc a xs d.1 (λ m. h (inr m)),
)

-- Removes every occurrence.
abbrev without : ℕ → List ℕ → List ℕ
without a [] = []
without a (x ∷ xs) = let rest = without a xs in if x == a then rest else x ∷ rest

without_absent : (a : ℕ) (xs : List ℕ) → ¬ In a xs → without a xs ≡ xs
without_absent a [] h = refl
without_absent a (x ∷ xs) h = elim (ℕ_discrete x a) [
  | yes e ↦ absurd (h (inl (omega arith)))
  | no ne ↦ ground (arith, without_absent a xs (λ m. h (inr m)))
]

In-without : (a b : ℕ) (xs : List ℕ) → In b (without a xs) → In b xs
In-without a b [] h = h
In-without a b (x ∷ xs) h = ground (arith, In-without a b xs)

Distinct-without : (a : ℕ) (xs : List ℕ) → Distinct xs → Distinct (without a xs)
Distinct-without a [] d = tt
Distinct-without a (x ∷ xs) d = ground (arith, Distinct-without a xs d.1, In-without a x xs)

Below-without : (n : ℕ) (xs : List ℕ) → Below (suc n) xs → Below n (without n xs)
Below-without n [] b = tt
Below-without n (x ∷ xs) b = ground (arith, Below-without n xs b.1)

length-without : (a : ℕ) (xs : List ℕ) → Distinct xs → length xs ≤ suc (length (without a xs))
length-without a [] d = omega arith
length-without a (x ∷ xs) d = elim (ℕ_discrete a x) [
  | yes e ↦ ground (arith, without_absent a xs (λ m. d.0 (subst (λ k. In k xs) e m)))
  | no ne ↦ ground (arith, length-without a xs d.1)
]

-- The pigeonhole principle.
pub Distinct-length : (n : ℕ) (xs : List ℕ) → Distinct xs → Below n xs → length xs ≤ n
Distinct-length n [] d b = omega arith
Distinct-length zero (x ∷ xs) d b = absurd (omega arith)
Distinct-length (suc n) (x ∷ xs) d b = omega (
  arith,
  length-without n (x ∷ xs) d,
  Distinct-length n (without n (x ∷ xs)) (Distinct-without n (x ∷ xs) d)
      (Below-without n (x ∷ xs) b),
)
