-- ===== src/Bio/Lookup.antt =====
-- bget, and the search of the order of the buffers.
use nice_system_calls.Common.{
  ◌↔◌, true, ℕ, zero, suc, ◌+◌, ◌<◌, ◌≤◌, ◌≡◌, refl, sym, subst, inl, inr, List, [], ◌∷◌, ◌++◌,
  Bool, false, Option, none, some, arith, ne→==, if◌then◌else◌, Bool-cases, Option-cases, length,
  Outcome, ok, panic, length-append,
}
use nice_system_calls.Common.Distinct.{
  In, Below, Distinct-length, In-append_left, In-append_right, In-append_cases,
}
use nice_system_calls.Bio.{
  Bcache, nbuf, head, update, has_block, is_spare, scan, lock_buf, recycle, bget,
}
use nice_system_calls.Bio.Ring.{Chain, arrives, passes, Chain-append}
use nice_system_calls.Bio.Release.{Ordered}

-- The first and the last buffer of the order with a property.
unfoldable pub first_of : (ℕ → Bool) → List ℕ → Option ℕ
first_of test [] = none
first_of test (x ∷ xs) = let rest = first_of test xs in if test x then some x else rest

abbrev pub backwards : List ℕ → List ℕ
backwards [] = []
backwards (x ∷ xs) = backwards xs ++ x ∷ []

scan_next :
    (next prev : ℕ → ℕ) (test : ℕ → Bool) (fuel a : ℕ) (xs : List ℕ)
    → ¬ In head xs
    → length xs < fuel
    → Chain next prev head a xs
    → scan next test fuel (next a) ≡ ok (first_of test xs)
unfolding scan first_of
scan_next next prev test zero a xs n l c = absurd (omega arith)
scan_next next prev test (suc fuel) a [] n l (arrives e f) = rw e refl
scan_next next prev test (suc fuel) a (x ∷ xs) n l (passes e f c) = elim (Bool-cases (test x)) [
  | inl t ↦ rw (e, ne→== x head (λ q. n (inl (sym q))), t) refl
  | inr t ↦
      rw (e, ne→== x head (λ q. n (inl (sym q))), t)
        (scan_next next prev test fuel x xs (λ m. n (inr m)) (omega arith) c)
]

Chain-backwards :
    (next prev : ℕ → ℕ) (z a : ℕ) (xs : List ℕ)
    → Chain next prev z a xs
    → Chain prev next a z (backwards xs)
Chain-backwards next prev z a [] (arrives e f) = arrives f e
Chain-backwards next prev z a (x ∷ xs) (passes e f c) =
    Chain-append prev next a z x (backwards xs) [] (Chain-backwards next prev z x xs c)
      (arrives f e)

In-backwards : (a : ℕ) (xs : List ℕ) → In a (backwards xs) → In a xs
In-backwards a [] m = m
In-backwards a (x ∷ xs) m = elim (In-append_cases a (backwards xs) (x ∷ []) m) [
  | inl l ↦ inr (In-backwards a xs l)
  | inr (inl e) ↦ inl e
  | inr (inr f) ↦ absurd f
]

length-backwards : (xs : List ℕ) → length (backwards xs) ≡ length xs
length-backwards [] = refl
length-backwards (x ∷ xs) =
    omega (arith, length-append (backwards xs) (x ∷ []), length-backwards xs)

Below-all : (xs : List ℕ) → ((b : ℕ) → In b xs → b < nbuf) → Below nbuf xs
Below-all [] h = tt
Below-all (x ∷ xs) h = (h x (inl refl), Below-all xs (λ b m. h b (inr m)))

length-Ordered : (xs : List ℕ) (s : Bcache) → Ordered xs s → length xs ≤ nbuf
length-Ordered xs s o = Distinct-length nbuf xs o.distinct.1 (Below-all xs o.below)

-- What `bget` does, on the list of the buffers.
unfoldable pub bget_of : ℕ → ℕ → List ℕ → Bcache → Outcome (ℕ × Bcache)
bget_of dev blockno xs s = elim (first_of (has_block dev blockno s) xs) [
  | some b ↦ lock_buf b (record s { refcnt = update b (s.refcnt b + 1) s.refcnt })
  | none ↦ elim (first_of (is_spare s) (backwards xs)) [
    | some b ↦ recycle dev blockno b s
    | none ↦ panic "bget: no buffers"
  ]
]

-- Where the pointers lead through the buffers in some order, `bget` is a search of that list: it
-- takes the first buffer of the block; where there is none, the spare buffer used longest ago, the
-- last in the order; and it panics where there is no spare buffer.
pub bget-Ordered :
    (dev blockno : ℕ) (xs : List ℕ) (s : Bcache)
    → Ordered xs s
    → bget dev blockno s ≡ bget_of dev blockno xs s
unfolding bget bget_of
bget-Ordered dev blockno xs s o =
    let l : length xs ≤ nbuf = length-Ordered xs s o in
    rw
      (scan_next s.next s.prev (has_block dev blockno s) (nbuf + 1) head xs o.distinct.0
        (omega arith) o.chain)
      (elim (Option-cases (first_of (has_block dev blockno s) xs)) [
        | inr (b, e) ↦ rw (e, bget_of) refl
        | inl e ↦
            rw
              (
                e,
                bget_of,
                scan_next s.prev s.next (is_spare s) (nbuf + 1) head (backwards xs)
                    (λ m. o.distinct.0 (In-backwards head xs m))
                    (omega (arith, length-backwards xs))
                    (Chain-backwards s.next s.prev head head xs o.chain),
              )
              refl
      ])

-- Where no buffer of the order has the property.
pub first_of-none :
    (test : ℕ → Bool) (xs : List ℕ) (x : ℕ) → first_of test xs ≡ none → In x xs → test x ≡ false
unfolding first_of
first_of-none test [] x e m = elim m [ ]
first_of-none test (y ∷ ys) x e m = elim (Bool-cases (test y)) [
  | inl t ↦ absurd (ground (arith, e, t))
  | inr t ↦
      (let rest : first_of test ys ≡ none = ground (arith, e, t) in
        elim m [
          | inl q ↦ subst (λ k. test k ≡ false) (sym q) t
          | inr m' ↦ first_of-none test ys x rest m'
        ])
]

pub first_of-some :
    (test : ℕ → Bool) (xs : List ℕ) (x : ℕ) → first_of test xs ≡ some x → (test x ≡ true) × In x xs
unfolding first_of
first_of-some test [] x e = absurd (grind arith)
first_of-some test (y ∷ ys) x e = elim (Bool-cases (test y)) [
  | inl t ↦
      (let same : y ≡ x = ground (arith, e, t) in
        (subst (λ k. test k ≡ true) same t, inl (sym same)))
  | inr t ↦
      let rest : first_of test ys ≡ some x = ground (arith, e, t) in
      let (a, m) = first_of-some test ys x rest in (a, inr m)
]

pub In-backwards_iff : (a : ℕ) (xs : List ℕ) → In a (backwards xs) ↔ In a xs
In-backwards_iff a xs = (In-backwards a xs, back xs)
  where
    back : (xs : List ℕ) → In a xs → In a (backwards xs)
    back [] m = m
    back (x ∷ xs) (inl e) = In-append_right a (backwards xs) (x ∷ []) (inl e)
    back (x ∷ xs) (inr m) = In-append_left a (backwards xs) (x ∷ []) (back xs m)
