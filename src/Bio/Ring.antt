-- ===== src/Bio/Ring.antt =====
-- The ring of buffers: what the writes of its pointers do to the order of the buffers.
use nice_system_calls.Common.{
  ℕ, ◌≡◌, ◌≢◌, refl, sym, subst, ◌∙◌, ◌⊎◌, inl, inr, List, [], ◌∷◌, ◌++◌, eq→==, ne→==,
}
use nice_system_calls.Common.Distinct.{In, Distinct}
use nice_system_calls.Bio.{update}

-- From `a` the pointers lead through `xs` to `z`, and back.
pub data Chain (next prev : ℕ → ℕ) (z : ℕ) : ℕ → List ℕ → Type 0 where
  arrives : {a : ℕ} → next a ≡ z → prev z ≡ a → Chain next prev z a []
  passes :
      {a x : ℕ} {xs : List ℕ}
      → next a ≡ x
      → prev x ≡ a
      → Chain next prev z x xs
      → Chain next prev z a (x ∷ xs)

-- Pointers that change outside the path leave it.
pub Chain-frame :
    (next prev next' prev' : ℕ → ℕ) (z a : ℕ) (xs : List ℕ)
    → ((x : ℕ) → (x ≡ a) ⊎ In x xs → next' x ≡ next x)
    → ((x : ℕ) → (x ≡ z) ⊎ In x xs → prev' x ≡ prev x)
    → Chain next prev z a xs
    → Chain next' prev' z a xs
Chain-frame next prev next' prev' z a [] n p (arrives e f) =
    arrives (n a (inl refl) ∙ e) (p z (inl refl) ∙ f)
Chain-frame next prev next' prev' z a (x ∷ xs) n p (passes e f c) =
    passes (n a (inl refl) ∙ e) (p x (inr (inl refl)) ∙ f)
      (Chain-frame next prev next' prev' z x xs (λ y h. n y (inr h)) (λ y h. p y (later y h)) c)
  where
    later : (y : ℕ) → (y ≡ z) ⊎ In y xs → (y ≡ z) ⊎ In y (x ∷ xs)
    later y (inl e) = inl e
    later y (inr h) = inr (inr h)

-- The path is cut at one of its elements.
pub Chain-split :
    (next prev : ℕ → ℕ) (z a b : ℕ) (xs ys : List ℕ)
    → Chain next prev z a (xs ++ b ∷ ys)
    → Chain next prev b a xs × Chain next prev z b ys
Chain-split next prev z a b [] ys (passes e f c) = (arrives e f, c)
Chain-split next prev z a b (x ∷ xs) ys (passes e f c) =
    let (l, r) = Chain-split next prev z x b xs ys c in (passes e f l, r)

pub Chain-append :
    (next prev : ℕ → ℕ) (z a b : ℕ) (xs ys : List ℕ)
    → Chain next prev b a xs
    → Chain next prev z b ys
    → Chain next prev z a (xs ++ b ∷ ys)
Chain-append next prev z a b [] ys (arrives e f) d = passes e f d
Chain-append next prev z a b (x ∷ xs) ys (passes e f c) d =
    passes e f (Chain-append next prev z x b xs ys c d)

-- The element before the end is the start or in the path.
pub prev_in :
    (next prev : ℕ → ℕ) (z a : ℕ) (xs : List ℕ)
    → Chain next prev z a xs
    → (prev z ≡ a) ⊎ In (prev z) xs
prev_in next prev z a [] (arrives e f) = inl f
prev_in next prev z a (x ∷ xs) (passes e f c) = inr (prev_in next prev z x xs c)

pub next_in :
    (next prev : ℕ → ℕ) (z a : ℕ) (xs : List ℕ)
    → Chain next prev z a xs
    → (next a ≡ z) ⊎ In (next a) xs
next_in next prev z a [] (arrives e f) = inl e
next_in next prev z a (x ∷ xs) (passes e f c) = inr (inl e)

-- The end of a path is moved from `b` to `z`, by the pointer to `b` and that of `z`.
pub redirect :
    (next prev : ℕ → ℕ) (z a b : ℕ) (xs : List ℕ)
    → Distinct (a ∷ xs)
    → ¬ In z xs
    → Chain next prev b a xs
    → Chain (update (prev b) z next) (update z (prev b) prev) z a xs
redirect next prev z a b [] d n (arrives e f) =
    arrives (rw (f, eq→== a a refl) refl) (rw (eq→== z z refl) f)
redirect next prev z a b (x ∷ xs) d n (passes e f c) =
    passes (rw (ne→== a (prev b) first) e) (rw (ne→== x z (λ q. n (inl (sym q)))) f)
      (redirect next prev z x b xs d.1 (λ h. n (inr h)) c)
  where
    first : a ≢ prev b
    first q = d.0 (subst (λ k. In k (x ∷ xs)) (sym q) (prev_in next prev b x xs c))
