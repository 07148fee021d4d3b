-- ===== src/Bio/Order.antt =====
-- The pointer writes that take a buffer out of the ring, and put it in front.
use nice_system_calls.Common.{
  ℕ, ◌≡◌, ◌≢◌, refl, ap, sym, subst, ◌∙◌, ◌⊎◌, inl, inr, List, [], ◌∷◌, ◌++◌, eq→==, ne→==,
}
use nice_system_calls.Common.Distinct.{In, Distinct, In-append_left, In-append_right}
use nice_system_calls.Bio.{update}
use nice_system_calls.Bio.Ring.{
  Chain, arrives, passes, Chain-frame, Chain-append, prev_in, redirect,
}

append_nil : (xs : List ℕ) → xs ++ [] ≡ xs
append_nil [] = refl
append_nil (x ∷ xs) = ap (λ l. x ∷ l) (append_nil xs)

pub Distinct-append :
    (xs ys : List ℕ)
    → Distinct (xs ++ ys)
    → Distinct xs × Distinct ys × ((a : ℕ) → In a xs → In a ys → ⊥)
Distinct-append [] ys d = (tt, d, λ a h h'. h)
Distinct-append (x ∷ xs) ys d =
    let (l, r, apart) = Distinct-append xs ys d.1 in
    (
      (λ h. d.0 (In-append_left x xs ys h), l),
      r,
      λ a h h'. elim h [
        | inl e ↦ d.0 (In-append_right x xs ys (subst (λ k. In k ys) e h'))
        | inr m ↦ apart a m h'
      ],
    )

pub update_ne : (i a : ℕ) (f : ℕ → ℕ) (x : ℕ) → x ≢ i → update i a f x ≡ f x
update_ne i a f x ne = rw (ne→== x i ne) refl

not_head : (h x : ℕ) (xs : List ℕ) → ¬ In h xs → In x xs → x ≢ h
not_head h x xs n m e = n (subst (λ k. In k xs) e m)

-- A buffer is taken out of the ring: `z` is what stands behind it.
unlink_rest :
    (next prev : ℕ → ℕ) (h b y : ℕ) (xs ys : List ℕ)
    → Distinct (h ∷ xs ++ b ∷ y ∷ ys)
    → prev y ≡ b
    → Chain next prev b h xs
    → Chain next prev h y ys
    → Chain (update (prev b) y next) (update y (prev b) prev) h h (xs ++ y ∷ ys)
unlink_rest next prev h b y xs ys d f front rest =
    let (df, dr, apart) = Distinct-append (h ∷ xs) (b ∷ y ∷ ys) d in
    let last : In (prev b) (h ∷ xs) = prev_in next prev b h xs front in
    Chain-append (update (prev b) y next) (update y (prev b) prev) h h y xs ys
      (redirect next prev y h b xs df (λ m. apart y (inr m) (inr (inl refl))) front)
      (Chain-frame next prev (update (prev b) y next) (update y (prev b) prev) h y ys
        (λ x m.
          update_ne (prev b) y next x
            (λ e. apart (prev b) last (inr (subst (λ k. In k (y ∷ ys)) e m))))
        (λ x m. update_ne y (prev b) prev x (other x m)) rest)
  where
    other : (x : ℕ) → (x ≡ h) ⊎ In x ys → x ≢ y
    other x (inl e) q = (Distinct-append (h ∷ xs) (b ∷ y ∷ ys) d).2 x (inl e) (inr (inl q))
    other x (inr m) q = (Distinct-append (h ∷ xs) (b ∷ y ∷ ys) d).1.1.0 (subst (λ k. In k ys) q m)

pub unlink-Chain :
    (next prev : ℕ → ℕ) (h b : ℕ) (xs ys : List ℕ)
    → Distinct (h ∷ xs ++ b ∷ ys)
    → Chain next prev b h xs
    → Chain next prev h b ys
    → Chain (update (prev b) (next b) next) (update (next b) (prev b) prev) h h (xs ++ ys)
unlink-Chain next prev h b xs [] d front (arrives e f) =
    let (df, dr, apart) = Distinct-append (h ∷ xs) (b ∷ []) d in
    rw (e, append_nil xs) (redirect next prev h h b xs df df.0 front)
unlink-Chain next prev h b xs (y ∷ ys) d front (passes e f c) =
    rw e (unlink_rest next prev h b y xs ys d f front c)

-- A buffer is put in front.
pub link-Chain :
    (next prev : ℕ → ℕ) (h b : ℕ) (xs : List ℕ)
    → Distinct (b ∷ h ∷ xs)
    → Chain next prev h h xs
    → Chain (update h b (update b (next h) next)) (update (next h) b (update b h prev)) h h (b ∷ xs)
link-Chain next prev h b [] d (arrives e f) =
    passes (rw (eq→== h h refl) refl) (rw (e, ne→== b h (λ q. d.0 (inl q)), eq→== b b refl) refl)
      (arrives (rw (ne→== b h (λ q. d.0 (inl q)), eq→== b b refl) e) (rw (e, eq→== h h refl) refl))
link-Chain next prev h b (x ∷ xs) d (passes e f c) =
    passes (rw (eq→== h h refl) refl)
      (rw (e, ne→== b x (λ q. d.0 (inr (inl q))), eq→== b b refl) refl)
      (passes (rw (ne→== b h (λ q. d.0 (inl q)), eq→== b b refl) e) (rw (e, eq→== x x refl) refl) (
        Chain-frame next prev _ _ h x xs
          (λ y m.
            update_ne h b (update b (next h) next) y (not_head h y (x ∷ xs) d.1.0 m)
            ∙ update_ne b (next h) next y (not_head b y (x ∷ xs) (λ q. d.0 (inr q)) m))
          (λ y m.
            update_ne (next h) b (update b h prev) y (λ q. second y m (q ∙ e))
            ∙ update_ne b h prev y (first y m))
          c))
  where
    second : (y : ℕ) → (y ≡ h) ⊎ In y xs → y ≢ x
    second y (inl q) r = d.1.0 (inl (sym q ∙ r))
    second y (inr m) r = not_head x y xs d.1.1.0 m r

    first : (y : ℕ) → (y ≡ h) ⊎ In y xs → y ≢ b
    first y (inl q) r = d.0 (inl (sym r ∙ q))
    first y (inr m) r = not_head b y xs (λ k. d.0 (inr (inr k))) m r
