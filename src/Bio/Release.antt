-- ===== src/Bio/Release.antt =====
-- brelse, and the order of the buffers in the ring.
use nice_system_calls.Common.{
  ℕ, ◌-◌, ◌<◌, ◌≡◌, ◌≢◌, ℕ_discrete, refl, sym, subst, ◌∙◌, inl, inr, List, [], ◌∷◌, ◌++◌, true,
  false, arith, ◌==◌, ne→==, if◌then◌else◌, Returns,
}
use nice_system_calls.Common.Distinct.{
  In, Distinct, In-append_left, In-append_right, In-append_cases,
}
use nice_system_calls.Bio.{Bcache, nbuf, head, update, link_front, unlink, brelse}
use nice_system_calls.Bio.Ring.{Chain, Chain-split, next_in}
use nice_system_calls.Bio.Order.{Distinct-append, update_ne, link-Chain, unlink-Chain}

-- `xs` is the order of the buffers: the pointers lead through it in both directions, and it has each
-- buffer once.
pub record Ordered (xs : List ℕ) (s : Bcache) : Type 0 where
  pub chain : Chain s.next s.prev head head xs
  pub distinct : Distinct (head ∷ xs)
  pub all : (b : ℕ) → b < nbuf → In b xs
  pub below : (b : ℕ) → In b xs → b < nbuf

unlink_lem :
    (b : ℕ) (xs ys : List ℕ) (s : Bcache)
    → Distinct (head ∷ xs ++ b ∷ ys)
    → Chain s.next s.prev head head (xs ++ b ∷ ys)
    → Chain (unlink b s).next (unlink b s).prev head head (xs ++ ys)
unfolding unlink
unlink_lem b xs ys s d c =
    let (front, rest) = Chain-split s.next s.prev head head b xs ys c in
    let (df, dr, apart) = Distinct-append (head ∷ xs) (b ∷ ys) d in
    let other : b ≢ s.next b = λ e. elim (next_in s.next s.prev head b ys rest) [
      | inl h ↦ apart b (inl (e ∙ h)) (inl refl)
      | inr m ↦ dr.0 (subst (λ k. In k ys) (sym e) m)
    ] in
    subst
      (λ p.
        Chain (update p (s.next b) s.next) (update (s.next b) (s.prev b) s.prev) head head
          (xs ++ ys))
      (sym (update_ne (s.next b) (s.prev b) s.prev b other))
      (unlink-Chain s.next s.prev head b xs ys d front rest)

pub link_lem :
    (b : ℕ) (xs : List ℕ) (s : Bcache)
    → Distinct (b ∷ head ∷ xs)
    → Chain s.next s.prev head head xs
    → Chain (link_front b s).next (link_front b s).prev head head (b ∷ xs)
unfolding link_front
link_lem b xs s d c =
    subst
      (λ n.
        Chain (update head b (update b (s.next head) s.next)) (update n b (update b head s.prev))
          head head (b ∷ xs))
      (sym (update_ne b (s.next head) s.next head (λ e. d.0 (inl (sym e)))))
      (link-Chain s.next s.prev head b xs d c)

Distinct-join :
    (xs ys : List ℕ)
    → Distinct xs
    → Distinct ys
    → ((a : ℕ) → In a xs → In a ys → ⊥)
    → Distinct (xs ++ ys)
Distinct-join [] ys d d' apart = d'
Distinct-join (x ∷ xs) ys d d' apart = (
  λ h. elim (In-append_cases x xs ys h) [ inl l ↦ d.0 l | inr r ↦ apart x (inl refl) r ],
  Distinct-join xs ys d.1 d' (λ a l r. apart a (inr l) r),
)

-- The order with `b` moved to the front.
Distinct-front :
    (h b : ℕ) (xs ys : List ℕ) → Distinct (h ∷ xs ++ b ∷ ys) → Distinct (b ∷ h ∷ xs ++ ys)
Distinct-front h b xs ys d =
    let (df, dr, apart) = Distinct-append (h ∷ xs) (b ∷ ys) d in
    (
      λ m. elim (In-append_cases b (h ∷ xs) ys m) [ inl l ↦ apart b l (inl refl) | inr r ↦ dr.0 r ],
      Distinct-join (h ∷ xs) ys df dr.1 (λ a l r. apart a l (inr r)),
    )

In-front : (a b : ℕ) (xs ys : List ℕ) → In a (xs ++ b ∷ ys) → In a (b ∷ xs ++ ys)
In-front a b xs ys m = elim (In-append_cases a xs (b ∷ ys) m) [
  | inl l ↦ inr (In-append_left a xs ys l)
  | inr (inl e) ↦ inl e
  | inr (inr r) ↦ inr (In-append_right a xs ys r)
]

In-back : (a b : ℕ) (xs ys : List ℕ) → In a (b ∷ xs ++ ys) → In a (xs ++ b ∷ ys)
In-back a b xs ys (inl e) = In-append_right a xs (b ∷ ys) (inl e)
In-back a b xs ys (inr m) = elim (In-append_cases a xs ys m) [
  | inl l ↦ In-append_left a xs (b ∷ ys) l
  | inr r ↦ In-append_right a xs (b ∷ ys) (inr r)
]

to_front :
    (b : ℕ) (xs ys : List ℕ) (s : Bcache)
    → Ordered (xs ++ b ∷ ys) s
    → Ordered (b ∷ xs ++ ys) (link_front b (unlink b s))
to_front b xs ys s o =
    let d = Distinct-front head b xs ys o.distinct in
    record {
      chain = link_lem b (xs ++ ys) (unlink b s) d (unlink_lem b xs ys s o.distinct o.chain);
      distinct = (
        λ m. elim m [ inl e ↦ d.0 (inl (sym e)) | inr m' ↦ d.1.0 m' ],
        (λ m. d.0 (inr m), d.1.1),
      );
      all = λ i l. In-front i b xs ys (o.all i l);
      below = λ i m. o.below i (In-back i b xs ys m);
    }

-- Where the pointers lead through the buffers in some order, `brelse` of a buffer that is locked
-- and in use returns: the order is as before where others still use the buffer, and else the same
-- with this buffer moved to the front.
pub brelse-Ordered :
    (b : ℕ) (xs ys : List ℕ) (s : Bcache)
    → Ordered (xs ++ b ∷ ys) s
    → s.locked b ≡ true
    → s.refcnt b ≢ 0
    → Returns (Ordered (if s.refcnt b == 1 then b ∷ xs ++ ys else xs ++ b ∷ ys)) (brelse b s)
unfolding brelse
brelse-Ordered b xs ys s o l used = elim (ℕ_discrete (s.refcnt b) 1) [
  | yes e ↦
      rw (l, e)
        (to_front b xs ys _
          (record { chain = o.chain; distinct = o.distinct; all = o.all; below = o.below }))
  | no ne ↦
      let left : (s.refcnt b - 1 == 0) ≡ false = ground arith in
      rw (l, ne→== (s.refcnt b) 0 used, ne→== (s.refcnt b) 1 ne, left)
        (record { chain = o.chain; distinct = o.distinct; all = o.all; below = o.below })
]
