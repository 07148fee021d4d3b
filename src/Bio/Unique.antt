-- ===== src/Bio/Unique.antt =====
-- binit, and the states of the cache that calls of bio.c reach.
use nice_system_calls.Common.{
  ℕ, zero, suc, ◌+◌, ◌<◌, ◌≡◌, ◌≢◌, ℕ_discrete, refl, ap, ◌∙◌, inl, inr, List, [], ◌∷◌, true, false,
  arith, ok, Ends-ok,
}
use nice_system_calls.Common.Distinct.{In, Distinct}
use nice_system_calls.Bio.{
  Bcache, nbuf, head, update, link_front, link_all, binit, bread, bwrite, brelse,
}
use nice_system_calls.Bio.Ring.{Chain, arrives}
use nice_system_calls.Bio.Release.{Ordered, link_lem}
use nice_system_calls.Bio.Uniqueness.{Unique, BioInv, bread-BioInv, bwrite-BioInv, brelse-BioInv}

-- The buffers that `binit` has put in front of `xs`.
abbrev pub linked : ℕ → ℕ → List ℕ → List ℕ
linked zero b xs = xs
linked (suc n) b xs = linked n (suc b) (b ∷ xs)

link_all-Ordered :
    (n b : ℕ) (xs : List ℕ) (s : Bcache)
    → b + n ≡ nbuf
    → ((i : ℕ) → i < b → In i xs)
    → ((i : ℕ) → In i xs → i < b)
    → Distinct (head ∷ xs)
    → Chain s.next s.prev head head xs
    → Ordered (linked n b xs) (link_all n b s)
unfolding link_all
link_all-Ordered zero b xs s e all below d c = record {
  chain = c;
  distinct = d;
  all = λ i l. all i (omega arith);
  below = λ i m. omega (arith, below i m);
}
link_all-Ordered (suc n) b xs s e all below d c =
    let fresh : ¬ In b xs = λ m. absurd (omega (arith, below b m)) in
    link_all-Ordered n (suc b) (b ∷ xs)
      (link_front b (record s { locked = update b false s.locked })) (omega arith)
      (λ i l. elim (ℕ_discrete i b) [ yes q ↦ inl q | no q ↦ inr (all i (omega arith)) ])
      (λ i m. elim m [ inl q ↦ omega arith | inr q ↦ omega (arith, below i q) ])
      ((λ m. elim m [ inl q ↦ absurd (omega arith) | inr q ↦ d.0 q ]), (fresh, d.1))
      (link_lem b xs _ ((λ m. elim m [ inl q ↦ absurd (omega arith) | inr q ↦ fresh q ]), d) c)

link_all-dev : (n b : ℕ) (s : Bcache) → (link_all n b s).dev ≡ s.dev
unfolding link_all link_front
link_all-dev zero b s = refl
link_all-dev (suc n) b s = link_all-dev n (suc b) _

pub binit-Ordered : (s : Bcache) → Ordered (linked nbuf 0 []) (binit s)
unfolding binit
binit-Ordered s =
    link_all-Ordered nbuf 0 []
      (record s { prev = update head head s.prev; next = update head head s.next }) refl
      (λ i l. absurd (omega arith)) (λ i m. elim m [ ]) ((λ m. m), tt) (arrives refl refl)

-- `s` is the memory before: zero.
binit-BioInv : (s : Bcache) → ((i : ℕ) → s.dev i ≡ 0) → BioInv (binit s)
unfolding binit Unique
binit-BioInv s z = record {
  order = linked nbuf 0 [];
  ordered = binit-Ordered s;
  unique = λ i j li lj ne d n. absurd (ne (ap (λ f. f i) (link_all-dev nbuf 0 _) ∙ z i));
}

-- A call. A buffer is released by who has locked it, and its count is of its users.
pub data BioStep (s : Bcache) : Bcache → Type 0 where
  reads : (dev blockno b : ℕ) {s' : Bcache} → bread dev blockno s ≡ ok (b, s') → BioStep s s'
  writes : (b : ℕ) {s' : Bcache} → bwrite b s ≡ ok s' → BioStep s s'
  releases :
      (b : ℕ) {s' : Bcache}
      → b < nbuf
      → s.refcnt b ≢ 0
      → s.locked b ≡ true
      → brelse b s ≡ ok s'
      → BioStep s s'

pub data BioRun : Bcache → Type 0 where
  starts : (s : Bcache) → ((i : ℕ) → s.dev i ≡ 0) → BioRun (binit s)
  goes : {s s' : Bcache} → BioRun s → BioStep s s' → BioRun s'

step-BioInv : (s s' : Bcache) → BioStep s s' → BioInv s → BioInv s'
step-BioInv s s' (reads dev blockno b e) v =
    Ends-ok (λ r. BioInv r.1) (bread dev blockno s) (b, s') (bread-BioInv dev blockno s v) e
step-BioInv s s' (writes b e) v = Ends-ok BioInv (bwrite b s) s' (bwrite-BioInv b s v) e
step-BioInv s s' (releases b lt used held e) v =
    Ends-ok BioInv (brelse b s) s' (brelse-BioInv b s lt used held v) e

-- In every state that `binit` on zeroed memory and then calls of `bread`, of `bwrite`, and of
-- `brelse` by who has locked the buffer and is counted, reach, the pointers lead in both directions
-- through each of the 30 buffers once, and no block of a device other than 0 has two buffers.
pub BioRun-BioInv : (s : Bcache) → BioRun s → BioInv s
BioRun-BioInv s (starts s0 z) = binit-BioInv s0 z
BioRun-BioInv s (goes {s = before} run step) = step-BioInv before s step (BioRun-BioInv before run)
