-- ===== src/Bio/Uniqueness.antt =====
-- Which blocks the buffers are of, call by call.
use nice_system_calls.Common.{
  ℕ, ◌-◌, ◌<◌, ◌≡◌, ◌≢◌, ℕ_discrete, ap, sym, subst, inl, inr, List, [], ◌∷◌, ◌++◌, Bool, true,
  false, not, ◌&&◌, none, arith, leb, ◌==◌, if◌then◌else◌, Bool-cases, Option-cases, ok,
  Returns-Ends, Ends, Ends-bind, Ends-mono, Ends-both,
}
use nice_system_calls.Common.Distinct.{In}
use nice_system_calls.Bio.{
  Bcache, nbuf, update, link_front, has_block, is_spare, lock_buf, recycle, bget, iderw, bread,
  bwrite, brelse, unlink,
}
use nice_system_calls.Bio.Release.{Ordered, brelse-Ordered}
use nice_system_calls.Bio.Lookup.{first_of, first_of-none, backwards, bget_of, bget-Ordered}

-- Two buffers of a device other than 0, which no disk has, are of different blocks.
unfoldable pub Unique : Bcache → Type 0
Unique s =
    (i j : ℕ)
    → i < nbuf
    → j < nbuf
    → s.dev i ≢ 0
    → s.dev i ≡ s.dev j
    → s.blockno i ≡ s.blockno j
    → i ≡ j

pub record BioInv (s : Bcache) : Type 0 where
  pub order : List ℕ
  pub ordered : Ordered order s
  pub unique : Unique s

lock_buf-BioInv : (b : ℕ) (s : Bcache) → BioInv s → Ends (λ r. BioInv r.1) (lock_buf b s)
unfolding lock_buf Unique
lock_buf-BioInv b s v = elim (Bool-cases (s.locked b)) [
  | inl l ↦ rw l tt
  | inr l ↦ rw l (record {
    order = v.order;
    ordered = record {
      chain = v.ordered.chain;
      distinct = v.ordered.distinct;
      all = v.ordered.all;
      below = v.ordered.below;
    };
    unique = v.unique;
  })
]

-- No buffer has the block, and buffer `b` gets it.
pub recycled-Unique :
    (dev blockno b : ℕ) (xs : List ℕ) (s : Bcache)
    → Ordered xs s
    → Unique s
    → first_of (has_block dev blockno s) xs ≡ none
    → (i j : ℕ) → i < nbuf
    → j < nbuf
    → update b dev s.dev i ≢ 0
    → update b dev s.dev i ≡ update b dev s.dev j
    → update b blockno s.blockno i ≡ update b blockno s.blockno j
    → i ≡ j
unfolding Unique has_block
recycled-Unique dev blockno b xs s o u e i j li lj ne d n = elim (ℕ_discrete i b) [
  | yes ib ↦ elim (ℕ_discrete j b) [
    | yes jb ↦ omega arith
    | no jb ↦ absurd (ground (arith, first_of-none (has_block dev blockno s) xs j e (o.all j lj)))
  ]
  | no ib ↦ elim (ℕ_discrete j b) [
    | yes jb ↦ absurd (ground (arith, first_of-none (has_block dev blockno s) xs i e (o.all i li)))
    | no jb ↦ u i j li lj (λ z. ne (ground arith)) (ground arith) (ground arith)
  ]
]

bget-BioInv :
    (dev blockno : ℕ) (s : Bcache) → BioInv s → Ends (λ r. BioInv r.1) (bget dev blockno s)
unfolding bget_of recycle Unique
bget-BioInv dev blockno s v =
    rw (bget-Ordered dev blockno v.order s v.ordered)
      (elim (Option-cases (first_of (has_block dev blockno s) v.order)) [
        | inr (b, e) ↦
            rw (bget_of, e)
              (lock_buf-BioInv b _ (record {
                order = v.order;
                ordered = record {
                  chain = v.ordered.chain;
                  distinct = v.ordered.distinct;
                  all = v.ordered.all;
                  below = v.ordered.below;
                };
                unique = v.unique;
              }))
        | inl e ↦ elim (Option-cases (first_of (is_spare s) (backwards v.order))) [
          | inl e' ↦ rw (bget_of, e, e') tt
          | inr (b, e') ↦
              rw (bget_of, e, e')
                (lock_buf-BioInv b _ (record {
                  order = v.order;
                  ordered = record {
                    chain = v.ordered.chain;
                    distinct = v.ordered.distinct;
                    all = v.ordered.all;
                    below = v.ordered.below;
                  };
                  unique = recycled-Unique dev blockno b v.order s v.ordered v.unique e;
                }))
        ]
      ])

-- The calls of the driver change neither the ring nor the blocks of the buffers.
iderw-BioInv : (b : ℕ) (s : Bcache) → BioInv s → Ends BioInv (iderw b s)
unfolding iderw Unique
iderw-BioInv b s v = elim (Bool-cases (not (s.locked b))) [
  | inl a ↦ rw a tt
  | inr a ↦ elim (Bool-cases (s.valid b && not (s.dirty b))) [
    | inl c ↦ rw (a, c) tt
    | inr c ↦ elim (Bool-cases (not (s.dev b == 1))) [
      | inl d ↦ rw (a, c, d) tt
      | inr d ↦ elim (Bool-cases (leb s.disksize (s.blockno b))) [
        | inl e ↦ rw (a, c, d, e) tt
        | inr e ↦ rw (a, c, d, e) (read_or_write (s.dirty b))
      ]
    ]
  ]
]
  where
    read_or_write :
        (dirty : Bool)
        → Ends BioInv (
            if dirty
            then ok (record s {
              dirty = update b false s.dirty;
              disk = update (s.blockno b) (s.content b) s.disk;
              valid = update b true s.valid;
            })
            else ok (record s {
              content = update b (s.disk (s.blockno b)) s.content;
              valid = update b true s.valid;
            }))
    read_or_write true = record {
      order = v.order;
      ordered = record {
        chain = v.ordered.chain;
        distinct = v.ordered.distinct;
        all = v.ordered.all;
        below = v.ordered.below;
      };
      unique = v.unique;
    }
    read_or_write false = record {
      order = v.order;
      ordered = record {
        chain = v.ordered.chain;
        distinct = v.ordered.distinct;
        all = v.ordered.all;
        below = v.ordered.below;
      };
      unique = v.unique;
    }

pub bread-BioInv :
    (dev blockno : ℕ) (s : Bcache) → BioInv s → Ends (λ r. BioInv r.1) (bread dev blockno s)
unfolding bread
bread-BioInv dev blockno s v =
    Ends-bind (λ r. BioInv r.1) (λ r. BioInv r.1) (bget dev blockno s) _
      (bget-BioInv dev blockno s v)
      (λ r h. elim (Bool-cases (r.1.valid r.0)) [
        | inl c ↦ rw c h
        | inr c ↦ rw c (
            Ends-bind BioInv (λ r. BioInv r.1) (iderw r.0 r.1) _ (iderw-BioInv r.0 r.1 h)
              (λ s' h'. h'))
      ])

pub bwrite-BioInv : (b : ℕ) (s : Bcache) → BioInv s → Ends BioInv (bwrite b s)
unfolding bwrite Unique
bwrite-BioInv b s v = elim (Bool-cases (not (s.locked b))) [
  | inl a ↦ rw a tt
  | inr a ↦ rw a (
      iderw-BioInv b _ (record {
        order = v.order;
        ordered = record {
          chain = v.ordered.chain;
          distinct = v.ordered.distinct;
          all = v.ordered.all;
          below = v.ordered.below;
        };
        unique = v.unique;
      }))
]

-- Where a buffer stands in the order.
split_at : (b : ℕ) (xs : List ℕ) → In b xs → (l : List ℕ) × (r : List ℕ) × (xs ≡ l ++ b ∷ r)
split_at b (x ∷ xs) (inl e) = ([], xs, ap (λ k. k ∷ xs) (sym e))
split_at b (x ∷ xs) (inr m) = let (l, r, e) = split_at b xs m in (x ∷ l, r, ap (λ k. x ∷ k) e)
split_at b [] m = elim m [ ]

brelse-Unique : (b : ℕ) (s : Bcache) → Unique s → Ends Unique (brelse b s)
unfolding brelse Unique link_front unlink
brelse-Unique b s u = elim (Bool-cases (s.locked b)) [
  | inr h ↦ rw h tt
  | inl h ↦ elim (Bool-cases ((if s.refcnt b == 0 then 4294967295 else s.refcnt b - 1) == 0)) [
    | inl z ↦ rw (h, z) u
    | inr z ↦ rw (h, z) u
  ]
]

pub brelse-BioInv :
    (b : ℕ) (s : Bcache)
    → b < nbuf
    → s.refcnt b ≢ 0
    → s.locked b ≡ true
    → BioInv s
    → Ends BioInv (brelse b s)
brelse-BioInv b s lt used held v =
    let (l, r, e) = split_at b v.order (v.ordered.all b lt) in
    let order : List ℕ = if s.refcnt b == 1 then b ∷ l ++ r else l ++ b ∷ r in
    Ends-mono (λ s'. Ordered (if s.refcnt b == 1 then b ∷ l ++ r else l ++ b ∷ r) s' × Unique s')
      BioInv (brelse b s)
      (Ends-both (Ordered (if s.refcnt b == 1 then b ∷ l ++ r else l ++ b ∷ r)) Unique (brelse b s)
        (Returns-Ends (Ordered (if s.refcnt b == 1 then b ∷ l ++ r else l ++ b ∷ r)) (brelse b s)
          (brelse-Ordered b l r s (subst (λ xs. Ordered xs s) e v.ordered) held used))
        (brelse-Unique b s v.unique))
      (λ s' h. record { order = _; ordered = h.0; unique = h.1 })
