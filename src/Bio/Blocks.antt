-- ===== src/Bio/Blocks.antt =====
-- The blocks that the cache stands for, and the steps that keep them.
use nice_system_calls.Common.{
  ℕ, ◌<◌, ◌≡◌, ◌≢◌, ℕ_discrete, refl, ap, sym, subst, ◌∙◌, inl, inr, Bool, true, false, arith, leb,
  eq→==, ne→==, Bool-cases, Returns,
}
use nice_system_calls.Memory.{Memory}
use nice_system_calls.Bio.{Bcache, nbuf, update, lock_buf, iderw}
use nice_system_calls.Bio.Uniqueness.{Unique}

-- The blocks of disk 1 are `m`: a valid buffer has its block, and the disk has each block of which no
-- valid buffer is dirty.
pub record Coherent (m : ℕ → Memory) (s : Bcache) : Type 0 where
  pub cached : (i : ℕ) → i < nbuf → s.dev i ≡ 1 → s.valid i ≡ true → s.content i ≡ m (s.blockno i)
  pub stored :
      (n : ℕ)
      → ((i : ℕ) → i < nbuf → s.dev i ≡ 1 → s.blockno i ≡ n → s.valid i ≡ true → s.dirty i ≡ false)
      → s.disk n ≡ m n
  pub dirty_valid : (i : ℕ) → i < nbuf → s.dirty i ≡ true → s.valid i ≡ true

-- Buffer `b` is locked for block `n`.
pub record Got (n b : ℕ) (s : Bcache) : Type 0 where
  pub in_array : b < nbuf
  pub dev : s.dev b ≡ 1
  pub blockno : s.blockno b ≡ n
  pub locked : s.locked b ≡ true
  pub on_disk : n < s.disksize

pub not_equal : ¬ (false ≡ true)
not_equal e = absurd (grind arith)

pub update_same {ℓ} : {A : Type ℓ} (i : ℕ) (a : A) (f : ℕ → A) → update i a f i ≡ a
update_same i a f = rw (eq→== i i refl) refl

pub update_other {ℓ} : {A : Type ℓ} (i x : ℕ) (a : A) (f : ℕ → A) → x ≢ i → update i a f x ≡ f x
update_other i x a f ne = rw (ne→== x i ne) refl

-- A flag that is set at one buffer is set where it was.
pub update_set : (i x : ℕ) (f : ℕ → Bool) → f x ≡ true → update i true f x ≡ true
update_set i x f h = elim (ℕ_discrete x i) [
  | yes e ↦ ap (update i true f) e ∙ update_same i true f
  | no ne ↦ update_other i x true f ne ∙ h
]

-- `if(!(b->flags & B_VALID)) iderw(b);`
pub read_lem :
    (m : ℕ → Memory) (n b : ℕ) (s : Bcache)
    → Coherent m s
    → Unique s
    → Got n b s
    → s.valid b ≡ false
    → Returns (λ s'. Coherent m s' × (s'.content b ≡ m n)) (iderw b s)
unfolding iderw Unique
read_lem m n b s c u g v =
    let clean : s.dirty b ≡ false = elim (Bool-cases (s.dirty b)) [
      | inl d ↦ absurd (ground (arith, c.dirty_valid b g.in_array d, v))
      | inr d ↦ d
    ] in
    let inside : leb s.disksize (s.blockno b) ≡ false = ground (arith, g.on_disk, g.blockno) in
    let current : s.disk (s.blockno b) ≡ m (s.blockno b) = c.stored (s.blockno b) (λ i l d e w.
      let same : i ≡ b = u i b l g.in_array (λ z. absurd (omega arith)) (d ∙ sym g.dev) e in
      subst (λ k. s.dirty k ≡ false) (sym same) clean) in
    rw (g.locked, v, eq→== (s.dev b) 1 g.dev, inside, clean)
      (
        record {
          cached = λ i l d w. elim (ℕ_discrete i b) [
            | yes e ↦
                ap (update b (s.disk (s.blockno b)) s.content) e
                ∙ update_same b _ s.content
                ∙ current
                ∙ ap (λ k. m (s.blockno k)) (sym e)
            | no ne ↦
                update_other b i _ s.content ne
                ∙ c.cached i l d (sym (update_other b i true s.valid ne) ∙ w)
          ];
          stored = λ k h. c.stored k (λ i l d e w. h i l d e (update_set b i s.valid w));
          dirty_valid = λ i l d. update_set b i s.valid (c.dirty_valid i l d);
        },
        rw (eq→== b b refl) (current ∙ ap m g.blockno),
      )

-- A lock that is taken, or a count, changes no block.
pub Coherent-lock :
    (m : ℕ → Memory) (n b : ℕ) (s : Bcache)
    → Coherent m s
    → Unique s
    → b < nbuf
    → s.dev b ≡ 1
    → s.blockno b ≡ n
    → s.locked b ≡ false
    → n < s.disksize
    → Returns (λ r. Coherent m r.1 × Unique r.1 × Got n r.0 r.1) (lock_buf b s)
unfolding lock_buf Unique
Coherent-lock m n b s c u l d e free inside = rw free (
  record { cached = c.cached; stored = c.stored; dirty_valid = c.dirty_valid },
  u,
  record {
    in_array = l;
    dev = d;
    blockno = e;
    locked = update_same b true s.locked;
    on_disk = inside;
  },
)

-- A spare buffer is taken for another block.
pub Coherent-recycle :
    (m : ℕ → Memory) (n b : ℕ) (s : Bcache)
    → Coherent m s
    → s.dirty b ≡ false
    → Coherent m (record s {
      dev = update b 1 s.dev;
      blockno = update b n s.blockno;
      valid = update b false s.valid;
      dirty = update b false s.dirty;
      refcnt = update b 1 s.refcnt;
    })
Coherent-recycle m n b s c clean = record {
  cached = λ i l d w. elim (ℕ_discrete i b) [
    | yes e ↦
        absurd
          (not_equal (sym (update_same b false s.valid) ∙ ap (update b false s.valid) (sym e) ∙ w))
    | no ne ↦
        c.cached i l (sym (update_other b i 1 s.dev ne) ∙ d)
          (sym (update_other b i false s.valid ne) ∙ w)
        ∙ ap m (sym (update_other b i n s.blockno ne))
  ];
  stored = λ k h. c.stored k (λ i l d e w. elim (ℕ_discrete i b) [
    | yes q ↦ ap s.dirty q ∙ clean
    | no ne ↦
        sym (update_other b i false s.dirty ne)
        ∙ h i l (update_other b i 1 s.dev ne ∙ d) (update_other b i n s.blockno ne ∙ e)
            (update_other b i false s.valid ne ∙ w)
  ]);
  dirty_valid = λ i l d. elim (ℕ_discrete i b) [
    | yes e ↦
        absurd
          (not_equal (sym (update_same b false s.dirty) ∙ ap (update b false s.dirty) (sym e) ∙ d))
    | no ne ↦
        update_other b i false s.valid ne
        ∙ c.dirty_valid i l (sym (update_other b i false s.dirty ne) ∙ d)
  ];
}
