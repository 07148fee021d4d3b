-- ===== src/Bio/Coherent.antt =====
-- bread and bwrite, and the blocks that the cache stands for.
use nice_system_calls.Common.{
  ℕ, ◌+◌, ◌<◌, ◌≡◌, ◌≢◌, ℕ_discrete, refl, ap, sym, ◌∙◌, inl, inr, Bool, true, false, ◌&&◌, arith,
  leb, eq→==, Bool-cases, Option-cases, Returns, Returns-bind,
}
use nice_system_calls.Memory.{Memory}
use nice_system_calls.Bio.{
  Bcache, nbuf, update, has_block, is_spare, recycle, bget, iderw, bread, bwrite,
}
use nice_system_calls.Bio.Lookup.{
  first_of, first_of-none, first_of-some, backwards, In-backwards_iff, bget_of, bget-Ordered,
}
use nice_system_calls.Bio.Uniqueness.{Unique, BioInv, recycled-Unique}
use nice_system_calls.Bio.Blocks.{
  Coherent, Got, update_same, update_other, not_equal, update_set, read_lem, Coherent-lock,
  Coherent-recycle,
}

-- What a read of block `n` needs: the block is on the disk, no one holds its buffer, and some buffer
-- is spare and not held.
pub record Readable (n : ℕ) (s : Bcache) : Type 0 where
  pub on_disk : n < s.disksize
  pub free : (i : ℕ) → i < nbuf → s.dev i ≡ 1 → s.blockno i ≡ n → s.locked i ≡ false
  pub spare : ℕ
  pub spare_in : spare < nbuf
  pub spare_count : s.refcnt spare ≡ 0
  pub spare_clean : s.dirty spare ≡ false
  pub unheld : (i : ℕ) → i < nbuf → s.refcnt i ≡ 0 → s.locked i ≡ false

hit_lem : (n b : ℕ) (s : Bcache) → has_block 1 n s b ≡ true → (s.dev b ≡ 1) × (s.blockno b ≡ n)
unfolding has_block
hit_lem n b s h = (ground (arith, h), ground (arith, h))

spare_lem : (b : ℕ) (s : Bcache) → is_spare s b ≡ true → (s.refcnt b ≡ 0) × (s.dirty b ≡ false)
unfolding is_spare
spare_lem b s h = (ground (arith, h), ground (arith, h))

is_spare_lem : (b : ℕ) (s : Bcache) → s.refcnt b ≡ 0 → s.dirty b ≡ false → is_spare s b ≡ true
unfolding is_spare
is_spare_lem b s z d = rw (z, d) refl

bget_lem :
    (m : ℕ → Memory) (n : ℕ) (s : Bcache)
    → BioInv s
    → Coherent m s
    → Readable n s
    → Returns (λ r. Coherent m r.1 × Unique r.1 × Got n r.0 r.1) (bget 1 n s)
unfolding recycle Unique bget_of
bget_lem m n s v c w =
    rw (bget-Ordered 1 n v.order s v.ordered)
      (elim (Option-cases (first_of (has_block 1 n s) v.order)) [
        | inr (b, e) ↦
            let (t, member) = first_of-some (has_block 1 n s) v.order b e in
            let (d, q) = hit_lem n b s t in
            let l = v.ordered.below b member in
            rw (bget_of, e)
              (Coherent-lock m n b (record s { refcnt = update b (s.refcnt b + 1) s.refcnt })
                (record { cached = c.cached; stored = c.stored; dirty_valid = c.dirty_valid })
                v.unique l d q (w.free b l d q) w.on_disk)
        | inl e ↦ elim (Option-cases (first_of (is_spare s) (backwards v.order))) [
          | inl e' ↦ absurd (
              never (
                first_of-none (is_spare s) (backwards v.order) w.spare e'
                  ((In-backwards_iff w.spare v.order).1 (v.ordered.all w.spare w.spare_in))))
          | inr (b, e') ↦
              let (t, member) = first_of-some (is_spare s) (backwards v.order) b e' in
              let (z, clean) = spare_lem b s t in
              let l = v.ordered.below b ((In-backwards_iff b v.order).0 member) in
              rw (bget_of, e, e')
                (Coherent-lock m n b _ (Coherent-recycle m n b s c clean)
                  (recycled-Unique 1 n b v.order s v.ordered v.unique e) l (update_same b 1 s.dev)
                  (update_same b n s.blockno) (w.unheld b l z) w.on_disk)
        ]
      ])
  where
    never : ¬ (is_spare s w.spare ≡ false)
    never e = absurd (not_equal (sym e ∙ is_spare_lem w.spare s w.spare_count w.spare_clean))

-- `bread` gives the current content of a block. It returns where the pointers lead through each
-- buffer once and no block has two buffers, the block is on the disk, no one holds its buffer, some
-- buffer is spare and no buffer out of use is held; where each valid buffer has the content of its
-- block, and the disk has that of each block of which no valid buffer is dirty, the buffer it gives
-- has the content of the block, and the buffers and the disk still have the content of the blocks.
pub bread-Coherent :
    (m : ℕ → Memory) (n : ℕ) (s : Bcache)
    → BioInv s
    → Coherent m s
    → Readable n s
    → Returns (λ r. Coherent m r.1 × (r.1.content r.0 ≡ m n)) (bread 1 n s)
unfolding bread
bread-Coherent m n s v c w =
    Returns-bind (λ r. Coherent m r.1 × Unique r.1 × Got n r.0 r.1) _ (bget 1 n s) _
      (bget_lem m n s v c w)
      (λ r h. elim (Bool-cases (r.1.valid r.0)) [
        | inl valid ↦
            rw valid (h.0, (h.0).cached r.0 (h.2).in_array (h.2).dev valid ∙ ap m (h.2).blockno)
        | inr invalid ↦ rw invalid (
            Returns-bind (λ s'. Coherent m s' × (s'.content r.0 ≡ m n)) _ (iderw r.0 r.1) _
              (read_lem m n r.0 r.1 h.0 h.1 h.2 invalid) (λ s' k. k))
      ])

same_buffer :
    (n b : ℕ) (s : Bcache)
    → Unique s
    → Got n b s
    → (i : ℕ) → i < nbuf
    → s.dev i ≡ 1
    → s.blockno i ≡ n
    → i ≡ b
unfolding Unique
same_buffer n b s u g i l d e =
    u i b l g.in_array (λ z. absurd (omega arith)) (d ∙ sym g.dev) (e ∙ sym g.blockno)

-- The holder of the buffer of block `n` puts other content into it.
abbrev pub fill : ℕ → Memory → Bcache → Bcache
fill b new s = record s { content = update b new s.content }

-- Where no block has two buffers, and valid buffers and the disk have the content of the blocks
-- (the disk of those of which no valid buffer is dirty), the holder of the buffer of a block may
-- put new content into it: `bwrite` then returns, the disk has it, and the buffers and the disk
-- have the blocks with this one changed.
pub bwrite-Coherent :
    (m : ℕ → Memory) (n b : ℕ) (new : Memory) (s : Bcache)
    → Coherent m s
    → Unique s
    → Got n b s
    → Returns (λ s'. Coherent (update n new m) s' × (s'.disk n ≡ new)) (bwrite b (fill b new s))
unfolding bwrite iderw
bwrite-Coherent m n b new s c u g =
    let inside : leb s.disksize (s.blockno b) ≡ false = ground (arith, g.on_disk, g.blockno) in
    rw
      (g.locked, update_same b true s.dirty, eq→== (s.dev b) 1 g.dev, inside, and_false (s.valid b))
      (
        written,
        ap (update (s.blockno b) (update b new s.content b) s.disk) (sym g.blockno)
            ∙ update_same (s.blockno b) _ s.disk
            ∙ update_same b new s.content,
      )
  where
    and_false : (v : Bool) → (v && false) ≡ false
    and_false true = refl
    and_false false = refl

    -- Another buffer is of another block.
    other : (i : ℕ) → i < nbuf → s.dev i ≡ 1 → i ≢ b → s.blockno i ≢ n
    other i l d ne e = ne (same_buffer n b s u g i l d e)

    clean_other : (i : ℕ) → i ≢ b → update b false (update b true s.dirty) i ≡ s.dirty i
    clean_other i ne =
        update_other b i false (update b true s.dirty) ne ∙ update_other b i true s.dirty ne

    written : Coherent (update n new m) (record s {
      content = update b new s.content;
      dirty = update b false (update b true s.dirty);
      disk = update (s.blockno b) (update b new s.content b) s.disk;
      valid = update b true s.valid;
    })
    written = record {
      cached = λ i l d w. elim (ℕ_discrete i b) [
        | yes e ↦
            ap (update b new s.content) e
            ∙ update_same b new s.content
            ∙ sym (ap (update n new m) (ap s.blockno e ∙ g.blockno) ∙ update_same n new m)
        | no ne ↦
            update_other b i new s.content ne
            ∙ c.cached i l d (sym (update_other b i true s.valid ne) ∙ w)
            ∙ sym (update_other n (s.blockno i) new m (other i l d ne))
      ];
      stored = λ k h. elim (ℕ_discrete k n) [
        | yes e ↦
            ap (update (s.blockno b) (update b new s.content b) s.disk) (e ∙ sym g.blockno)
            ∙ update_same (s.blockno b) _ s.disk
            ∙ update_same b new s.content
            ∙ sym (ap (update n new m) e ∙ update_same n new m)
        | no ne ↦
            update_other (s.blockno b) k _ s.disk (λ q. ne (q ∙ g.blockno))
            ∙ c.stored k (λ i l d e w. elim (ℕ_discrete i b) [
              | yes q ↦ absurd (ne (sym e ∙ ap s.blockno q ∙ g.blockno))
              | no q ↦ sym (clean_other i q) ∙ h i l d e (update_set b i s.valid w)
            ])
            ∙ sym (update_other n k new m ne)
      ];
      dirty_valid = λ i l d. elim (ℕ_discrete i b) [
        | yes e ↦ ap (update b true s.valid) e ∙ update_same b true s.valid
        | no ne ↦ update_set b i s.valid (c.dirty_valid i l (sym (clean_other i ne) ∙ d))
      ];
    }
