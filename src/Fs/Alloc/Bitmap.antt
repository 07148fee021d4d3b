-- ===== src/Fs/Alloc/Bitmap.antt =====
-- balloc and bfree, and the bits of the bitmap.
use nice_system_calls.Common.{
  ℕ, ◌+◌, ◌-◌, ◌*◌, ◌/◌, ◌%◌, ◌^◌, ◌≤◌, ◌<◌, ◌≡◌, ◌≢◌, refl, ap, sym, subst, ◌∙◌, arith, ltb, ◌==◌,
  eq→==, ne→==, if◌then◌else◌, inl, inr, Bool-cases, ℕ_discrete, ◌>>=◌, Returns, Returns-mono,
  Returns-bind,
}
use nice_system_calls.Memory.{Memory, poke}
use nice_system_calls.Memory.Move.{memset_lem}
use nice_system_calls.Fs.{Fs, bsize, bpb, bblock, bzero, log_block, readsb}
use nice_system_calls.Fs.Bits.{bit, set_bit, clear_bit, bit-set_bit, bit-clear_bit}
use nice_system_calls.Fs.Alloc.{take_block, balloc_from, balloc, bfree}
use nice_system_calls.Fs.Alloc.Search.{bit_of, Taken, balloc_from_lem}

-- The bitmap lies in front of the block.
abbrev BehindBitmap : ℕ → Fs → Type 0
BehindBitmap b s = (c : ℕ) → c < s.sb.size → bblock c s.sb < b

-- What taking a block does to the disk.
pub record TakenEffect (s : Fs) (b : ℕ) (s' : Fs) : Type 0 where
  pub bits : (c : ℕ) → c < s.sb.size → bit_of c s' ≡ (if c == b then 1 else bit_of c s)
  pub zeroed : (k : ℕ) → k < bsize → s'.blocks b k ≡ 0
  pub rest : (c : ℕ) → c ≢ b → c ≢ bblock b s.sb → s'.blocks c ≡ s.blocks c
  pub same_sb : s'.sb ≡ s.sb

-- In one block of the bitmap: the bit that is set or cleared to `v`, and the other bits.
bit-poke :
    (bp : Memory) (j k v new : ℕ)
    → ((m : ℕ) → m < 8 → bit new m ≡ (if m == k % 8 then v else bit (bp (k / 8)) m))
    → bit (poke (k / 8) new bp (j / 8)) (j % 8) ≡ (if j == k then v else bit (bp (j / 8)) (j % 8))
bit-poke bp j k v new h = elim (ℕ_discrete (j / 8) (k / 8)) [
  | no ne ↦ rw (ne→== (j / 8) (k / 8) ne, ne→== j k (λ e. ne (ap (λ n. n / 8) e))) refl
  | yes same ↦
      rw (same, eq→== (k / 8) (k / 8) refl)
        (h (j % 8) (omega arith) ∙ elim (ℕ_discrete (j % 8) (k % 8)) [
          | yes e ↦
              (let whole : j ≡ k = omega arith in
                rw (eq→== (j % 8) (k % 8) e, eq→== j k whole) refl)
          | no ne ↦ rw (ne→== (j % 8) (k % 8) ne, ne→== j k (λ e. ne (ap (λ n. n % 8) e))) refl
        ])
]

-- The bit of block `b` is written in its block of the bitmap.
write_bit :
    (b v new c : ℕ) (s : Fs)
    → ((m : ℕ)
        → m < 8
        → bit new m
          ≡ (if m == b % bpb % 8 then v else bit (s.blocks (bblock b s.sb) (b % bpb / 8)) m))
    → bit_of c (log_block (bblock b s.sb) (poke (b % bpb / 8) new (s.blocks (bblock b s.sb))) s)
      ≡ (if c == b then v else bit_of c s)
write_bit b v new c s h = elim (ℕ_discrete (c / bpb) (b / bpb)) [
  | no ne ↦
      (let other : bblock c s.sb ≢ bblock b s.sb = omega arith in
        rw (ne→== (bblock c s.sb) (bblock b s.sb) other, ne→== c b (λ e. ne (ap (λ n. n / bpb) e)))
          refl)
  | yes same ↦
      rw (same, eq→== (bblock b s.sb) (bblock b s.sb) refl)
        (bit-poke (s.blocks (bblock b s.sb)) (c % bpb) (b % bpb) v new h
          ∙ elim (ℕ_discrete (c % bpb) (b % bpb)) [
            | yes e ↦
                (let whole : c ≡ b = omega arith in
                  rw (eq→== (c % bpb) (b % bpb) e, eq→== c b whole) refl)
            | no ne ↦
                rw (ne→== (c % bpb) (b % bpb) ne, ne→== c b (λ e. ne (ap (λ n. n % bpb) e))) refl
          ])
]

take_block_lem :
    (b : ℕ) (s : Fs) → BehindBitmap b s → TakenEffect s b (take_block (b / bpb * bpb) (b % bpb) s)
unfolding take_block bzero
take_block_lem b s behind =
    let whole : b / bpb * bpb + b % bpb ≡ b = omega arith in
    let quotient : b / bpb * bpb / bpb ≡ b / bpb = omega arith in
    record {
      bits = λ c lt.
          rw (whole, quotient, ne→== (bblock c s.sb) b (λ e. absurd (omega (arith, behind c lt))))
            (write_bit b 1 (set_bit (s.blocks (bblock b s.sb) (b % bpb / 8)) (b % bpb % 8)) c s
              (λ m l.
                bit-set_bit (s.blocks (bblock b s.sb) (b % bpb / 8)) (b % bpb % 8) m (omega arith)
                  l));
      zeroed = λ k lt. rw (whole, eq→== b b refl) (memset_lem 0 0 bsize _ k ∙ ground arith);
      rest = λ c ne ne'. rw (whole, quotient, ne→== c b ne, ne→== c (bblock b s.sb) ne') refl;
      same_sb = refl;
    }

-- The layout of a disk: the super block in block 1, and behind it the bitmap, whose own blocks and
-- those before them are never free.
pub record Layout (s : Fs) : Type 0 where
  pub super : readsb s ≡ s.sb
  pub boot : 1 < s.sb.bmapstart
  pub taken : (c : ℕ) → c ≤ s.sb.size / bpb + s.sb.bmapstart → bit_of c s ≢ 0

Layout-BehindBitmap : (s : Fs) (b : ℕ) → Layout s → bit_of b s ≡ 0 → BehindBitmap b s
Layout-BehindBitmap s b l free c lt = elim (Bool-cases (ltb (bblock c s.sb) b)) [
  | inl q ↦ ground arith
  | inr q ↦ absurd (l.taken b (ground arith) free)
]

-- What `balloc` gives.
pub record Allocated (s : Fs) (b : ℕ) (s' : Fs) : Type 0 where
  pub inside : b < s.sb.size
  pub was_free : bit_of b s ≡ 0
  pub first : (c : ℕ) → c < b → bit_of c s ≢ 0
  pub effect : TakenEffect s b s'

-- On a disk whose super block is in block 1 and whose bitmap, with all blocks in front of it, is in
-- use, `balloc` returns where some block is free. It gives the first free block, sets its bit and
-- no other, fills it with zeros, and changes no block but this one and its block of the bitmap.
pub balloc_lem :
    (s : Fs) (f : ℕ)
    → Layout s
    → f < s.sb.size
    → bit_of f s ≡ 0
    → Returns (λ r. Allocated s r.0 r.1) (balloc s)
unfolding balloc
balloc_lem s f l lt free =
    Returns-mono (λ r. Taken s r.0 r.1) (λ r. Allocated s r.0 r.1)
      (balloc_from (s.sb.size / bpb + 1) 0 s)
      (balloc_from_lem (s.sb.size / bpb + 1) 0 f s (omega arith) lt free
        (λ c l'. absurd (omega arith)))
      (λ r t. record {
        inside = t.inside;
        was_free = t.was_free;
        first = t.first;
        effect =
            subst (TakenEffect s r.0) (sym t.state)
              (take_block_lem r.0 s (Layout-BehindBitmap s r.0 l t.was_free));
      })

bfree_lem :
    (b : ℕ) (s : Fs)
    → readsb s ≡ s.sb
    → bit_of b s ≢ 0
    → Returns (λ s'. (c : ℕ) → bit_of c s' ≡ (if c == b then 0 else bit_of c s)) (bfree b s)
unfolding bfree
bfree_lem b s e used =
    let byte : ℕ = s.blocks (bblock b s.sb) (b % bpb / 8) in
    let cleared : clear_bit byte (b % bpb % 8) ≡ byte - 2 ^ (b % bpb % 8) =
      rw (ne→== (bit_of b s) 0 used) refl in
    rw (e, ne→== (bit_of b s) 0 used)
      (λ c. write_bit b 0 (byte - 2 ^ (b % bpb % 8)) c s (λ m l.
        ap (λ y. bit y m) (sym cleared) ∙ bit-clear_bit byte (b % bpb % 8) m (omega arith) l))

readsb_same : (s s' : Fs) → s'.blocks 1 ≡ s.blocks 1 → readsb s' ≡ readsb s
unfolding readsb
readsb_same s s' e = rw e refl

-- On such a disk with a free block, `bfree` of the block that `balloc` gave returns, and every bit
-- of the bitmap is as before the two calls.
pub bfree-balloc :
    (s : Fs) (f : ℕ)
    → Layout s
    → f < s.sb.size
    → bit_of f s ≡ 0
    → Returns
        (λ s'. (c : ℕ) → c < s.sb.size → bit_of c s' ≡ bit_of c s)
        (balloc s >>= λ r. bfree r.0 r.1)
bfree-balloc s f l lt free =
    Returns-bind (λ r. Allocated s r.0 r.1) _ (balloc s) (λ r. bfree r.0 r.1)
      (balloc_lem s f l lt free) (λ r a. free_again r.0 r.1 a)
  where
    free_again :
        (b : ℕ) (s' : Fs)
        → Allocated s b s'
        → Returns (λ s''. (c : ℕ) → c < s.sb.size → bit_of c s'' ≡ bit_of c s) (bfree b s')
    free_again b s' a =
        let boot : s'.blocks 1 ≡ s.blocks 1 =
          a.effect.rest 1
            (λ e. absurd (omega (arith, Layout-BehindBitmap s b l a.was_free b a.inside, l.boot)))
            (λ e. absurd (omega (arith, l.boot))) in
        let bit_set : bit_of b s' ≡ 1 = a.effect.bits b a.inside ∙ rw (eq→== b b refl) refl in
        Returns-mono _ _ (bfree b s')
          (bfree_lem b s' (readsb_same s s' boot ∙ l.super ∙ sym a.effect.same_sb)
            (λ e. absurd (omega arith)))
          (λ s'' h c lt. h c ∙ elim (ℕ_discrete c b) [
            | yes e ↦ rw (e, eq→== b b refl) (sym a.was_free)
            | no ne ↦
                (let kept : bit_of c s' ≡ bit_of c s =
                    a.effect.bits c lt ∙ rw (ne→== c b ne) refl in
                  rw (ne→== c b ne) kept)
          ])
