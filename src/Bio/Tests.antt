-- ===== src/Bio/Tests.antt =====
-- The cache after `binit`, and buffers that are read and released.
use nice_system_calls.Common.{
  ℕ, Bool, zero, suc, Returns-ok, ◌≡◌, refl, [], ◌∷◌, ◌++◌, true, false, arith, ok, panic, fault,
  Returns,
}
use nice_system_calls.Bio.{
  bwrite, Bcache, binit, link_all, link_front, update, scan, lock_buf, recycle, has_block, is_spare,
  iderw, bread, bget, brelse,
}
use nice_system_calls.Bio.Release.{Ordered, brelse-Ordered}
use nice_system_calls.Bio.Lookup.{bget_of, bget-Ordered}
use nice_system_calls.Bio.Uniqueness.{BioInv}
use nice_system_calls.Bio.Blocks.{Coherent, Got, not_equal}
use nice_system_calls.Bio.Coherent.{Readable, bread-Coherent, fill, bwrite-Coherent}
use nice_system_calls.Bio.Unique.{linked, binit-Ordered, starts, goes, reads, BioRun-BioInv}

abbrev zeroed : Bcache
zeroed = record {
  next = λ i. 0;
  prev = λ i. 0;
  dev = λ i. 0;
  blockno = λ i. 0;
  refcnt = λ i. 0;
  valid = λ i. false;
  dirty = λ i. false;
  locked = λ i. false;
  content = λ i x. 0;
  disk = λ b x. b;
  disksize = 100;
}

bget_example : bget 1 5 (binit zeroed) ≡ bget_of 1 5 (linked 30 0 []) (binit zeroed)
bget_example = bget-Ordered 1 5 (linked 30 0 []) (binit zeroed) (binit-Ordered zeroed)

-- Buffer 7 is in use.
abbrev in_use : Bcache
in_use = record (binit zeroed) {
  locked = update 7 true (binit zeroed).locked;
  refcnt = update 7 1 (binit zeroed).refcnt;
}

in_use-Ordered : Ordered (linked 30 0 []) in_use
in_use-Ordered =
    let o = binit-Ordered zeroed in
    record { chain = o.chain; distinct = o.distinct; all = o.all; below = o.below }

brelse_example : Returns (Ordered (7 ∷ linked 22 8 [] ++ linked 7 0 [])) (brelse 7 in_use)
brelse_example =
    brelse-Ordered 7 (linked 22 8 []) (linked 7 0 []) in_use in_use-Ordered refl
      (λ e. absurd (omega arith))

abbrev after_read : Bcache
after_read = elim (bread 1 5 (binit zeroed)) [ ok r ↦ r.1 | panic s ↦ zeroed | fault ↦ zeroed ]

reads_first : bread 1 5 (binit zeroed) ≡ ok (0, after_read)
unfolding bread bget scan lock_buf recycle has_block is_spare iderw binit link_all link_front
reads_first = refl

run_example : BioInv after_read
run_example = BioRun-BioInv after_read (goes (starts zeroed (λ i. refl)) (reads 1 5 0 reads_first))

-- Nothing is locked after `binit`, and no buffer is valid.
link_all-locked :
    (n b : ℕ) (s : Bcache)
    → ((i : ℕ) → s.locked i ≡ false)
    → (i : ℕ) → (link_all n b s).locked i ≡ false
unfolding link_all link_front
link_all-locked zero b s h i = h i
link_all-locked (suc n) b s h i = link_all-locked n (suc b) _ (λ k. unlocked b k s.locked (h k)) i
  where
    unlocked : (b k : ℕ) (f : ℕ → Bool) → f k ≡ false → update b false f k ≡ false
    unlocked b k f e = ground (arith, e)

start-locked : (i : ℕ) → (binit zeroed).locked i ≡ false
unfolding binit
start-locked i = link_all-locked 30 0 _ (λ k. refl) i

start-Coherent : Coherent zeroed.disk (binit zeroed)
unfolding binit link_all link_front
start-Coherent = record {
  cached = λ i l d v. absurd (not_equal v);
  stored = λ n h. refl;
  dirty_valid = λ i l d. absurd (not_equal d);
}

start-Readable : Readable 5 (binit zeroed)
unfolding binit link_all link_front
start-Readable = record {
  on_disk = omega arith;
  free = λ i l d e. start-locked i;
  spare = 3;
  spare_in = omega arith;
  spare_count = refl;
  spare_clean = refl;
  unheld = λ i l z. start-locked i;
}

start-BioInv : BioInv (binit zeroed)
start-BioInv = BioRun-BioInv (binit zeroed) (starts zeroed (λ i. refl))

bread_example :
    Returns
      (λ r. Coherent zeroed.disk r.1 × (r.1.content r.0 ≡ zeroed.disk 5))
      (bread 1 5 (binit zeroed))
bread_example =
    bread-Coherent zeroed.disk 5 (binit zeroed) start-BioInv start-Coherent start-Readable

read-Coherent : Coherent zeroed.disk after_read
read-Coherent =
    (Returns-ok (λ r. Coherent zeroed.disk r.1 × (r.1.content r.0 ≡ zeroed.disk 5))
      (bread 1 5 (binit zeroed)) (0, after_read)
      (bread-Coherent zeroed.disk 5 (binit zeroed) start-BioInv start-Coherent start-Readable)
      reads_first).0

read-Got : Got 5 0 after_read
unfolding bread bget scan lock_buf recycle has_block is_spare iderw binit link_all link_front
read-Got = record {
  in_array = omega arith;
  dev = refl;
  blockno = refl;
  locked = refl;
  on_disk = omega arith;
}

after-BioInv : BioInv after_read
after-BioInv = BioRun-BioInv after_read (goes (starts zeroed (λ i. refl)) (reads 1 5 0 reads_first))

bwrite_example :
    Returns
      (λ s'. Coherent (update 5 (λ x. 9) zeroed.disk) s' × (s'.disk 5 ≡ (λ x. 9)))
      (bwrite 0 (fill 0 (λ x. 9) after_read))
bwrite_example =
    bwrite-Coherent zeroed.disk 5 0 (λ x. 9) after_read read-Coherent after-BioInv.unique read-Got
