-- ===== src/Kalloc/Freelist.antt =====
-- The pages on the free list, and what `kfree` and `kalloc` do to them.
use nice_system_calls.Common.{
  ℕ, ◌+◌, ◌%◌, ◌^◌, ◌≤◌, ◌<◌, ◌≡◌, refl, sym, ap, subst, ◌∙◌, ◌≢◌, ◌⊎◌, inl, inr, true, false, List,
  [], ◌∷◌, arith, ltb, leb, ◌==◌, ◌||◌, not, Returns,
}
use nice_system_calls.Common.Distinct.{In}
use nice_system_calls.Memory.{Memory, memset}
use nice_system_calls.Memory.Move.{in_block, memset_lem}
use nice_system_calls.Kalloc.{Kmem, pgsize, phystop, v2p, read_word, write_word, kfree, kalloc}

-- The list that starts at `p` runs through the pages `pages`.
abbrev pub Chain : Memory → ℕ → List ℕ → Type 0
Chain m p [] = p ≡ 0
Chain m p (x ∷ xs) =
    (p ≡ x) × (x ≢ 0) × (x % pgsize ≡ 0) × (x < 2 ^ 32) × Chain m (read_word x m) xs

Chain-word : (m : Memory) (p : ℕ) (xs : List ℕ) → Chain m p xs → p < 2 ^ 32
Chain-word m p [] h = omega arith
Chain-word m p (x ∷ xs) (e, a, b, c, rest) = omega arith

Chain-frame :
    (m m' : Memory) (p : ℕ) (xs : List ℕ)
    → ((x : ℕ) → x % pgsize ≡ 0 → In x xs → read_word x m' ≡ read_word x m)
    → Chain m p xs
    → Chain m' p xs
Chain-frame m m' p [] same h = h
Chain-frame m m' p (x ∷ xs) same (e, a, b, c, rest) = (
  e,
  a,
  b,
  c,
  rw (same x b (inl refl)) (Chain-frame m m' (read_word x m) xs (λ y z i. same y z (inr i)) rest),
)

write_word_lem : (a w : ℕ) (m : Memory) (x : ℕ) → in_block a 4 x ≡ false → write_word a w m x ≡ m x
unfolding write_word
write_word_lem a w m x h = ground arith

read-write_word : (a w : ℕ) (m : Memory) → w < 2 ^ 32 → read_word a (write_word a w m) ≡ w
unfolding read_word write_word
read-write_word a w m h = ground arith

-- What `kfree` writes of a page leaves the other pages alone.
junk_elsewhere :
    (v w x : ℕ) (m : Memory)
    → v % pgsize ≡ 0
    → x % pgsize ≡ 0
    → x ≢ v
    → read_word x (write_word v w (memset v 1 pgsize m)) ≡ read_word x m
unfolding read_word
junk_elsewhere v w x m a b ne =
    let at : (j : ℕ) → j < 4 → write_word v w (memset v 1 pgsize m) (x + j) ≡ m (x + j) = λ j h.
      write_word_lem v w (memset v 1 pgsize m) (x + j) (ground arith)
      ∙ memset_lem v 1 pgsize m (x + j)
      ∙ ground arith in
    let zero_at : x ≡ x + 0 = omega arith in
    let at0 : write_word v w (memset v 1 pgsize m) x ≡ m x =
      ap (write_word v w (memset v 1 pgsize m)) zero_at ∙ at 0 (omega arith) ∙ ap m (sym zero_at) in
    omega (arith, at0, at 1 (omega arith), at 2 (omega arith), at 3 (omega arith))

-- `kfree` of an aligned page behind the kernel and below the top of physical memory, which is not
-- on the free list, returns: the page is now the first of the list, the pages of the list are as
-- before, and no byte outside the page changes.
pub kfree_lem :
    (end v : ℕ) (k : Kmem) (pages : List ℕ)
    → v % pgsize ≡ 0
    → end ≤ v
    → v2p v < phystop
    → v ≢ 0
    → v < 2 ^ 32
    → Chain k.memory k.freelist pages
    → (In v pages → ⊥)
    → Returns
        (λ (k' : Kmem).
          Chain k'.memory k'.freelist (v ∷ pages)
          × ((x : ℕ) → in_block v pgsize x ≡ false → k'.memory x ≡ k.memory x))
        (kfree end v k)
unfolding kfree
kfree_lem end v k pages a b c nz w chain new =
    let fine : (not (v % pgsize == 0) || ltb v end || leb phystop (v2p v)) ≡ false = ground arith in
    let m = memset v 1 pgsize k.memory in
    let m' = write_word v k.freelist m in
    rw fine (
      (
        refl,
        nz,
        a,
        w,
        rw (read-write_word v k.freelist m (Chain-word k.memory k.freelist pages chain)) (
            Chain-frame k.memory m' k.freelist pages
              (λ x z i.
                junk_elsewhere v k.freelist x k.memory a z (λ e. new (subst (λ y. In y pages) e i)))
              chain),
      ),
      (λ x out.
          write_word_lem v k.freelist m x (ground arith)
          ∙ memset_lem v 1 pgsize k.memory x
          ∙ rw out refl),
    )

-- `kalloc` gives 0 and changes nothing where the free list is empty; otherwise it gives the first
-- page of the list and leaves the others on it, and the memory as it was.
pub kalloc_lem :
    (k : Kmem) (pages : List ℕ)
    → Chain k.memory k.freelist pages
    → ((pages ≡ []) × (kalloc k ≡ (0, k)))
      ⊎ ((x : ℕ) × (rest : List ℕ) × (pages ≡ x ∷ rest)
          × ((kalloc k).0 ≡ x)
          × ((kalloc k).1.memory ≡ k.memory)
          × Chain (kalloc k).1.memory (kalloc k).1.freelist rest)
unfolding kalloc
kalloc_lem k [] h =
    (let none_left : (k.freelist == 0) ≡ true = ground arith in rw none_left (inl (refl, refl)))
kalloc_lem k (x ∷ xs) (e, a, b, c, rest) =
    let there : (k.freelist == 0) ≡ false = ground arith in
    rw there (
      inr
        (x, xs, refl, e, refl, subst (λ y. Chain k.memory (read_word y k.memory) xs) (sym e) rest))
