-- ===== src/Log/Disks.antt =====
-- What a crash may leave on the disk, and what the log says of it.
use nice_system_calls.Common.{
  ℕ, zero, suc, ◌+◌, ◌-◌, ◌≤◌, ◌<◌, ◌≡◌, refl, sym, ap, ap₂, subst, ◌∙◌, ◌⊎◌, inl, inr, Bool, true,
  false, List, [], ◌∷◌, arith, ◌==◌, if◌then◌else◌, length, get_or, Bool-cases,
}
use nice_system_calls.Log.{Block, Disk, head_block, read_blocks}

abbrev pub AllDisks : (Disk → Type 0) → List Disk → Type 0
AllDisks P [] = Unit {0}
AllDisks P (d ∷ ds) = P d × AllDisks P ds

abbrev pub InDisks : Disk → List Disk → Type 0
InDisks d [] = ⊥
InDisks d (x ∷ xs) = (d ≡ x) ⊎ InDisks d xs

pub All-InDisks :
    (P : Disk → Type 0) (ds : List Disk) (d : Disk) → AllDisks P ds → InDisks d ds → P d
All-InDisks P [] d h m = elim m [ ]
All-InDisks P (x ∷ xs) d h (inl e) = subst P (sym e) h.0
All-InDisks P (x ∷ xs) d h (inr m) = All-InDisks P xs d h.1 m

pub AllDisks-mono :
    (P Q : Disk → Type 0) (ds : List Disk)
    → ((d : Disk) → P d → Q d)
    → AllDisks P ds
    → AllDisks Q ds
AllDisks-mono P Q [] f h = tt
AllDisks-mono P Q (d ∷ ds) f h = (f d h.0, AllDisks-mono P Q ds f h.1)

abbrev pub is_in : ℕ → List ℕ → Bool
is_in b [] = false
is_in b (c ∷ cs) = if b == c then true else is_in b cs

pub is_in_get :
    (blocks : List ℕ) (k : ℕ) → k < length blocks → is_in (get_or blocks k 0) blocks ≡ true
is_in_get [] k h = absurd (omega arith)
is_in_get (b ∷ bs) zero h = ground arith
is_in_get (b ∷ bs) (suc k) h = ground (arith, is_in_get bs k)

pub get_of_is_in :
    (blocks : List ℕ) (b : ℕ)
    → is_in b blocks ≡ true
    → (k : ℕ) × (k < length blocks) × (get_or blocks k 0 ≡ b)
get_of_is_in [] b e = absurd (ground arith)
get_of_is_in (c ∷ cs) b e = elim (Bool-cases (b == c)) [
  | inl here ↦ (0, omega arith, ground arith)
  | inr there ↦
      let (k, h, same) = get_of_is_in cs b (ground (arith, there)) in (suc k, omega arith, same)
]

-- A block outside the log, which is the `size` blocks from `start` on, the header first.
abbrev pub IsHome : ℕ → ℕ → ℕ → Type 0
IsHome start size b = (b < start) ⊎ (start + size ≤ b)

abbrev pub AllHome : ℕ → ℕ → List ℕ → Type 0
AllHome start size blocks = (k : ℕ) → k < length blocks → IsHome start size (get_or blocks k 0)

-- The log is empty, and the blocks outside it are those of `old`.
pub record Quiet (start size : ℕ) (old : Disk) (d : Disk) : Type 0 where
  pub empty : d start 0 ≡ 0
  pub same : (b : ℕ) → IsHome start size b → d b ≡ old b

-- The log holds the transaction: the blocks that are to become those of `goal`. The blocks that are
-- not in it are those of `old`.
pub record Armed (start size : ℕ) (blocks : List ℕ) (goal old : Disk) (d : Disk) : Type 0 where
  pub head : read_blocks (d start 0) 1 (d start) ≡ blocks
  pub logged : (k : ℕ) → k < length blocks → d (start + k + 1) ≡ goal (get_or blocks k 0)
  pub rest : (b : ℕ) → IsHome start size b → is_in b blocks ≡ false → d b ≡ old b

-- The disk with the transaction done.
abbrev pub done_disk : List ℕ → Disk → Disk → Disk
done_disk blocks goal old b = if is_in b blocks then goal b else old b

read_blocks_lem :
    (bs : List ℕ) (i : ℕ) (content : Block)
    → ((k : ℕ) → k < length bs → content (i + k) ≡ get_or bs k 0)
    → read_blocks (length bs) i content ≡ bs
unfolding read_blocks
read_blocks_lem [] i content h = refl
read_blocks_lem (b ∷ bs) i content h =
    let first : content i ≡ b =
      (let same : i ≡ i + 0 = omega arith in ap content same ∙ h 0 (omega arith)) in
    let more = read_blocks_lem bs (suc i) content (λ k lt.
      (let same : suc i + k ≡ i + suc k = omega arith in
        ap content same ∙ h (suc k) (omega arith))) in
    ap₂ (λ (x : ℕ) (l : List ℕ). x ∷ l) first more

pub read-head_block :
    (blocks : List ℕ) (old : Block)
    → read_blocks (head_block blocks old 0) 1 (head_block blocks old) ≡ blocks
unfolding head_block
read-head_block blocks old = read_blocks_lem blocks 1 (head_block blocks old) (λ k h.
    (let same : 1 + k - 1 ≡ k = omega arith in ground (arith, ap (λ n. get_or blocks n 0) same)))
