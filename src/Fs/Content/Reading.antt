-- ===== src/Fs/Content/Reading.antt =====
-- readi, and a file as a sequence of bytes.
use nice_system_calls.Common.{
  ℕ, zero, suc, ◌+◌, ◌-◌, ◌/◌, ◌%◌, ◌^◌, ◌≤◌, ◌<◌, ◌≡◌, ℕ_discrete, ◌≢◌, refl, ap, ap₂, sym, ◌∙◌,
  ◌∷◌, ◌++◌, false, none, some, arith, ltb, ne→==, if◌then◌else◌, inl, inr, Bool-cases, window, ok,
}
use Prim.Native.Nat.{min}
use nice_system_calls.Fs.{Fs, Inode, bsize, t_dev}
use nice_system_calls.Fs.Inodes.{get_inode}
use nice_system_calls.Fs.Content.{part_of_block, read_from, readi, Devsw}
use nice_system_calls.Fs.Content.Mapping.{block_of, Mapped, bmap-Mapped}

-- Byte `k` of the file.
abbrev pub byte_of : Inode → Fs → ℕ → ℕ
byte_of ip s k = s.blocks (block_of ip s (k / bsize)) (k % bsize)

abbrev pub AllMapped : Inode → Fs → Type 0
AllMapped ip s = (k : ℕ) → k < ip.size → Mapped ip s (k / bsize)

window_split : (f : ℕ → ℕ) (i m n : ℕ) → window f i (m + n) ≡ window f i m ++ window f (i + m) n
window_split f i zero n = ap₂ (window f) (omega arith) (omega arith)
window_split f i (suc m) n =
    let count : suc m + n ≡ suc (m + n) = omega arith in
    let start : suc i + m ≡ i + suc m = omega arith in
    ap (window f i) count
    ∙ ap (λ l. f i ∷ l)
        (window_split f (suc i) m n ∙ ap (λ k. window f (suc i) m ++ window f k n) start)

-- Two functions with the same values at two places.
window_shift :
    (f g : ℕ → ℕ) (i j n : ℕ)
    → ((k : ℕ) → k < n → f (i + k) ≡ g (j + k))
    → window f i n ≡ window g j n
window_shift f g i j zero h = refl
window_shift f g i j (suc n) h =
    ap₂ ◌∷◌ (ap f (omega arith) ∙ h 0 (omega arith) ∙ ap g (omega arith)) (
      window_shift f g (suc i) (suc j) n
        (λ k lt. ap f (omega arith) ∙ h (suc k) (omega arith) ∙ ap g (omega arith)))

-- Within one block.
in_block :
    (ip : Inode) (s : Fs) (off m : ℕ)
    → off % bsize + m ≤ bsize
    → window (s.blocks (block_of ip s (off / bsize))) (off % bsize) m ≡ window (byte_of ip s) off m
in_block ip s off m le = window_shift _ (byte_of ip s) (off % bsize) off m (λ k lt.
    let same : (off + k) / bsize ≡ off / bsize = omega arith in
    let place : (off + k) % bsize ≡ off % bsize + k = omega arith in
    ap₂ (λ q r. s.blocks (block_of ip s q) r) (sym same) (sym place))

pub part_of_block_lem :
    (off left : ℕ)
    → left ≢ 0
    → (0 < part_of_block off left)
      × (part_of_block off left ≤ left)
      × (off % bsize + part_of_block off left ≤ bsize)
part_of_block_lem off left ne = elim (Bool-cases (ltb left (bsize - off % bsize))) [
  | inl l ↦ rw l (omega arith, omega arith, ground (arith, l))
  | inr l ↦ rw l (omega arith, ground (arith, l), omega arith)
]

read_from_lem :
    (fuel i off left : ℕ) (ip : Inode) (s : Fs)
    → get_inode i s ≡ ok ip
    → AllMapped ip s
    → left < fuel
    → off + left ≤ ip.size
    → read_from fuel i off left s ≡ ok (window (byte_of ip s) off left, s)
unfolding read_from
read_from_lem zero i off left ip s g all f le = absurd (omega arith)
read_from_lem (suc fuel) i off left ip s g all f le = elim (ℕ_discrete left 0) [
  | yes e ↦ rw e refl
  | no ne ↦
      let facts = part_of_block_lem off left ne in
      let whole : part_of_block off left + (left - part_of_block off left) ≡ left =
        omega (arith, facts.1) in
      rw
        (
          ne→== left 0 ne,
          bmap-Mapped i (off / bsize) ip s g (all off (omega arith)),
          read_from_lem fuel i (off + part_of_block off left) (left - part_of_block off left) ip s g
              all (omega (arith, facts.0)) (omega (arith, facts.1)),
        )
        (ap (λ l. ok (l, s))
          (ap
              (λ l.
                l
                ++ window (byte_of ip s) (off + part_of_block off left)
                    (left - part_of_block off left))
              (in_block ip s off (part_of_block off left) facts.2)
            ∙ sym (
                window_split (byte_of ip s) off (part_of_block off left)
                  (left - part_of_block off left))
            ∙ ap (window (byte_of ip s) off) whole))
]

-- On an inode that is not a device, whose blocks are all there, and for an end below 2 ^ 32,
-- `readi` returns and changes nothing. Behind the size it replies -1, and else it gives the bytes
-- of the file from the offset on, as many as asked for or up to the size.
pub readi_lem :
    (devsw : Devsw) (i off n : ℕ) (ip : Inode) (s : Fs)
    → get_inode i s ≡ ok ip
    → ip.type ≢ t_dev
    → AllMapped ip s
    → off + n < 2 ^ 32
    → readi devsw i off n s
      ≡ ok (
        (if ltb ip.size off
            then none
            else some (window (byte_of ip s) off (min n (ip.size - off)))),
        s,
      )
unfolding readi
readi_lem devsw i off n ip s g ty all small = elim (Bool-cases (ltb ip.size off)) [
  | inl beyond ↦ rw (g, ne→== ip.type t_dev ty, beyond) refl
  | inr within ↦
      let fits : ltb ((off + n) % 2 ^ 32) off ≡ false = ground arith in
      elim (Bool-cases (ltb ip.size (off + n))) [
        | inl short ↦
            (let count : min n (ip.size - off) ≡ ip.size - off = ground (arith, short, within) in
              rw
                (
                  g,
                  ne→== ip.type t_dev ty,
                  within,
                  fits,
                  short,
                  count,
                  read_from_lem (ip.size - off + 1) i off (ip.size - off) ip s g all (omega arith)
                      (ground (arith, within)),
                )
                refl)
        | inr whole ↦
            (let count : min n (ip.size - off) ≡ n = ground (arith, whole, within) in
              rw
                (
                  g,
                  ne→== ip.type t_dev ty,
                  within,
                  fits,
                  whole,
                  count,
                  read_from_lem (n + 1) i off n ip s g all (omega arith) (ground (arith, whole)),
                )
                refl)
      ]
]
