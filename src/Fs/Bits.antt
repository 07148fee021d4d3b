-- ===== src/Fs/Bits.antt =====
-- The bits of a byte, as `& (1 << k)`, `|=` and `&= ~` use them.
use nice_system_calls.Common.{
  ℕ, zero, suc, ◌+◌, ◌-◌, ◌/◌, ◌%◌, ◌^◌, ◌<◌, ◌≡◌, arith, ◌==◌, if◌then◌else◌,
}

abbrev pub bit : ℕ → ℕ → ℕ
bit x k = x / 2 ^ k % 2

abbrev pub set_bit : ℕ → ℕ → ℕ
set_bit x k = if bit x k == 0 then x + 2 ^ k else x

abbrev pub clear_bit : ℕ → ℕ → ℕ
clear_bit x k = if bit x k == 0 then x else x - 2 ^ k

below_8 : (P : ℕ → Type 0) → P 0 → P 1 → P 2 → P 3 → P 4 → P 5 → P 6 → P 7 → (k : ℕ) → k < 8 → P k
below_8 P a b c d e f g h zero lt = a
below_8 P a b c d e f g h (suc zero) lt = b
below_8 P a b c d e f g h (suc (suc zero)) lt = c
below_8 P a b c d e f g h (suc (suc (suc zero))) lt = d
below_8 P a b c d e f g h (suc (suc (suc (suc zero)))) lt = e
below_8 P a b c d e f g h (suc (suc (suc (suc (suc zero))))) lt = f
below_8 P a b c d e f g h (suc (suc (suc (suc (suc (suc zero)))))) lt = g
below_8 P a b c d e f g h (suc (suc (suc (suc (suc (suc (suc zero))))))) lt = h
below_8 P a b c d e f g h (suc (suc (suc (suc (suc (suc (suc (suc n)))))))) lt =
    absurd (omega arith)

-- Setting and clearing a bit changes that bit and no other of the byte.
abbrev Changes : ℕ → ℕ → ℕ → Type 0
Changes x k j =
    (bit (set_bit x k) j ≡ (if j == k then 1 else bit x j))
    × (bit (clear_bit x k) j ≡ (if j == k then 0 else bit x j))

both_bits : (x k : ℕ) → k < 8 → (j : ℕ) → j < 8 → Changes x k j
both_bits x =
    below_8 (λ k. (j : ℕ) → j < 8 → Changes x k j)
      (below_8 (Changes x 0) (ground arith) (ground arith) (ground arith) (ground arith)
        (ground arith) (ground arith) (ground arith) (ground arith))
      (below_8 (Changes x 1) (ground arith) (ground arith) (ground arith) (ground arith)
        (ground arith) (ground arith) (ground arith) (ground arith))
      (below_8 (Changes x 2) (ground arith) (ground arith) (ground arith) (ground arith)
        (ground arith) (ground arith) (ground arith) (ground arith))
      (below_8 (Changes x 3) (ground arith) (ground arith) (ground arith) (ground arith)
        (ground arith) (ground arith) (ground arith) (ground arith))
      (below_8 (Changes x 4) (ground arith) (ground arith) (ground arith) (ground arith)
        (ground arith) (ground arith) (ground arith) (ground arith))
      (below_8 (Changes x 5) (ground arith) (ground arith) (ground arith) (ground arith)
        (ground arith) (ground arith) (ground arith) (ground arith))
      (below_8 (Changes x 6) (ground arith) (ground arith) (ground arith) (ground arith)
        (ground arith) (ground arith) (ground arith) (ground arith))
      (below_8 (Changes x 7) (ground arith) (ground arith) (ground arith) (ground arith)
        (ground arith) (ground arith) (ground arith) (ground arith))

pub bit-set_bit :
    (x k j : ℕ) → k < 8 → j < 8 → bit (set_bit x k) j ≡ (if j == k then 1 else bit x j)
bit-set_bit x k j h h' = (both_bits x k h j h').0

pub bit-clear_bit :
    (x k j : ℕ) → k < 8 → j < 8 → bit (clear_bit x k) j ≡ (if j == k then 0 else bit x j)
bit-clear_bit x k j h h' = (both_bits x k h j h').1
