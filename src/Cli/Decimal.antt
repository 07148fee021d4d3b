-- ===== src/Cli/Decimal.antt =====
-- `atoi` reads back what `printint` writes in base 10.
use nice_system_calls.Common.{
  ℕ, zero, suc, ◌+◌, ◌-◌, ◌*◌, ◌/◌, ◌%◌, ◌^◌, ◌≤◌, ◌<◌, ◌≡◌, ap, ◌∙◌, inl, inr, Bool, true, false,
  List, [], ◌∷◌, arith, ltb, leb, ◌==◌, ◌&&◌, Bool-cases,
}
use nice_system_calls.Common.Int.{pos, to_int}
use nice_system_calls.Cli.{atoi_from, atoi, digit, fill, emit, printint, printed}

abbrev pow10 : ℕ → ℕ
pow10 zero = 1
pow10 (suc n) = 10 * pow10 n

atoi-digit :
    (n d : ℕ) (cs : List ℕ)
    → d < 10
    → n * 10 + d < 2 ^ 32
    → atoi_from n (digit d ∷ cs) ≡ atoi_from (n * 10 + d) cs
unfolding atoi_from
atoi-digit n d cs h fits =
    let small : ltb d 10 ≡ true = ground arith in
    let is_digit : (leb 48 (48 + d) && leb (48 + d) 57) ≡ true = ground arith in
    let same : (n * 10 + (48 + d) - 48) % 2 ^ 32 ≡ n * 10 + d = omega arith in
    rw (small, is_digit) (ap (λ k. atoi_from k cs) same)

atoi-fill :
    (room x : ℕ) (out : List ℕ)
    → x < pow10 room
    → 1 ≤ room
    → x < 2 ^ 32
    → atoi_from 0 (emit (fill 10 room x) out) ≡ atoi_from x out
unfolding fill emit
atoi-fill zero x out h r f = absurd (omega arith)
atoi-fill (suc room) x out h r f = elim (Bool-cases (x / 10 == 0)) [
  | inl last ↦
      let same : 0 * 10 + x % 10 ≡ x = ground arith in
      rw last
        (atoi-digit 0 (x % 10) out (omega arith) (omega arith) ∙ ap (λ k. atoi_from k out) same)
  | inr more ↦
      let same : x / 10 * 10 + x % 10 ≡ x = omega arith in
      rw more (
        atoi-fill room (x / 10) (digit (x % 10) ∷ out) (omega arith) (more_room room x h more)
          (omega arith)
        ∙ atoi-digit (x / 10) (x % 10) out (omega arith) (omega arith)
        ∙ ap (λ k. atoi_from k out) same)
]
  where
    more_room : (room x : ℕ) → x < pow10 (suc room) → (x / 10 == 0) ≡ false → 1 ≤ room
    more_room zero x h e = absurd (ground arith)
    more_room (suc n) x h e = omega arith

-- `atoi` reads back a number below 2 ^ 31, so an int, that `printint` writes in base 10, signed or
-- not.
pub atoi-printint : (sgn : Bool) (x : ℕ) → x < 2 ^ 31 → atoi (printint 10 sgn (pos x)) ≡ pos x
unfolding printint printed atoi_from
atoi-printint sgn x h =
    let word : x % 2 ^ 32 ≡ x = omega arith in
    let not_negative : (sgn && leb (2 ^ 31) x) ≡ false = ground arith in
    let int : to_int x ≡ pos x = ground arith in
    rw (word, not_negative)
      (ap to_int (atoi-fill 16 x [] (omega arith) (omega arith) (omega arith)) ∙ int)
