-- ===== src/Cli.antt =====
-- nice.c, and what it uses of the user library: `atoi` of ulib.c and `printint` of printf.c.
pub mod Decimal
pub mod Result
mod Tests
use nice_system_calls.Common.{
  ℕ, zero, suc, ◌+◌, ◌-◌, ◌*◌, ◌/◌, ◌%◌, ◌^◌, Bool, true, false, List, [], ◌∷◌, arith, ltb, leb,
  ◌==◌, if◌then◌else◌, ◌||◌, ◌&&◌, Outcome, ok, ◌>>=◌, load,
}
use nice_system_calls.Common.Int.{ℤ, pos, negsuc, ltb_ℤ, to_int, of_int}
use nice_system_calls.Proc.{Table, Proc, Services, Reply, value, exited, parked}
use nice_system_calls.Proc.Calls.{nice, mod_base}

-- The loop of `atoi`, for the bytes up to the closing NUL. `n` is held as the 32-bit word of the int.
unfoldable pub atoi_from : ℕ → List ℕ → ℕ
atoi_from n [] = n
atoi_from n (c ∷ cs) =
    let rest = atoi_from ((n * 10 + c - 48) % 2 ^ 32) cs in if leb 48 c && leb c 57 then rest else n

abbrev pub atoi : List ℕ → ℤ
atoi s = to_int (atoi_from 0 s)

-- `digits[d]`.
abbrev pub digit : ℕ → ℕ
digit d = if ltb d 10 then 48 + d else 55 + d

-- `do { buf[i++] = digits[x % base]; } while((x /= base) != 0);`: `buf`, for as many rounds as it
-- has room.
unfoldable pub fill : ℕ → ℕ → ℕ → List ℕ
fill base zero x = []
fill base (suc room) x =
    let rest = fill base room (x / base) in digit (x % base) ∷ (if x / base == 0 then [] else rest)

-- `while(--i >= 0) putc(fd, buf[i]);`
unfoldable pub emit : List ℕ → List ℕ → List ℕ
emit [] out = out
emit (c ∷ buf) out = emit buf (c ∷ out)

-- The bytes that `printint` writes, once `x` is the 32-bit word of its argument. From 2 ^ 31 on the
-- word is a negative int. A sign takes one of the 16 places of `buf`.
unfoldable pub printed : ℕ → Bool → ℕ → List ℕ
printed base sgn x =
    if sgn && leb (2 ^ 31) x
    then 45 ∷ emit (fill base 15 (2 ^ 32 - x)) []
    else emit (fill base 16 x) []

unfoldable pub printint : ℕ → Bool → ℤ → List ℕ
printint base sgn xx = printed base sgn (of_int xx)

-- The quotient and the remainder by MOD of an int, as C rounds them.
abbrev pub int_div : ℤ → ℤ
int_div (pos n) = pos (n / mod_base)
int_div (negsuc n) = if suc n / mod_base == 0 then pos 0 else negsuc (suc n / mod_base - 1)

abbrev pub int_mod : ℤ → ℤ
int_mod (pos n) = pos (n % mod_base)
int_mod (negsuc n) = if suc n % mod_base == 0 then pos 0 else negsuc (suc n % mod_base - 1)

-- What the command prints, and whether the kernel ended it.
pub data Output : Type 0 where
  usage : Output
  invalid : Output
  prints : ℤ → ℤ → Output
  ended : Output

abbrev pub shown : Reply → Output
shown (value v) = prints (int_div v) (int_mod v)
shown exited = ended
shown parked = ended

module _ (S : Services) where
  open S use {World}

  -- The call, by the process in slot `me`. Its arguments and its value are ints of 32 bits, which
  -- the words on the stack and the register eax hold unchanged.
  unfoldable pub renice : ℕ → ℤ → ℤ → Table → World → Outcome (Output × Table × World)
  renice me pid priority t w =
      if ltb_ℤ priority (pos 0) || ltb_ℤ (pos 5) priority
      then ok (invalid, t, w)
      else do (reply, t1, w1) ← nice S me pid priority t w; ok (shown reply, t1, w1)

  -- `main` for the words of the command line behind its name, up to the call of `exit` in which
  -- each branch ends.
  unfoldable pub main : ℕ → List (List ℕ) → Table → World → Outcome (Output × Table × World)
  main me (arg1 ∷ []) t w = do
    slot ← load t.procs me
    renice me (to_int (slot.pid % 2 ^ 32)) (atoi arg1) t w
  main me (arg1 ∷ arg2 ∷ []) t w = renice me (atoi arg1) (atoi arg2) t w
  main me args t w = ok (usage, t, w)
