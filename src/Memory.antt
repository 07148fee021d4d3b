-- ===== src/Memory.antt =====
-- string.c: the routines of the kernel on blocks of bytes and on strings. The memory is a function
-- from addresses to bytes.
pub mod Move
pub mod Strings
mod Tests
use nice_system_calls.Common.{
  ℕ, zero, suc, ◌+◌, ◌-◌, ◌*◌, ◌/◌, ◌%◌, ◌^◌, Bool, true, false, Option, none, some, arith, ltb,
  ◌==◌, if◌then◌else◌, ◌&&◌, not,
}
use nice_system_calls.Common.Int.{ℤ, pos, negsuc}

abbrev pub Memory : Type 0
Memory = ℕ → ℕ

-- `*a = v;`
abbrev pub poke : ℕ → ℕ → Memory → Memory
poke a v m x = if x == a then v else m x

-- `a - b` of two bytes.
abbrev pub byte_diff : ℕ → ℕ → ℤ
byte_diff a b = if ltb a b then negsuc (b - a - 1) else pos (a - b)

-- The instructions `rep stosb` and `rep stosl` of x86.h: `n` times the low byte of `c`, or the four
-- bytes of the word `w`, the lowest first.
unfoldable pub stosb : ℕ → ℕ → ℕ → Memory → Memory
stosb a c zero m = m
stosb a c (suc n) m = stosb (suc a) c n (poke a (c % 256) m)

unfoldable pub stosl : ℕ → ℕ → ℕ → Memory → Memory
stosl a w zero m = m
stosl a w (suc n) m = stosl (a + 4) w n (
    poke (a + 3) (w / 2 ^ 24 % 256)
      (poke (a + 2) (w / 2 ^ 16 % 256) (poke (a + 1) (w / 2 ^ 8 % 256) (poke a (w % 256) m))))

unfoldable pub memset : ℕ → ℕ → ℕ → Memory → Memory
memset dst c n m =
    if (dst % 4 == 0) && (n % 4 == 0)
    then stosl dst ((c % 256) * 2 ^ 24 + (c % 256) * 2 ^ 16 + (c % 256) * 2 ^ 8 + c % 256) (n / 4) m
    else stosb dst c n m

unfoldable pub memcmp : ℕ → ℕ → ℕ → Memory → ℤ
memcmp s1 s2 zero m = pos 0
memcmp s1 s2 (suc n) m =
    let rest = memcmp (suc s1) (suc s2) n m in
    if m s1 == m s2 then rest else byte_diff (m s1) (m s2)

-- `while(n-- > 0) *d++ = *s++;`
unfoldable pub copy_up : ℕ → ℕ → ℕ → Memory → Memory
copy_up d s zero m = m
copy_up d s (suc n) m = copy_up (suc d) (suc s) n (poke d (m s) m)

-- `while(n-- > 0) *--d = *--s;` for the ends `d + n` and `s + n`.
unfoldable pub copy_down : ℕ → ℕ → ℕ → Memory → Memory
copy_down d s zero m = m
copy_down d s (suc n) m = copy_down d s n (poke (d + n) (m (s + n)) m)

unfoldable pub memmove : ℕ → ℕ → ℕ → Memory → Memory
memmove dst src n m =
    if ltb src dst && ltb dst (src + n) then copy_down dst src n m else copy_up dst src n m

pub memcpy : ℕ → ℕ → ℕ → Memory → Memory
memcpy dst src n m = memmove dst src n m

unfoldable pub strncmp : ℕ → ℕ → ℕ → Memory → ℤ
strncmp p q zero m = pos 0
strncmp p q (suc n) m =
    let rest = strncmp (suc p) (suc q) n m in
    if not (m p == 0) && (m p == m q) then rest else byte_diff (m p) (m q)

-- `while(n-- > 0) *s++ = 0;`
pub zero_fill : ℕ → ℕ → Memory → Memory
zero_fill s zero m = m
zero_fill s (suc n) m = zero_fill (suc s) n (poke s 0 m)

-- A size that is not positive copies nothing.
unfoldable pub strncpy : ℕ → ℕ → ℕ → Memory → Memory
strncpy s t zero m = m
strncpy s t (suc n) m =
    let next = poke s (m t) m in
    let rest = strncpy (suc s) (suc t) n next in if m t == 0 then zero_fill (suc s) n next else rest

-- `while(--n > 0 && (*s++ = *t++) != 0) ; *s = 0;` with `n - 1` rounds left. The NUL is stored once
-- more behind a NUL that was copied.
unfoldable pub safe_copy : ℕ → ℕ → ℕ → Memory → Memory
safe_copy s t zero m = poke s 0 m
safe_copy s t (suc n) m =
    let next = poke s (m t) m in
    let rest = safe_copy (suc s) (suc t) n next in if m t == 0 then poke (suc s) 0 next else rest

unfoldable pub safestrcpy : ℕ → ℕ → ℕ → Memory → Memory
safestrcpy s t zero m = m
safestrcpy s t (suc n) m = safe_copy s t n m

-- `for(n = 0; s[n]; n++) ;` with fuel, since the string may have no end.
unfoldable pub strlen : ℕ → ℕ → Memory → Option ℕ
strlen zero s m = none
strlen (suc fuel) s m =
    let rest = strlen fuel (suc s) m in
    if m s == 0 then some 0 else elim rest [ none ↦ none | some k ↦ some (suc k) ]
