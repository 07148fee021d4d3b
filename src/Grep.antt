-- ===== src/Grep.antt =====
-- grep.c: the matcher of regular expressions, and the loop over the lines of a file. A string is the
-- list of its bytes before the NUL.
pub mod Match
mod Tests
use nice_system_calls.Common.{
  ℕ, zero, suc, ◌+◌, ◌-◌, Bool, true, false, List, [], ◌∷◌, ◌++◌, Option, none, some, arith, ltb,
  ◌==◌, if◌then◌else◌, ◌||◌, ◌&&◌, length, take, drop,
}

-- `re[0]=='.' || re[0]==*text`
abbrev pub accepts : ℕ → ℕ → Bool
accepts c t = (c == b'.') || (c == t)

-- The last branch of `matchhere`: one byte, and the rest of the text to `here`.
unfoldable pub match_byte : ℕ → (List ℕ → Bool) → List ℕ → Bool
match_byte c here [] = false
match_byte c here (t ∷ text) = if accepts c t then here text else false

-- The loop of `matchstar`; `here` matches what follows the star.
unfoldable pub matchstar : ℕ → (List ℕ → Bool) → List ℕ → Bool
matchstar c here [] = here []
matchstar c here (t ∷ text) =
    let rest = matchstar c here text in
    if here (t ∷ text) then true else if (t == c) || (c == b'.') then rest else false

abbrev pub is_empty : List ℕ → Bool
is_empty [] = true
is_empty (t ∷ text) = false

unfoldable pub matchhere : List ℕ → List ℕ → Bool
matchhere [] text = true
matchhere (c ∷ []) text = if c == b'$' then is_empty text else match_byte c (matchhere []) text
matchhere (c ∷ d ∷ re) text =
    let star = matchstar c (matchhere re) text in
    let byte = match_byte c (matchhere (d ∷ re)) text in if d == b'*' then star else byte

-- The loop of `match`.
unfoldable pub match_from : List ℕ → List ℕ → Bool
match_from re [] = matchhere re []
match_from re (t ∷ text) =
    let rest = match_from re text in if matchhere re (t ∷ text) then true else rest

unfoldable pub match : List ℕ → List ℕ → Bool
match [] text = match_from [] text
match (c ∷ re) text = if c == b'^' then matchhere re text else match_from (c ∷ re) text

-- `strchr(p, '\n')`: the bytes before the newline, and those behind it. A NUL ends the search.
unfoldable pub next_line : List ℕ → Option (List ℕ × List ℕ)
next_line [] = none
next_line (t ∷ text) =
    let rest = next_line text in
    if t == 0
    then none
    else if t == 10
    then some ([], text)
    else elim rest [ none ↦ none | some (line, after) ↦ some (t ∷ line, after) ]

-- The inner loop of `grep` with fuel: what it writes, and the bytes from `p` on.
unfoldable pub scan_lines : ℕ → List ℕ → List ℕ → List ℕ × List ℕ
scan_lines zero re p = ([], p)
scan_lines (suc fuel) re p = elim (next_line p) [
  | none ↦ ([], p)
  | some (line, after) ↦
      let rest = scan_lines fuel re after in
      ((if match re line then line ++ 10 ∷ rest.0 else rest.0), rest.1)
]

-- sizeof(buf)
abbrev pub buf_size : ℕ
buf_size = 1024

-- `grep` on the bytes `file`, for the sizes that the calls of `read` may give, one after the other;
-- `held` is the text in `buf`. The result is what it writes. Where the buffer has no newline, `p` is
-- still `buf`, and the code drops the text.
unfoldable pub grep : List ℕ → List ℕ → List ℕ → List ℕ → List ℕ
grep re [] file held = []
grep re (size ∷ sizes) file held =
    let room = buf_size - length held - 1 in
    let n = if ltb room size then room else size in
    let got = take n file in
    let text = held ++ got in
    let scanned = scan_lines (length text + 1) re text in
    let kept = if length scanned.1 == length text then [] else scanned.1 in
    let rest = grep re sizes (drop n file) kept in if length got == 0 then [] else scanned.0 ++ rest
