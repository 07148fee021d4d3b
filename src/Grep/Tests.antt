-- ===== src/Grep/Tests.antt =====
-- Patterns and texts, and a line that `grep` loses.
use nice_system_calls.Common.{ℕ, ◌≡◌, ◌↔◌, refl, true, false, List, [], ◌∷◌}
use nice_system_calls.Grep.{
  match, match_from, matchhere, matchstar, match_byte, grep, scan_lines, next_line,
}
use nice_system_calls.Grep.Match.{Found, match_iff}

abbrev pattern_ab : List ℕ
pattern_ab = b'^' ∷ b'a' ∷ b'*' ∷ b'b' ∷ b'$' ∷ []

match_example :
    (match pattern_ab (b'a' ∷ b'a' ∷ b'b' ∷ []) ≡ true) ↔ Found pattern_ab (b'a' ∷ b'a' ∷ b'b' ∷ [])
match_example = match_iff pattern_ab (b'a' ∷ b'a' ∷ b'b' ∷ [])

match_runs : match pattern_ab (b'a' ∷ b'a' ∷ b'b' ∷ []) ≡ true
unfolding match matchhere matchstar match_byte
match_runs = refl

match_fails : match pattern_ab (b'a' ∷ b'a' ∷ b'b' ∷ b'c' ∷ []) ≡ false
unfolding match matchhere matchstar match_byte
match_fails = refl

-- One read of the whole line prints it; two reads, of which the first has no newline, lose its start.
grep_whole : grep (b'a' ∷ []) (9 ∷ 9 ∷ []) (b'a' ∷ b'b' ∷ 10 ∷ []) [] ≡ b'a' ∷ b'b' ∷ 10 ∷ []
unfolding grep scan_lines next_line match match_from matchhere match_byte
grep_whole = refl

grep_split : grep (b'a' ∷ []) (1 ∷ 9 ∷ 9 ∷ []) (b'a' ∷ b'b' ∷ 10 ∷ []) [] ≡ []
unfolding grep scan_lines next_line match match_from matchhere match_byte
grep_split = refl
