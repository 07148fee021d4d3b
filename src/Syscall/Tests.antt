-- ===== src/Syscall/Tests.antt =====
-- A process with a stack and a string in its memory.
use nice_system_calls.Common.{◌+◌, ◌^◌, ◌<◌, ◌≤◌, ◌≡◌, refl, if◌then◌else◌, ◌==◌, some, arith}
use nice_system_calls.Common.Int.{pos}
use nice_system_calls.Memory.{Memory}
use nice_system_calls.Kalloc.{read_word}
use nice_system_calls.Syscall.{fetchint, fetchstr, scan_string, argint, argptr}
use nice_system_calls.Syscall.Fetch.{argptr_lem}

abbrev user : Memory
user x = if x == 20 then 0 else if x == 100 then 8 else 1

fetchint_runs : fetchint user 4096 96 ≡ some 16843009
unfolding fetchint read_word
fetchint_runs = refl

argptr_runs : argptr user (2 ^ 25) 92 0 (pos 64) ≡ some 16843009
unfolding argptr argint fetchint read_word
argptr_runs = refl

argptr_example : (16843009 < 2 ^ 25) × (16843009 + 64 ≤ 2 ^ 25)
argptr_example = argptr_lem user (2 ^ 25) (omega arith) 92 0 64 16843009 (omega arith) argptr_runs

fetchstr_runs : fetchstr user 4096 16 ≡ some 4
unfolding fetchstr scan_string
fetchstr_runs = refl
