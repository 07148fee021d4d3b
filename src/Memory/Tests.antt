-- ===== src/Memory/Tests.antt =====
-- Blocks of bytes that overlap, and a string that is cut.
use nice_system_calls.Common.{◌+◌, ◌-◌, ◌≡◌, refl, if◌then◌else◌}
use nice_system_calls.Memory.{Memory, memmove, copy_down}
use nice_system_calls.Memory.Move.{in_block, memmove_lem}

abbrev ramp : Memory
ramp x = x + 1

memmove_example :
    memmove 102 100 4 ramp 103 ≡ (if in_block 102 4 103 then ramp (100 + (103 - 102)) else ramp 103)
memmove_example = memmove_lem 102 100 4 ramp 103

memmove_overlap : memmove 102 100 4 ramp 104 ≡ 103
unfolding memmove copy_down
memmove_overlap = refl
