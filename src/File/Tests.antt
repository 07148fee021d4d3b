-- ===== src/File/Tests.antt =====
-- A table with one open file, and a file of bytes on the disk.
use nice_system_calls.Common.{ℕ, ◌+◌, List, [], ◌∷◌, true, ltb, ◌||◌, if◌then◌else◌}
use nice_system_calls.Common.Int.{ℤ, pos, negsuc}
use nice_system_calls.File.{File, fd_inode}
use nice_system_calls.File.Refs.{no_file}

abbrev readme : File
readme = record no_file { type = fd_inode; refs = 1; writable = true; off = 100 }

abbrev files : List File
files = readme ∷ no_file ∷ []

-- A file of `size` bytes: `writei` writes at an offset up to its end, as far as MAXFILE blocks.
abbrev write_bytes : ℕ → ℕ → ℕ → ℕ → ℕ → ℤ × ℕ
write_bytes ip addr off n size =
    if ltb size off || ltb 71680 (off + n)
    then (negsuc 0, size)
    else (pos n, if ltb size (off + n) then off + n else size)
