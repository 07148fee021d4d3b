-- ===== src/Fs/Dir.antt =====
-- fs.c: directories. An entry is 16 bytes: the number of an inode, and a name that NUL bytes fill up
-- to 14. A name in memory is the list of its bytes before the NUL.
pub mod Names
use nice_system_calls.Common.{
  ℕ, zero, suc, ◌+◌, ◌-◌, ◌*◌, ◌/◌, ◌%◌, ◌^◌, List, [], ◌∷◌, ◌++◌, Bool, true, false, Option, none,
  some, arith, ltb, ◌==◌, if◌then◌else◌, length, take, drop, get_or, replicate, Outcome, ok, panic,
  ◌>>=◌,
}
use nice_system_calls.Common.Int.{ℤ, pos, negsuc}
use nice_system_calls.Memory.{Memory, strncmp}
use nice_system_calls.Fs.{Fs, t_dir}
use nice_system_calls.Fs.Inodes.{get_inode, iget, iput}
use nice_system_calls.Fs.Content.{Devsw, readi, writei}

-- DIRSIZ, and `sizeof(struct dirent)`.
abbrev pub dirsiz : ℕ
dirsiz = 14

abbrev pub dirent_size : ℕ
dirent_size = 16

-- Two strings at the addresses 0 and 100, with NUL bytes behind them.
abbrev pub two_strings : List ℕ → List ℕ → Memory
two_strings s t x = if ltb x 100 then get_or s x 0 else get_or t (x - 100) 0

unfoldable pub namecmp : List ℕ → List ℕ → ℤ
namecmp s t = strncmp 0 100 dirsiz (two_strings s t)

-- `struct dirent`
pub record Dirent : Type 0 where
  pub inum : ℕ
  pub name : List ℕ

-- `if(readi(dp, (char*)&de, off, sizeof(de)) != sizeof(de)) panic("dirlink read");`
unfoldable pub to_dirent : Option (List ℕ) → Outcome Dirent
to_dirent none = panic "dirlink read"
to_dirent (some bytes) =
    if length bytes == dirent_size
    then ok (record { inum = get_or bytes 0 0 + get_or bytes 1 0 * 2 ^ 8; name = drop 2 bytes })
    else panic "dirlink read"

abbrev pub is_pos_zero : ℤ → Bool
is_pos_zero (pos n) = n == 0
is_pos_zero (negsuc n) = false

-- The bytes of an entry, with `strncpy(de.name, name, DIRSIZ); de.inum = inum;`.
unfoldable pub from_dirent : List ℕ → ℕ → List ℕ
from_dirent name inum = inum % 256 ∷ inum / 2 ^ 8 % 256 ∷ take dirsiz (name ++ replicate dirsiz 0)

module _ (devsw : Devsw) where
  -- The loop of `dirlookup` at `off`, on fuel: the entry of the cache, and the offset.
  unfoldable pub lookup_from : ℕ → ℕ → List ℕ → ℕ → Fs → Outcome (Option (ℕ × ℕ) × Fs)
  lookup_from zero dp name off s = panic "fuel"
  lookup_from (suc fuel) dp name off s = do
    ip ← get_inode dp s
    if ltb off ip.size
        then (do
          r ← readi devsw dp off dirent_size s
          de ← to_dirent r.0
          if de.inum == 0
              then lookup_from fuel dp name (off + dirent_size) r.1
              else if is_pos_zero (namecmp name de.name)
              then (do q ← iget ip.dev de.inum r.1; ok (some (q.0, off), q.1))
              else lookup_from fuel dp name (off + dirent_size) r.1)
        else ok (none, s)

  unfoldable pub dirlookup : ℕ → List ℕ → Fs → Outcome (Option (ℕ × ℕ) × Fs)
  dirlookup dp name s = do
    ip ← get_inode dp s
    if ip.type == t_dir
        then lookup_from (ip.size / dirent_size + 2) dp name 0 s
        else panic "dirlookup not DIR"

  -- The loop of `dirlink` at `off`, on fuel: the offset of an empty entry, or the end.
  unfoldable pub empty_from : ℕ → ℕ → ℕ → Fs → Outcome (ℕ × Fs)
  empty_from zero dp off s = panic "fuel"
  empty_from (suc fuel) dp off s = do
    ip ← get_inode dp s
    if ltb off ip.size
        then (do
          r ← readi devsw dp off dirent_size s
          de ← to_dirent r.0
          if de.inum == 0 then ok (off, r.1) else empty_from fuel dp (off + dirent_size) r.1)
        else ok (off, s)

  -- Behind the second loop: the entry is written. The reply is 0.
  unfoldable pub write_dirent : ℕ → List ℕ → ℕ → ℕ → Fs → Outcome (Option ℕ × Fs)
  write_dirent dp name inum off s = do
    w ← writei devsw dp (from_dirent name inum) off s
    elim w.0 [
      | none ↦ panic "dirlink"
      | some n ↦ if n == dirent_size then ok (some 0, w.1) else panic "dirlink"
    ]

  unfoldable pub dirlink : ℕ → List ℕ → ℕ → Fs → Outcome (Option ℕ × Fs)
  dirlink dp name inum s = do
    r ← dirlookup dp name s
    elim r.0 [
      | some found ↦ (do s' ← iput found.0 r.1; ok (none, s'))
      | none ↦ (do
        ip ← get_inode dp r.1
        e ← empty_from (ip.size / dirent_size + 2) dp 0 r.1
        write_dirent dp name inum e.0 e.1)
    ]
