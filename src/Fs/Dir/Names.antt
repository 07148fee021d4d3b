-- ===== src/Fs/Dir/Names.antt =====
-- dirlookup, and a directory as a list of names with the numbers of their inodes.
use nice_system_calls.Common.{
  ℕ, zero, suc, ◌+◌, ◌-◌, ◌*◌, ◌/◌, ◌^◌, ◌≤◌, ◌<◌, ◌≡◌, refl, ◌∙◌, List, [], ◌∷◌, true, false,
  Option, none, some, arith, ltb, ◌==◌, eq→==, if◌then◌else◌, inl, inr, Bool-cases, drop, get_or,
  window, Outcome, ok, ◌>>=◌,
}
use Prim.Native.Nat.{min}
use nice_system_calls.Fs.{Fs, Inode, t_dir}
use nice_system_calls.Fs.Inodes.{get_inode, iget}
use nice_system_calls.Fs.Content.{Devsw, readi}
use nice_system_calls.Fs.Content.Reading.{byte_of, AllMapped, readi_lem}
use nice_system_calls.Fs.Dir.{
  dirent_size, Dirent, namecmp, is_pos_zero, to_dirent, lookup_from, dirlookup,
}

-- The entries of the directory, from the bytes of the file.
abbrev pub dirent_of : Inode → Fs → ℕ → Dirent
dirent_of ip s off =
    let bytes = window (byte_of ip s) off dirent_size in
    record { inum = get_or bytes 0 0 + get_or bytes 1 0 * 2 ^ 8; name = drop 2 bytes }

abbrev pub entries : Inode → Fs → ℕ → ℕ → List Dirent
entries ip s off zero = []
entries ip s off (suc n) = dirent_of ip s off ∷ entries ip s (off + dirent_size) n

-- The first entry in use with the name: its offset, and its number.
unfoldable pub find_name : List ℕ → List Dirent → ℕ → Option (ℕ × ℕ)
find_name name [] off = none
find_name name (de ∷ des) off =
    let rest = find_name name des (off + dirent_size) in
    if de.inum == 0
    then rest
    else if is_pos_zero (namecmp name de.name)
    then some (off, de.inum)
    else rest

-- The entry of the cache for what was found.
pub found_inode : ℕ → Fs → Option (ℕ × ℕ) → Outcome (Option (ℕ × ℕ) × Fs)
found_inode dev s none = ok (none, s)
found_inode dev s (some f) = do q ← iget dev f.1 s; ok (some (q.0, f.0), q.1)

-- A directory whose blocks are there, of `n` entries.
pub record Directory (dp n : ℕ) (ip : Inode) (s : Fs) : Type 0 where
  pub at : get_inode dp s ≡ ok ip
  pub type : ip.type ≡ t_dir
  pub size : ip.size ≡ n * dirent_size
  pub small : ip.size < 2 ^ 31
  pub mapped : AllMapped ip s

to_dirent_lem :
    (ip : Inode) (s : Fs) (off : ℕ)
    → to_dirent (some (window (byte_of ip s) off dirent_size)) ≡ ok (dirent_of ip s off)
unfolding to_dirent
to_dirent_lem ip s off = refl

module _ (devsw : Devsw) (dp n : ℕ) (ip : Inode) (s : Fs) (d : Directory dp n ip s) where
  read_entry :
      (off : ℕ)
      → off + dirent_size ≤ ip.size
      → readi devsw dp off dirent_size s ≡ ok (some (window (byte_of ip s) off dirent_size), s)
  read_entry off le =
      let within : ltb ip.size off ≡ false = ground arith in
      let count : min dirent_size (ip.size - off) ≡ dirent_size = omega arith in
      readi_lem devsw dp off dirent_size ip s d.at (λ e. absurd (omega (arith, d.type))) d.mapped
        (omega (arith, d.small))
      ∙ rw (within, count) refl

  lookup_from_lem :
      (fuel left off : ℕ) (name : List ℕ)
      → left < fuel
      → off + left * dirent_size ≡ ip.size
      → lookup_from devsw fuel dp name off s
        ≡ found_inode ip.dev s (find_name name (entries ip s off left) off)
  unfolding lookup_from find_name found_inode
  lookup_from_lem zero left off name lt e = absurd (omega arith)
  lookup_from_lem (suc fuel) zero off name lt e =
      let at_end : ltb off ip.size ≡ false = ground arith in rw (d.at, at_end) refl
  lookup_from_lem (suc fuel) (suc left) off name lt e =
      let more : ltb off ip.size ≡ true = ground arith in
      let next = lookup_from_lem fuel left (off + dirent_size) name (omega arith) (omega arith) in
      rw (d.at, more, read_entry off (omega arith), to_dirent_lem ip s off)
        (elim (Bool-cases ((dirent_of ip s off).inum == 0)) [
          | inl free ↦ rw free next
          | inr used ↦ elim (Bool-cases (is_pos_zero (namecmp name (dirent_of ip s off).name))) [
            | inl same ↦ rw (used, same) refl
            | inr other ↦ rw (used, other) next
          ]
        ])

-- On a directory of whole entries, whose blocks are all there and whose size is below 2 ^ 31,
-- `dirlookup` is a search of the list of its entries: it gives the offset and, by `iget`, the inode
-- of the first entry in use with the name, and none where there is no such entry.
pub dirlookup-Directory :
    (devsw : Devsw) (dp n : ℕ) (ip : Inode) (s : Fs) (name : List ℕ)
    → Directory dp n ip s
    → dirlookup devsw dp name s ≡ found_inode ip.dev s (find_name name (entries ip s 0 n) 0)
unfolding dirlookup
dirlookup-Directory devsw dp n ip s name d =
    rw (d.at, eq→== ip.type t_dir d.type)
      (lookup_from_lem devsw dp n ip s d (ip.size / dirent_size + 2) n 0 name
        (omega (arith, d.size)) (omega (arith, d.size)))
