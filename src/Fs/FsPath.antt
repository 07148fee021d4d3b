-- ===== src/Fs/FsPath.antt =====
-- fs.c: paths, as the lists of their bytes before the NUL.
pub mod Elements
pub mod Walk
use nice_system_calls.Common.{
  ℕ, zero, suc, ◌+◌, List, [], ◌∷◌, Bool, true, false, ◌&&◌, Option, none, some, arith, ltb, leb,
  ◌==◌, if◌then◌else◌, length, take, Outcome, ok, panic, ◌>>=◌,
}
use nice_system_calls.Fs.{Fs, Inode, t_dir}
use nice_system_calls.Fs.Inodes.{get_inode, iget, idup, ilock, iunlock, iput, iunlockput}
use nice_system_calls.Fs.Content.{Devsw}
use nice_system_calls.Fs.Dir.{dirsiz, dirlookup}

-- The character `/`.
abbrev pub slash : ℕ
slash = 47

-- `while(*path == '/') path++;`
unfoldable pub skip_slashes : List ℕ → List ℕ
skip_slashes [] = []
skip_slashes (c ∷ cs) = let rest = skip_slashes cs in if c == slash then rest else c ∷ cs

-- `while(*path != '/' && *path != 0) path++;`: what it passes, and the path behind it.
unfoldable pub take_element : List ℕ → List ℕ × List ℕ
take_element [] = ([], [])
take_element (c ∷ cs) =
    let rest = take_element cs in if c == slash then ([], c ∷ cs) else (c ∷ rest.0, rest.1)

-- The name, and the path behind it.
abbrev pub element : List ℕ → List ℕ × List ℕ
element path =
    let r = take_element path in
    (if leb dirsiz (length r.0) then take dirsiz r.0 else r.0, skip_slashes r.1)

abbrev pub nonempty_element : List ℕ → Option (List ℕ × List ℕ)
nonempty_element [] = none
nonempty_element (c ∷ cs) = some (element (c ∷ cs))

unfoldable pub skipelem : List ℕ → Option (List ℕ × List ℕ)
skipelem path = nonempty_element (skip_slashes path)

abbrev pub is_end : List ℕ → Bool
is_end [] = true
is_end (c ∷ cs) = false

-- ROOTDEV and ROOTINO.
abbrev pub rootdev : ℕ
rootdev = 1

abbrev pub rootino : ℕ
rootino = 1

-- What a walk comes to: the inode if there is one, what is in `name`, and the state.
abbrev pub Walk : Type 0
Walk = Outcome (Option ℕ × List ℕ × Fs)

-- `iunlockput(ip); return 0;`
unfoldable pub give_up : ℕ → List ℕ → Fs → Walk
give_up i name s = do s' ← iunlockput i s; ok (none, name, s')

module _ (devsw : Devsw) where
  -- One round of the loop of `namex` with the inode locked, and the rest of the loop.
  unfoldable pub walk_inode : Bool → ℕ → List ℕ → List ℕ → Fs → (ℕ → Fs → Walk) → Walk
  walk_inode parent i name path s next = do
    ip ← get_inode i s
    if ip.type == t_dir
        then (if parent && is_end path
            then (do s' ← iunlock (some i) s; ok (some i, name, s'))
            else (do
              r ← dirlookup devsw i name s
              elim r.0 [
                | none ↦ give_up i name r.1
                | some found ↦ (do s' ← iunlockput i r.1; next found.0 s')
              ]))
        else give_up i name s

  -- The test of the loop with the reply of `skipelem`, its body, and what stands behind it.
  unfoldable pub walk_element :
      Bool → ℕ → List ℕ → Fs → Option (List ℕ × List ℕ) → (List ℕ → List ℕ → ℕ → Fs → Walk) → Walk
  walk_element parent i name s none next =
      if parent then (iput i s >>= λ s'. ok (none, name, s')) else ok (some i, name, s)
  walk_element parent i name s (some e) next = do
    s' ← ilock (some i) s
    walk_inode parent i e.0 e.1 s' (next e.0 e.1)

  -- The loop of `namex`, on fuel, with what it comes to where the fuel runs out.
  unfoldable pub walk : Walk → ℕ → Bool → ℕ → List ℕ → List ℕ → Fs → Walk
  walk out zero parent i name path s = out
  walk out (suc fuel) parent i name path s =
      walk_element parent i name s (skipelem path)
        (λ name' path' next s'. walk out fuel parent next name' path' s')

  abbrev pub starts_at_root : List ℕ → Bool
  starts_at_root [] = false
  starts_at_root (c ∷ cs) = c == slash

  -- `cwd` is the directory of the process.
  unfoldable pub namex : ℕ → List ℕ → Bool → List ℕ → Fs → Walk
  namex cwd path parent name s = do
    r ← if starts_at_root path then iget rootdev rootino s else idup cwd s
    walk (panic "fuel") (length path + 1) parent r.0 name path r.1

  pub namei : ℕ → List ℕ → Fs → Walk
  namei cwd path s = namex cwd path false [] s

  pub nameiparent : ℕ → List ℕ → List ℕ → Fs → Walk
  nameiparent cwd path name s = namex cwd path true name s
