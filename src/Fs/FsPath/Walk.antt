-- ===== src/Fs/FsPath/Walk.antt =====
-- The loop of namex, and what a round leaves of the path.
use nice_system_calls.Common.{
  ℕ, zero, suc, ◌<◌, ◌≡◌, refl, ap, List, [], ◌∷◌, Bool, some, arith, length, ◌>>=◌,
}
use nice_system_calls.Fs.{Fs}
use nice_system_calls.Fs.Inodes.{ilock}
use nice_system_calls.Fs.Content.{Devsw}
use nice_system_calls.Fs.FsPath.{
  skip_slashes, element, nonempty_element, skipelem, Walk, walk_inode, walk_element, walk,
}
use nice_system_calls.Fs.FsPath.Elements.{
  NoSlash, at_end, at_char, skip_slashes-NoSlash, length-skip_slashes, length-element,
}

module _ (devsw : Devsw) (out out' : Walk) (parent : Bool) where
  abbrev Agree : ℕ → ℕ → List ℕ → Type 0
  Agree n m path =
      (i : ℕ) (name : List ℕ) (s : Fs)
      → walk devsw out n parent i name path s ≡ walk devsw out' m parent i name path s

  round :
      (n m : ℕ) (rest : List ℕ) (i : ℕ) (name : List ℕ) (s : Fs)
      → NoSlash rest
      → ((path : List ℕ) → length path < length rest → Agree n m path)
      → walk_element devsw parent i name s
          (nonempty_element rest)
          (λ name' path' next s'. walk devsw out n parent next name' path' s')
        ≡ walk_element devsw parent i name s
            (nonempty_element rest)
            (λ name' path' next s'. walk devsw out' m parent next name' path' s')
  unfolding walk_element
  round n m [] i name s at_end h = refl
  round n m (c ∷ cs) i name s (at_char c' cs' e) h =
      let less = h (element (c ∷ cs)).1 (omega (arith, length-element c cs e)) in
      let same : (λ next s''.
        walk devsw out n parent next (element (c ∷ cs)).0 (element (c ∷ cs)).1 s'')
          ≡ (λ next s''.
              walk devsw out' m parent next (element (c ∷ cs)).0 (element (c ∷ cs)).1 s'') =
        (λ k next s''. less next (element (c ∷ cs)).0 s'' k) in
      ap
        (λ f. ilock (some i) s >>= λ s'.
          walk_inode devsw parent i (element (c ∷ cs)).0 (element (c ∷ cs)).1 s' f)
        same

  walk_lem : (n m : ℕ) (path : List ℕ) → length path < n → length path < m → Agree n m path
  unfolding walk skipelem
  walk_lem zero m path a b i name s = absurd (omega arith)
  walk_lem (suc n) zero path a b i name s = absurd (omega arith)
  walk_lem (suc n) (suc m) path a b i name s =
      round n m (skip_slashes path) i name s (skip_slashes-NoSlash path) (λ rest lt.
        walk_lem n m rest (omega (arith, length-skip_slashes path))
          (omega (arith, length-skip_slashes path)))

-- The loop of `namex` ends within as many rounds as the path has bytes, and one more: two runs with
-- more rounds than bytes come to the same, whatever stands for a run that has no rounds left.
pub walk-ends :
    (devsw : Devsw) (out out' : Walk) (parent : Bool) (n m : ℕ) (path : List ℕ) (i : ℕ)
    (name : List ℕ) (s : Fs)
    → length path < n
    → length path < m
    → walk devsw out n parent i name path s ≡ walk devsw out' m parent i name path s
walk-ends devsw out out' parent n m path i name s a b =
    walk_lem devsw out out' parent n m path a b i name s
