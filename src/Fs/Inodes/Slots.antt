-- ===== src/Fs/Inodes/Slots.antt =====
-- The loop of iget over the entries of the cache.
use nice_system_calls.Common.{
  ℕ, suc, ◌+◌, ◌-◌, ◌<◌, ◌≡◌, ◌≢◌, ap, sym, subst, ◌∙◌, List, [], ◌∷◌, true, false, none, some,
  arith, ltb, ◌==◌, inl, inr, Bool-cases, ℕ_discrete, get_elem?,
}
use nice_system_calls.Fs.{Inode}
use nice_system_calls.Fs.Inodes.{Slot, cached, recycled, full, is_cached, find_inode}

-- Two entries in use are of different inodes.
abbrev pub NoTwins : List Inode → Type 0
NoTwins ips =
    (i j : ℕ) (ip jp : Inode)
    → get_elem? ips i ≡ some ip
    → get_elem? ips j ≡ some jp
    → 0 < ip.refs
    → 0 < jp.refs
    → ip.dev ≡ jp.dev
    → ip.inum ≡ jp.inum
    → i ≡ j

-- What the loop of `iget` finds.
pub data FoundSlot (dev inum : ℕ) (all : List Inode) : Slot → Type 0 where
  hit :
      (k : ℕ) (ip : Inode)
      → get_elem? all k ≡ some ip
      → is_cached dev inum ip ≡ true
      → FoundSlot dev inum all (cached k)
  free :
      (k : ℕ) (ip : Inode)
      → get_elem? all k ≡ some ip
      → ip.refs ≡ 0
      → ((j : ℕ) (jp : Inode) → get_elem? all j ≡ some jp → is_cached dev inum jp ≡ false)
      → FoundSlot dev inum all (recycled k)
  used_up :
      ((j : ℕ) (jp : Inode) → get_elem? all j ≡ some jp → jp.refs ≢ 0) → FoundSlot dev inum all full

-- What `empty` says of the entries before `i`.
pub data Remembers (all : List Inode) (i : ℕ) : Slot → Type 0 where
  met :
      (k : ℕ) (ip : Inode) → get_elem? all k ≡ some ip → ip.refs ≡ 0 → Remembers all i (recycled k)
  unmet :
      ((j : ℕ) (jp : Inode) → j < i → get_elem? all j ≡ some jp → jp.refs ≢ 0)
      → Remembers all i full

pub some_inj : (x y : Inode) → some x ≡ some y → x ≡ y
some_inj x y e = grind arith

no_entry : (x : Inode) → ¬ (some x ≡ none)
no_entry x e = grind arith

module _ (dev inum : ℕ) (all : List Inode) where
  abbrev Suffix : List Inode → ℕ → Type 0
  Suffix ips i = (k : ℕ) → get_elem? all (i + k) ≡ get_elem? ips k

  abbrev Seen : ℕ → Type 0
  Seen i = (j : ℕ) (jp : Inode) → j < i → get_elem? all j ≡ some jp → is_cached dev inum jp ≡ false

  past : (i j : ℕ) (jp : Inode) → Suffix [] i → get_elem? all j ≡ some jp → j < i
  past i j jp at e = elim (Bool-cases (ltb j i)) [
    | inl h ↦ ground (arith, h)
    | inr h ↦
        (let same : j ≡ i + (j - i) = ground (arith, h) in
          absurd (no_entry jp (sym e ∙ ap (get_elem? all) same ∙ at (j - i))))
  ]

  step_suffix : (ip : Inode) (ips : List Inode) (i : ℕ) → Suffix (ip ∷ ips) i → Suffix ips (suc i)
  step_suffix ip ips i at k = ap (get_elem? all) (omega arith) ∙ at (suc k)

  head_suffix :
      (ip : Inode) (ips : List Inode) (i : ℕ) → Suffix (ip ∷ ips) i → get_elem? all i ≡ some ip
  head_suffix ip ips i at = ap (get_elem? all) (omega arith) ∙ at 0

  -- A property of the entries before `i` and of entry `i` is one of those before `i + 1`.
  one_more :
      (P : Inode → Type 0) (i : ℕ) (ip : Inode)
      → get_elem? all i ≡ some ip
      → ((j : ℕ) (jp : Inode) → j < i → get_elem? all j ≡ some jp → P jp)
      → P ip
      → (j : ℕ) (jp : Inode) → j < suc i
      → get_elem? all j ≡ some jp
      → P jp
  one_more P i ip e h p j jp lt e' = elim (ℕ_discrete j i) [
    | yes same ↦ subst P (some_inj ip jp (sym e ∙ ap (get_elem? all) (sym same) ∙ e')) p
    | no other ↦ h j jp (omega arith) e'
  ]

  pub find_inode_view :
      (ips : List Inode) (i : ℕ) (empty : Slot)
      → Suffix ips i
      → Seen i
      → Remembers all i empty
      → FoundSlot dev inum all (find_inode dev inum ips i empty)
  unfolding find_inode
  find_inode_view [] i empty at seen (met k ip e z) =
      free k ip e z (λ j jp e'. seen j jp (past i j jp at e') e')
  find_inode_view [] i empty at seen (unmet h) = used_up (λ j jp e'. h j jp (past i j jp at e') e')
  find_inode_view (ip ∷ ips) i empty at seen (met k kp e z) =
      elim (Bool-cases (is_cached dev inum ip)) [
        | inl c ↦ rw c (hit i ip (head_suffix ip ips i at) c)
        | inr c ↦ rw c (
            find_inode_view ips (suc i) (recycled k) (step_suffix ip ips i at) (see c)
              (met k kp e z))
      ]
    where
      see : is_cached dev inum ip ≡ false → Seen (suc i)
      see c = one_more (λ jp. is_cached dev inum jp ≡ false) i ip (head_suffix ip ips i at) seen c
  find_inode_view (ip ∷ ips) i empty at seen (unmet h) = elim (Bool-cases (is_cached dev inum ip)) [
    | inl c ↦ rw c (hit i ip here c)
    | inr c ↦ elim (Bool-cases (ip.refs == 0)) [
      | inl z ↦
          rw (c, z)
            (find_inode_view ips (suc i) (recycled i) (step_suffix ip ips i at) (see c)
              (met i ip here (ground arith)))
      | inr z ↦
          rw (c, z)
            (find_inode_view ips (suc i) full (step_suffix ip ips i at) (see c)
              (unmet (one_more (λ jp. jp.refs ≢ 0) i ip here h (ground arith))))
    ]
  ]
    where
      here : get_elem? all i ≡ some ip
      here = head_suffix ip ips i at

      see : is_cached dev inum ip ≡ false → Seen (suc i)
      see c = one_more (λ jp. is_cached dev inum jp ≡ false) i ip here seen c
