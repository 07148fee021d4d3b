-- ===== src/Fs/Inodes/Sharing.antt =====
-- The operations on the cache of inodes, in any order.
use nice_system_calls.Common.{
  ℕ, zero, suc, ◌+◌, ◌-◌, ◌≤◌, ◌<◌, ◌≡◌, refl, ap, sym, subst, ◌∙◌, true, false, not, ◌&&◌, ◌||◌,
  some, arith, ltb, ◌==◌, inl, inr, Bool-cases, length, get_or, take, get_elem?, get_elem?-lt,
  lt→ltb, ok, ◌>>=◌, load, Ends, Ends-bind, Ends-ok, load-cases,
}
use nice_system_calls.Fs.{Fs, Inode, ndirect, iblock}
use nice_system_calls.Fs.Inodes.{
  iget, idup, ilock, read_inode, read_dinode, read_half, dinode_at, iunlock, iupdate, ialloc,
  ialloc_from, free_direct, itrunc, free_inode, drop_ref, iput, get_inode, put_inode,
}
use nice_system_calls.Fs.Inodes.Slots.{NoTwins}
use nice_system_calls.Fs.Inodes.Cache.{keep-NoTwins, iget-keeps}
use nice_system_calls.Fs.Inodes.SameCache.{
  Kept, put_lem, free_direct-SameCache, after_same, blocks-SameCache, iupdate-Kept,
}

-- An entry is read and changed, and stays of its inode.
change-Kept :
    (i : ℕ) (s : Fs) (f : Inode → Inode)
    → Kept s
    → ((ip : Inode) → (f ip).dev ≡ ip.dev)
    → ((ip : Inode) → (f ip).inum ≡ ip.inum)
    → ((ip : Inode) → (f ip).refs ≤ ip.refs)
    → Ends Kept (get_inode i s >>= λ ip. put_inode i (f ip) s)
change-Kept i s f u d n r = elim (load-cases s.inodes i) [
  | inl e ↦ rw e tt
  | inr (ip, e) ↦ rw e (put_lem i ip (f ip) s e u (d ip) (n ip) (λ h. omega (arith, r ip)))
]

itrunc-Kept : (i : ℕ) (s : Fs) → Kept s → Ends Kept (itrunc i s)
unfolding itrunc
itrunc-Kept i s u = elim (load-cases s.inodes i) [
  | inl e ↦ rw e tt
  | inr (ip, e) ↦ rw e (
      after_same Kept s (free_direct (take ndirect ip.addrs) s) _
        (free_direct-SameCache (take ndirect ip.addrs) s)
        (λ s1 e1. after_same Kept s1 _ _ (blocks-SameCache (get_or ip.addrs ndirect 0) s1) (λ s2 e2.
          Ends-bind Kept Kept _ (iupdate i)
            (put_lem i ip _ s2 (ap (λ is. load is i) (e2 ∙ e1) ∙ e)
              (subst NoTwins (sym (e2 ∙ e1)) u) refl refl (λ h. h))
            (λ s3 u3. iupdate-Kept i s3 u3))))
]

free_inode-Kept : (i : ℕ) (s : Fs) → Kept s → Ends Kept (free_inode i s)
unfolding free_inode
free_inode-Kept i s u = Ends-bind Kept Kept (itrunc i s) _ (itrunc-Kept i s u) (λ s1 u1.
    elim (load-cases s1.inodes i) [
      | inl e ↦ rw e tt
      | inr (ip, e) ↦ rw e (
          Ends-bind Kept Kept _ _ (put_lem i ip (record ip { type = 0 }) s1 e u1 refl refl (λ h. h))
            (λ s2 u2. Ends-bind Kept Kept (iupdate i s2) _ (iupdate-Kept i s2 u2) (λ s3 u3.
              change-Kept i s3 (λ ip'. record ip' { valid = false }) u3 (λ x. refl) (λ x. refl)
                (λ x. omega arith))))
    ])

drop_ref-Kept : (i : ℕ) (s : Fs) → Kept s → Ends Kept (drop_ref i s)
unfolding drop_ref
drop_ref-Kept i s u = elim (load-cases s.inodes i) [
  | inl e ↦ rw e tt
  | inr (ip, e) ↦ elim (Bool-cases (ip.refs == 0)) [
    | inl z ↦ rw (e, z) tt
    | inr z ↦
        rw (e, z)
          (put_lem i ip (record ip { refs = ip.refs - 1 }) s e u refl refl (λ h. omega arith))
  ]
]

iput-Kept : (i : ℕ) (s : Fs) → Kept s → Ends Kept (iput i s)
unfolding iput
iput-Kept i s u = elim (load-cases s.inodes i) [
  | inl e ↦ rw e tt
  | inr (ip, e) ↦ elim (Bool-cases ((ip.refs == 1) && ip.valid && (ip.nlink == 0))) [
    | inl z ↦
        rw (e, z)
          (Ends-bind Kept Kept (free_inode i s) (drop_ref i) (free_inode-Kept i s u)
            (λ s' u'. drop_ref-Kept i s' u'))
    | inr z ↦ rw (e, z) (drop_ref-Kept i s u)
  ]
]

iunlock-Kept : (i : ℕ) (s : Fs) → Kept s → Ends Kept (iunlock (some i) s)
unfolding iunlock
iunlock-Kept i s u = elim (load-cases s.inodes i) [
  | inl e ↦ rw e tt
  | inr (ip, e) ↦ elim (Bool-cases (not ip.locked || ltb ip.refs 1)) [
    | inl z ↦ rw (e, z) tt
    | inr z ↦ rw (e, z) (put_lem i ip (record ip { locked = false }) s e u refl refl (λ h. h))
  ]
]

-- What `ilock` reads into an entry.
abbrev SameEntry : Inode → Inode → Type 0
SameEntry ip new = (new.dev ≡ ip.dev) × (new.inum ≡ ip.inum) × (new.refs ≡ ip.refs)

read_inode-SameEntry : (ip : Inode) (s : Fs) → Ends (SameEntry ip) (read_inode ip s)
unfolding read_inode read_dinode
read_inode-SameEntry ip s = elim (Bool-cases ip.valid) [
  | inl v ↦ rw v (refl, refl, refl)
  | inr v ↦
      elim (Bool-cases (read_half (dinode_at ip.inum) (s.blocks (iblock ip.inum s.sb)) == 0)) [
        | inl z ↦ rw (v, z) tt
        | inr z ↦ rw (v, z) (refl, refl, refl)
      ]
]

ilock-Kept : (i : ℕ) (s : Fs) → Kept s → Ends Kept (ilock (some i) s)
unfolding ilock
ilock-Kept i s u = elim (load-cases s.inodes i) [
  | inl e ↦ rw e tt
  | inr (ip, e) ↦ elim (Bool-cases (ltb ip.refs 1)) [
    | inl z ↦ rw (e, z) tt
    | inr z ↦ elim (Bool-cases ip.locked) [
      | inl l ↦ rw (e, z, l) tt
      | inr l ↦
          rw (e, z, l)
            (Ends-bind (SameEntry ip) Kept _ (λ new. put_inode i new s)
              (read_inode-SameEntry (record ip { locked = true }) s)
              (λ new h. put_lem i ip new s e u h.0 h.1 (λ r. omega (arith, h.2))))
    ]
  ]
]

idup-Kept :
    (i : ℕ) (ip : Inode) (s : Fs)
    → get_elem? s.inodes i ≡ some ip
    → 0 < ip.refs
    → Kept s
    → Ends (λ r. Kept r.1) (idup i s)
unfolding idup
idup-Kept i ip s e used u =
    rw (e, lt→ltb i (length s.inodes) (get_elem?-lt s.inodes i ip e))
      (keep-NoTwins s.inodes i ip (record ip { refs = ip.refs + 1 }) e u refl refl (λ h. used))

ialloc_from-Kept :
    (n inum dev type : ℕ) (s : Fs) → Kept s → Ends (λ r. Kept r.1) (ialloc_from n inum dev type s)
unfolding ialloc_from
ialloc_from-Kept zero inum dev type s u = tt
ialloc_from-Kept (suc n) inum dev type s u = elim (Bool-cases (ltb inum s.sb.ninodes)) [
  | inl l ↦ elim (Bool-cases (read_half (dinode_at inum) (s.blocks (iblock inum s.sb)) == 0)) [
    | inl z ↦ rw (l, z) (iget-keeps dev inum _ u)
    | inr z ↦ rw (l, z) (ialloc_from-Kept n (suc inum) dev type s u)
  ]
  | inr l ↦ rw l tt
]

-- One call on the cache. A reference is copied only by a process that has it.
pub data CacheStep (s : Fs) : Fs → Type 0 where
  gets : (dev inum i : ℕ) {s' : Fs} → iget dev inum s ≡ ok (i, s') → CacheStep s s'
  copies :
      (i j : ℕ) (ip : Inode) {s' : Fs}
      → get_elem? s.inodes i ≡ some ip
      → 0 < ip.refs
      → idup i s ≡ ok (j, s')
      → CacheStep s s'
  allocates : (dev type i : ℕ) {s' : Fs} → ialloc dev type s ≡ ok (i, s') → CacheStep s s'
  locks : (i : ℕ) {s' : Fs} → ilock (some i) s ≡ ok s' → CacheStep s s'
  unlocks : (i : ℕ) {s' : Fs} → iunlock (some i) s ≡ ok s' → CacheStep s s'
  updates : (i : ℕ) {s' : Fs} → iupdate i s ≡ ok s' → CacheStep s s'
  truncates : (i : ℕ) {s' : Fs} → itrunc i s ≡ ok s' → CacheStep s s'
  puts : (i : ℕ) {s' : Fs} → iput i s ≡ ok s' → CacheStep s s'

-- The states that calls reach from a cache with no entry in use.
pub data CacheRun : Fs → Type 0 where
  empty :
      (s : Fs) → ((i : ℕ) (ip : Inode) → get_elem? s.inodes i ≡ some ip → ip.refs ≡ 0) → CacheRun s
  goes : {s s' : Fs} → CacheRun s → CacheStep s s' → CacheRun s'

step-Kept : (s s' : Fs) → CacheStep s s' → Kept s → Kept s'
unfolding ialloc
step-Kept s s' (gets dev inum i e) u =
    Ends-ok (λ r. Kept r.1) (iget dev inum s) (i, s') (iget-keeps dev inum s u) e
step-Kept s s' (copies i j ip g r e) u =
    Ends-ok (λ r. Kept r.1) (idup i s) (j, s') (idup-Kept i ip s g r u) e
step-Kept s s' (allocates dev type i e) u =
    Ends-ok (λ r. Kept r.1) (ialloc_from s.sb.ninodes 1 dev type s) (i, s')
      (ialloc_from-Kept s.sb.ninodes 1 dev type s u) e
step-Kept s s' (locks i e) u = Ends-ok Kept (ilock (some i) s) s' (ilock-Kept i s u) e
step-Kept s s' (unlocks i e) u = Ends-ok Kept (iunlock (some i) s) s' (iunlock-Kept i s u) e
step-Kept s s' (updates i e) u = Ends-ok Kept (iupdate i s) s' (iupdate-Kept i s u) e
step-Kept s s' (truncates i e) u = Ends-ok Kept (itrunc i s) s' (itrunc-Kept i s u) e
step-Kept s s' (puts i e) u = Ends-ok Kept (iput i s) s' (iput-Kept i s u) e

-- In every state that calls of `iget`, `idup` of an entry in use, `ialloc`, `ilock`, `iunlock`,
-- `iupdate`, `itrunc` and `iput` reach from a cache without an entry in use, no two entries in use
-- are of the same inode.
pub cache-NoTwins : (s : Fs) → CacheRun s → NoTwins s.inodes
cache-NoTwins s (empty s' h) = λ i j ip jp gi gj ri rj d n. absurd (omega (arith, h i ip gi))
cache-NoTwins s (goes {s = before} run step) = step-Kept before s step (cache-NoTwins before run)
