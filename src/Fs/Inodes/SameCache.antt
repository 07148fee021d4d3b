-- ===== src/Fs/Inodes/SameCache.antt =====
-- Routines that leave the cache of inodes as it is.
use nice_system_calls.Common.{
  ℕ, zero, suc, ◌*◌, ◌/◌, ◌%◌, ◌<◌, ◌≡◌, refl, sym, subst, List, [], ◌∷◌, ◌==◌, if◌then◌else◌, inl,
  inr, Bool-cases, length, get_elem?-lt, load→get, lt→ltb, Outcome, ok, ◌>>=◌, Ends, Ends-bind,
  Ends-mono, load-cases,
}
use nice_system_calls.Kalloc.{read_word}
use nice_system_calls.Fs.{Fs, Inode, nindirect, bblock, bpb, readsb}
use nice_system_calls.Fs.Bits.{bit}
use nice_system_calls.Fs.Alloc.{bfree}
use nice_system_calls.Fs.Inodes.{
  iupdate, bfree_used, free_direct, free_indirect, get_inode, put_inode,
}
use nice_system_calls.Fs.Inodes.Slots.{NoTwins}
use nice_system_calls.Fs.Inodes.Cache.{keep-NoTwins}

abbrev pub Kept : Fs → Type 0
Kept s = NoTwins s.inodes

pub put_lem :
    (i : ℕ) (old new : Inode) (s : Fs)
    → get_inode i s ≡ ok old
    → Kept s
    → new.dev ≡ old.dev
    → new.inum ≡ old.inum
    → (0 < new.refs → 0 < old.refs)
    → Ends Kept (put_inode i new s)
put_lem i old new s g u d n r =
    let at = load→get s.inodes i old g in
    rw (lt→ltb i (length s.inodes) (get_elem?-lt s.inodes i old at))
      (keep-NoTwins s.inodes i old new at u d n r)

-- These leave the cache as it is.
abbrev SameCache : Fs → Fs → Type 0
SameCache s s' = s'.inodes ≡ s.inodes

bfree-keeps : (b : ℕ) (s : Fs) → Ends (SameCache s) (bfree b s)
unfolding bfree
bfree-keeps b s =
    elim (Bool-cases (bit (s.blocks (bblock b (readsb s)) (b % bpb / 8)) (b % bpb % 8) == 0)) [
      | inl z ↦ rw z tt
      | inr z ↦ rw z refl
    ]

bfree-SameCache : (b : ℕ) (s : Fs) → Ends (SameCache s) (bfree_used b s)
unfolding bfree_used
bfree-SameCache b s = elim (Bool-cases (b == 0)) [
  | inl z ↦ rw z refl
  | inr z ↦ rw z (bfree-keeps b s)
]

pub free_direct-SameCache : (bs : List ℕ) (s : Fs) → Ends (SameCache s) (free_direct bs s)
unfolding free_direct
free_direct-SameCache [] s = refl
free_direct-SameCache (b ∷ bs) s =
    Ends-bind (SameCache s) (SameCache s) (bfree_used b s) (free_direct bs) (bfree-SameCache b s)
      (λ s' e.
        subst (λ is. Ends (λ t. t.inodes ≡ is) (free_direct bs s')) e (free_direct-SameCache bs s'))

free_indirect-SameCache : (n b j : ℕ) (s : Fs) → Ends (SameCache s) (free_indirect n b j s)
unfolding free_indirect
free_indirect-SameCache zero b j s = refl
free_indirect-SameCache (suc n) b j s =
    Ends-bind (SameCache s) (SameCache s) (bfree_used (read_word (4 * j) (s.blocks b)) s)
      (free_indirect n b (suc j)) (bfree-SameCache (read_word (4 * j) (s.blocks b)) s)
      (λ s' e.
        subst (λ is. Ends (λ t. t.inodes ≡ is) (free_indirect n b (suc j) s')) e
          (free_indirect-SameCache n b (suc j) s'))

iupdate-SameCache : (i : ℕ) (s : Fs) → Ends (SameCache s) (iupdate i s)
unfolding iupdate
iupdate-SameCache i s = elim (load-cases s.inodes i) [ inl e ↦ rw e tt | inr (ip, e) ↦ rw e refl ]

-- A chain whose first part leaves the cache as it is.
pub after_same :
    {A : Type 0} (Q : A → Type 0) (s : Fs) (m : Outcome Fs) (f : Fs → Outcome A)
    → Ends (SameCache s) m
    → ((s' : Fs) → SameCache s s' → Ends Q (f s'))
    → Ends Q (m >>= f)
after_same Q s m f h k = Ends-bind (SameCache s) Q m f h k

pub blocks-SameCache :
    (b : ℕ) (s : Fs)
    → Ends (SameCache s) (if b == 0 then ok s else (free_indirect nindirect b 0 s >>= bfree b))
blocks-SameCache b s = elim (Bool-cases (b == 0)) [
  | inl z ↦ rw z refl
  | inr z ↦ rw z (
      after_same (SameCache s) s (free_indirect nindirect b 0 s) (bfree b)
        (free_indirect-SameCache nindirect b 0 s)
        (λ s' e. subst (λ is. Ends (λ t. t.inodes ≡ is) (bfree b s')) e (bfree-keeps b s')))
]

pub iupdate-Kept : (i : ℕ) (s : Fs) → Kept s → Ends Kept (iupdate i s)
iupdate-Kept i s u =
    Ends-mono (SameCache s) Kept (iupdate i s) (iupdate-SameCache i s)
      (λ s' e. subst NoTwins (sym e) u)
