-- ===== src/Fs/Inodes/Cache.antt =====
-- iget, and the entries in use of the cache of inodes.
use nice_system_calls.Common.{
  ℕ, ◌+◌, ◌<◌, ◌≡◌, ◌≢◌, refl, ap, sym, ◌∙◌, List, false, some, arith, ℕ_discrete, length,
  get_elem?, set, get_elem?-set_self, get_elem?-set_ne, get_elem?-lt, lt→ltb, Ends, Returns,
  Returns-Ends, Returns-mono,
}
use nice_system_calls.Fs.{Fs, Inode}
use nice_system_calls.Fs.Inodes.{Slot, cached, recycled, full, find_inode, use_slot, iget}
use nice_system_calls.Fs.Inodes.Slots.{
  NoTwins, FoundSlot, hit, free, used_up, unmet, some_inj, find_inode_view,
}

-- An entry is changed, and no entry in use is of the inode it is then of.
set-NoTwins :
    (ips : List Inode) (k : ℕ) (new : Inode)
    → k < length ips
    → NoTwins ips
    → ((j : ℕ) (jp : Inode)
        → j ≢ k
        → get_elem? ips j ≡ some jp
        → 0 < jp.refs
        → 0 < new.refs
        → new.dev ≡ jp.dev
        → new.inum ≡ jp.inum
        → ⊥)
    → NoTwins (set ips k new)
set-NoTwins ips k new lt u h i j ip jp gi gj ri rj d n = elim (ℕ_discrete i k) [
  | yes ik ↦ elim (ℕ_discrete j k) [
    | yes jk ↦ omega arith
    | no jk ↦
        (let is_new : new ≡ ip = is_new i ip ik gi in
          absurd (h j jp jk (other j jp jk gj) rj (rw is_new ri) (rw is_new d) (rw is_new n)))
  ]
  | no ik ↦ elim (ℕ_discrete j k) [
    | yes jk ↦
        (let is_new : new ≡ jp = is_new j jp jk gj in
          absurd (
            h i ip ik (other i ip ik gi) ri (rw is_new rj) (rw is_new (sym d)) (rw is_new (sym n))))
    | no jk ↦ u i j ip jp (other i ip ik gi) (other j jp jk gj) ri rj d n
  ]
]
  where
    is_new : (j : ℕ) (jp : Inode) → j ≡ k → get_elem? (set ips k new) j ≡ some jp → new ≡ jp
    is_new j jp e g =
        some_inj new jp
          (sym (get_elem?-set_self ips k new lt) ∙ ap (get_elem? (set ips k new)) (sym e) ∙ g)

    other :
        (j : ℕ) (jp : Inode)
        → j ≢ k
        → get_elem? (set ips k new) j ≡ some jp
        → get_elem? ips j ≡ some jp
    other j jp ne g = sym (get_elem?-set_ne ips new (λ e. ne (sym e))) ∙ g

-- Entry `i` is in use, of this inode.
pub record HasRef (dev inum i : ℕ) (s : Fs) : Type 0 where
  pub ip : Inode
  pub at : get_elem? s.inodes i ≡ some ip
  pub dev_eq : ip.dev ≡ dev
  pub inum_eq : ip.inum ≡ inum
  pub used : 0 < ip.refs

-- An entry in use is changed, and stays of the same inode.
pub keep-NoTwins :
    (ips : List Inode) (k : ℕ) (old new : Inode)
    → get_elem? ips k ≡ some old
    → NoTwins ips
    → new.dev ≡ old.dev
    → new.inum ≡ old.inum
    → (0 < new.refs → 0 < old.refs)
    → NoTwins (set ips k new)
keep-NoTwins ips k old new e u d n r =
    set-NoTwins ips k new (get_elem?-lt ips k old e) u
      (λ j jp ne g rj rn dj nj. ne (u j k jp old g e rj (r rn) (sym dj ∙ d) (sym nj ∙ n)))

use_slot_lem :
    (dev inum : ℕ) (s : Fs) (slot : Slot)
    → FoundSlot dev inum s.inodes slot
    → NoTwins s.inodes
    → slot ≢ full
    → Returns (λ r. NoTwins r.1.inodes × HasRef dev inum r.0 r.1) (use_slot dev inum s slot)
unfolding use_slot
use_slot_lem dev inum s (cached k) (hit k' ip e c) u f =
    rw (e, lt→ltb k (length s.inodes) (get_elem?-lt s.inodes k ip e))
      (
        keep-NoTwins s.inodes k ip (record ip { refs = ip.refs + 1 }) e u refl refl
            (λ h. ground (arith, c)),
        record {
          ip = record ip { refs = ip.refs + 1 };
          at =
              get_elem?-set_self s.inodes k (record ip { refs = ip.refs + 1 })
                (get_elem?-lt s.inodes k ip e);
          dev_eq = ground (arith, c);
          inum_eq = ground (arith, c);
          used = omega arith;
        },
      )
use_slot_lem dev inum s (recycled k) (free k' ip e z none_is) u f =
    let new : Inode = record ip { dev = dev; inum = inum; refs = 1; valid = false } in
    rw (e, lt→ltb k (length s.inodes) (get_elem?-lt s.inodes k ip e))
      (
        set-NoTwins s.inodes k new (get_elem?-lt s.inodes k ip e) u
            (λ j jp ne g rj rn dj nj. ground (arith, none_is j jp g)),
        record {
          ip = new;
          at = get_elem?-set_self s.inodes k new (get_elem?-lt s.inodes k ip e);
          dev_eq = refl;
          inum_eq = refl;
          used = omega arith;
        },
      )
use_slot_lem dev inum s full (used_up h) u f = absurd (f refl)

pub slot_at_start :
    (dev inum : ℕ) (ips : List Inode) → FoundSlot dev inum ips (find_inode dev inum ips 0 full)
slot_at_start dev inum ips =
    find_inode_view dev inum ips ips 0 full (λ k. ap (get_elem? ips) (omega arith))
      (λ j jp lt e. absurd (omega arith)) (unmet (λ j jp lt e. absurd (omega arith)))

not_full :
    (dev inum : ℕ) (ips : List Inode) (slot : Slot) (k : ℕ) (ip : Inode)
    → FoundSlot dev inum ips slot
    → get_elem? ips k ≡ some ip
    → ip.refs ≡ 0
    → slot ≢ full
not_full dev inum ips slot k ip (hit j jp g c) e z q = absurd (grind arith)
not_full dev inum ips slot k ip (free j jp g y h) e z q = absurd (grind arith)
not_full dev inum ips slot k ip (used_up h) e z q = h k ip e z

-- On a cache in which no two entries in use are of the same inode, and some entry has no reference,
-- `iget` returns: its entry is in use and of the inode asked for, and again no two entries in use
-- are of the same inode.
pub iget-NoTwins :
    (dev inum k : ℕ) (free_entry : Inode) (s : Fs)
    → NoTwins s.inodes
    → get_elem? s.inodes k ≡ some free_entry
    → free_entry.refs ≡ 0
    → Returns (λ r. NoTwins r.1.inodes × HasRef dev inum r.0 r.1) (iget dev inum s)
unfolding iget
iget-NoTwins dev inum k ip s u e z =
    let view = slot_at_start dev inum s.inodes in
    use_slot_lem dev inum s (find_inode dev inum s.inodes 0 full) view u
      (not_full dev inum s.inodes (find_inode dev inum s.inodes 0 full) k ip view e z)

-- Where the loop finds no entry the routine does not return.
use_slot-NoTwins :
    (dev inum : ℕ) (s : Fs) (slot : Slot)
    → FoundSlot dev inum s.inodes slot
    → NoTwins s.inodes
    → Ends (λ r. NoTwins r.1.inodes) (use_slot dev inum s slot)
unfolding use_slot
use_slot-NoTwins dev inum s (cached k) v u =
    Returns-Ends (λ r. NoTwins r.1.inodes) (use_slot dev inum s (cached k))
      (Returns-mono (λ r. NoTwins r.1.inodes × HasRef dev inum r.0 r.1) (λ r. NoTwins r.1.inodes)
        (use_slot dev inum s (cached k))
        (use_slot_lem dev inum s (cached k) v u (λ e. absurd (grind arith))) (λ r h. h.0))
use_slot-NoTwins dev inum s (recycled k) v u =
    Returns-Ends (λ r. NoTwins r.1.inodes) (use_slot dev inum s (recycled k))
      (Returns-mono (λ r. NoTwins r.1.inodes × HasRef dev inum r.0 r.1) (λ r. NoTwins r.1.inodes)
        (use_slot dev inum s (recycled k))
        (use_slot_lem dev inum s (recycled k) v u (λ e. absurd (grind arith))) (λ r h. h.0))
use_slot-NoTwins dev inum s full v u = tt

pub iget-keeps :
    (dev inum : ℕ) (s : Fs) → NoTwins s.inodes → Ends (λ r. NoTwins r.1.inodes) (iget dev inum s)
unfolding iget
iget-keeps dev inum s u =
    use_slot-NoTwins dev inum s (find_inode dev inum s.inodes 0 full)
      (slot_at_start dev inum s.inodes) u
