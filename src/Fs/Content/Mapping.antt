-- ===== src/Fs/Content/Mapping.antt =====
-- The blocks of a file: what bmap gives where they are there.
use nice_system_calls.Common.{
  ℕ, ◌+◌, ◌-◌, ◌*◌, ◌≤◌, ◌<◌, ◌≡◌, ◌≢◌, refl, subst, arith, ltb, ne→==, lt→ltb, if◌then◌else◌, inl,
  inr, Bool-cases, get_or, ok,
}
use nice_system_calls.Kalloc.{read_word}
use nice_system_calls.Fs.{Fs, Inode, ndirect, nindirect}
use nice_system_calls.Fs.Inodes.{get_inode}
use nice_system_calls.Fs.Content.{map_addr, map_word, bmap}

-- The block of block `bn` of the file, 0 where there is none.
abbrev pub block_of : Inode → Fs → ℕ → ℕ
block_of ip s bn =
    if ltb bn ndirect
    then get_or ip.addrs bn 0
    else read_word (4 * (bn - ndirect)) (s.blocks (get_or ip.addrs ndirect 0))

-- Block `bn` is in the file: neither its number nor that of its indirect block is 0.
pub record Mapped (ip : Inode) (s : Fs) (bn : ℕ) : Type 0 where
  pub range : bn < ndirect + nindirect
  pub own : block_of ip s bn ≢ 0
  pub indirect : ndirect ≤ bn → get_or ip.addrs ndirect 0 ≢ 0

map_addr-there :
    (i k : ℕ) (ip : Inode) (s : Fs)
    → get_inode i s ≡ ok ip
    → get_or ip.addrs k 0 ≢ 0
    → map_addr i k s ≡ ok (get_or ip.addrs k 0, s)
unfolding map_addr
map_addr-there i k ip s g ne = rw (g, ne→== (get_or ip.addrs k 0) 0 ne) refl

map_word-there :
    (b k : ℕ) (s : Fs)
    → read_word (4 * k) (s.blocks b) ≢ 0
    → map_word b k s ≡ ok (read_word (4 * k) (s.blocks b), s)
unfolding map_word
map_word-there b k s ne = rw (ne→== (read_word (4 * k) (s.blocks b)) 0 ne) refl

pub bmap-Mapped :
    (i bn : ℕ) (ip : Inode) (s : Fs)
    → get_inode i s ≡ ok ip
    → Mapped ip s bn
    → bmap i bn s ≡ ok (block_of ip s bn, s)
unfolding bmap
bmap-Mapped i bn ip s g m = elim (Bool-cases (ltb bn ndirect)) [
  | inl l ↦
      (let own : get_or ip.addrs bn 0 ≢ 0 =
          subst
            (λ b. ¬ (
              (if b
                then get_or ip.addrs bn 0
                else read_word (4 * (bn - ndirect)) (s.blocks (get_or ip.addrs ndirect 0)))
              ≡ 0))
            l m.own in
        rw l (map_addr-there i bn ip s g own))
  | inr l ↦
      let own : read_word (4 * (bn - ndirect)) (s.blocks (get_or ip.addrs ndirect 0)) ≢ 0 =
        subst
          (λ b. ¬ (
            (if b
              then get_or ip.addrs bn 0
              else read_word (4 * (bn - ndirect)) (s.blocks (get_or ip.addrs ndirect 0)))
            ≡ 0))
          l m.own in
      rw
        (
          l,
          lt→ltb (bn - ndirect) nindirect (ground (arith, m.range)),
          map_addr-there i ndirect ip s g (m.indirect (ground arith)),
        )
        (map_word-there (get_or ip.addrs ndirect 0) (bn - ndirect) s own)
]
