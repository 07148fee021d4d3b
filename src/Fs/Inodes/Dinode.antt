-- ===== src/Fs/Inodes/Dinode.antt =====
-- The layout of an inode on the disk: iupdate, and the reads of ilock.
use nice_system_calls.Common.{
  ℕ, ◌+◌, ◌^◌, ◌≤◌, ◌<◌, ◌≡◌, ◌≢◌, refl, ap₂, ◌∙◌, sym, List, [], ◌∷◌, true, false, arith, eq→==,
  ne→==, length, ok, Returns,
}
use nice_system_calls.Memory.{Memory}
use nice_system_calls.Kalloc.{read_word, write_word}
use nice_system_calls.Fs.{Fs, Inode, ndirect, iblock}
use nice_system_calls.Fs.Inodes.{
  read_half, write_half, read_words, write_words, read_dinode, write_dinode, dinode_at, read_inode,
  get_inode, iupdate,
}

read_half-write_half : (a w : ℕ) (m : Memory) → w < 2 ^ 16 → read_half a (write_half a w m) ≡ w
unfolding read_half write_half
read_half-write_half a w m h = ground arith

read_word-write_word_lem : (a w : ℕ) (m : Memory) → w < 2 ^ 32 → read_word a (write_word a w m) ≡ w
unfolding read_word write_word
read_word-write_word_lem a w m h = ground arith

write_word_below : (a w x : ℕ) (m : Memory) → x < a → write_word a w m x ≡ m x
unfolding write_word
write_word_below a w x m h = ground arith

write_half_below : (a w x : ℕ) (m : Memory) → x < a → write_half a w m x ≡ m x
unfolding write_half
write_half_below a w x m h = ground arith

write_words_below : (a x : ℕ) (ws : List ℕ) (m : Memory) → x < a → write_words a ws m x ≡ m x
unfolding write_words
write_words_below a x [] m h = refl
write_words_below a x (w ∷ ws) m h =
    write_words_below (a + 4) x ws (write_word a w m) (omega arith) ∙ write_word_below a w x m h

-- A half or a word is that of another memory that agrees with this one below `b`.
read_half_agree :
    (a b : ℕ) (m m' : Memory)
    → ((x : ℕ) → x < b → m x ≡ m' x)
    → a + 2 ≤ b
    → read_half a m ≡ read_half a m'
unfolding read_half
read_half_agree a b m m' h le = rw (h a (omega arith), h (a + 1) (omega arith))

read_word_agree :
    (a b : ℕ) (m m' : Memory)
    → ((x : ℕ) → x < b → m x ≡ m' x)
    → a + 4 ≤ b
    → read_word a m ≡ read_word a m'
unfolding read_word
read_word_agree a b m m' h le =
    rw
      (h a (omega arith), h (a + 1) (omega arith), h (a + 2) (omega arith), h (a + 3) (omega arith))

pub data Words : List ℕ → Type 0 where
  done : Words []
  word : {w : ℕ} {ws : List ℕ} → w < 2 ^ 32 → Words ws → Words (w ∷ ws)

read_words-write_words :
    (a : ℕ) (ws : List ℕ) (m : Memory)
    → Words ws
    → read_words a (length ws) (write_words a ws m) ≡ ws
unfolding read_words write_words
read_words-write_words a [] m h = refl
read_words-write_words a (w ∷ ws) m (word lt h) =
    ap₂ ◌∷◌
      (read_word_agree a (a + 4) (write_words (a + 4) ws (write_word a w m)) (write_word a w m)
          (λ x l. write_words_below (a + 4) x ws (write_word a w m) l) (omega arith)
        ∙ read_word-write_word_lem a w m lt)
      (read_words-write_words (a + 4) ws (write_word a w m) h)

-- What the fields of `struct dinode` can hold.
pub record Fits (ip : Inode) : Type 0 where
  pub type : ip.type < 2 ^ 16
  pub major : ip.major < 2 ^ 16
  pub minor : ip.minor < 2 ^ 16
  pub nlink : ip.nlink < 2 ^ 16
  pub size : ip.size < 2 ^ 32
  pub addrs : Words ip.addrs
  pub count : length ip.addrs ≡ ndirect + 1

-- Each write leaves what lies below it.
module _ (a : ℕ) (ip : Inode) (m : Memory) where
  abbrev half_1 : Memory
  half_1 = write_half a ip.type m

  abbrev half_2 : Memory
  half_2 = write_half (a + 2) ip.major half_1

  abbrev half_3 : Memory
  half_3 = write_half (a + 4) ip.minor half_2

  abbrev half_4 : Memory
  half_4 = write_half (a + 6) ip.nlink half_3

  abbrev with_size : Memory
  with_size = write_word (a + 8) ip.size half_4

  abbrev written : Memory
  written = write_words (a + 12) ip.addrs with_size

  below_12 : (x : ℕ) → x < a + 12 → written x ≡ with_size x
  below_12 x l = write_words_below (a + 12) x ip.addrs with_size l

  below_8 : (x : ℕ) → x < a + 8 → written x ≡ half_4 x
  below_8 x l = below_12 x (omega arith) ∙ write_word_below (a + 8) ip.size x half_4 l

  below_6 : (x : ℕ) → x < a + 6 → written x ≡ half_3 x
  below_6 x l = below_8 x (omega arith) ∙ write_half_below (a + 6) ip.nlink x half_3 l

  below_4 : (x : ℕ) → x < a + 4 → written x ≡ half_2 x
  below_4 x l = below_6 x (omega arith) ∙ write_half_below (a + 4) ip.minor x half_2 l

  below_2 : (x : ℕ) → x < a + 2 → written x ≡ half_1 x
  below_2 x l = below_4 x (omega arith) ∙ write_half_below (a + 2) ip.major x half_1 l

-- The fields of an entry that the disk keeps.
abbrev pub load_fields : Inode → Inode → Inode
load_fields ip old = record old {
  type = ip.type;
  major = ip.major;
  minor = ip.minor;
  nlink = ip.nlink;
  size = ip.size;
  addrs = ip.addrs;
}

pub read_dinode-write_dinode :
    (a : ℕ) (ip old : Inode) (m : Memory)
    → Fits ip
    → read_dinode a (write_dinode a ip m) old ≡ load_fields ip old
unfolding read_dinode write_dinode
read_dinode-write_dinode a ip old m f = rw (
  read_half_agree a (a + 2) (written a ip m) (half_1 a ip m) (below_2 a ip m) (omega arith),
  read_half_agree (a + 2) (a + 4) (written a ip m) (half_2 a ip m) (below_4 a ip m) (omega arith),
  read_half_agree (a + 4) (a + 6) (written a ip m) (half_3 a ip m) (below_6 a ip m) (omega arith),
  read_half_agree (a + 6) (a + 8) (written a ip m) (half_4 a ip m) (below_8 a ip m) (omega arith),
  read_word_agree (a + 8) (a + 12) (written a ip m) (with_size a ip m) (below_12 a ip m)
      (omega arith),
  read_half-write_half a ip.type m f.type,
  read_half-write_half (a + 2) ip.major (half_1 a ip m) f.major,
  read_half-write_half (a + 4) ip.minor (half_2 a ip m) f.minor,
  read_half-write_half (a + 6) ip.nlink (half_3 a ip m) f.nlink,
  read_word-write_word_lem (a + 8) ip.size (half_4 a ip m) f.size,
  sym f.count,
  read_words-write_words (a + 12) ip.addrs (with_size a ip m) f.addrs,
)

-- `iupdate` of an entry whose fields fit the inode of the disk, with a type other than 0, returns,
-- and an entry of the same number that is not valid is then read with the same type, device
-- numbers, links, size and addresses.
pub read_inode-iupdate :
    (i : ℕ) (ip old : Inode) (s : Fs)
    → get_inode i s ≡ ok ip
    → Fits ip
    → ip.type ≢ 0
    → old.valid ≡ false
    → old.inum ≡ ip.inum
    → Returns
        (λ s'. read_inode old s' ≡ ok (record (load_fields ip old) { valid = true }))
        (iupdate i s)
unfolding iupdate read_inode
read_inode-iupdate i ip old s got f typed v n = rw (
  got,
  v,
  n,
  eq→== (iblock ip.inum s.sb) (iblock ip.inum s.sb) refl,
  read_dinode-write_dinode (dinode_at ip.inum) ip (record old { inum = ip.inum; valid = false })
      (s.blocks (iblock ip.inum s.sb)) f,
  ne→== ip.type 0 typed,
)
