-- ===== src/Fs/Content/RoundTrip.antt =====
-- writei as a whole, and readi behind it.
use Prim.Native.Nat.{min}
use nice_system_calls.Common.{
  ℕ, suc, ◌+◌, ◌-◌, ◌*◌, ◌/◌, ◌%◌, ◌^◌, ◌≤◌, ◌<◌, ◌≡◌, ◌≢◌, refl, ap, ap₂, sym, ◌∙◌, List, [], ◌∷◌,
  false, ◌||◌, ◌&&◌, some, arith, ltb, ne→==, lt→ltb, inl, inr, Bool-cases, length, get_or, set,
  get_elem?-lt, load→get, get_elem?-set_self, window, ok, load, ◌>>=◌, Returns, Returns-bind,
}
use nice_system_calls.Fs.{Fs, Inode, bsize, iblock, t_dev, maxfile, log_block}
use nice_system_calls.Fs.Inodes.{get_inode, iupdate}
use nice_system_calls.Fs.Content.{write_content, grow, readi, writei, Devsw}
use nice_system_calls.Fs.Content.Mapping.{block_of}
use nice_system_calls.Fs.Content.Reading.{byte_of, readi_lem}
use nice_system_calls.Memory.{Memory}
use nice_system_calls.Fs.Content.Writing.{Spliced, block_of_same, FileBlocks}
use nice_system_calls.Fs.Content.WriteLoop.{Wrote, write_content_lem, grown}

-- The file behind a change elsewhere: its entry, its blocks and its bytes.
record SameFile (i n : ℕ) (ip new : Inode) (s s' : Fs) : Type 0 where
  entry : get_inode i s' ≡ ok new
  blocks : FileBlocks new n s'
  bytes : (k : ℕ) → k / bsize < n → byte_of new s' k ≡ byte_of ip s k

-- The size of the entry is set.
abbrev resized : Inode → ℕ → Inode
resized ip size = record ip { size = size }

abbrev resize : ℕ → Inode → ℕ → Fs → Fs
resize i ip size s = record s { inodes = set s.inodes i (resized ip size) }

resize-FileBlocks :
    (i n size : ℕ) (ip : Inode) (s : Fs)
    → FileBlocks ip n s
    → FileBlocks (resized ip size) n (resize i ip size s)
resize-FileBlocks i n size ip s f = record {
  mapped = λ bn l. record {
    range = (f.mapped bn l).range;
    own = (f.mapped bn l).own;
    indirect = (f.mapped bn l).indirect;
  };
  distinct = f.distinct;
  not_indirect = f.not_indirect;
  not_inode = f.not_inode;
  apart = f.apart;
}

-- The block with the inode is written.
module _ (ip : Inode) (n : ℕ) (content : Memory) (s : Fs) (f : FileBlocks ip n s) where
  abbrev with_inode : Fs
  with_inode = log_block (iblock ip.inum s.sb) content s

  same_block : (bn : ℕ) → block_of ip with_inode bn ≡ block_of ip s bn
  same_block bn = block_of_same ip (iblock ip.inum s.sb) content s bn (λ e. f.apart (sym e))

  with_inode-FileBlocks : FileBlocks ip n with_inode
  with_inode-FileBlocks = record {
    mapped = λ bn l. record {
      range = (f.mapped bn l).range;
      own = λ e. (f.mapped bn l).own (sym (same_block bn) ∙ e);
      indirect = (f.mapped bn l).indirect;
    };
    distinct = λ bn bn' l l' e. f.distinct bn bn' l l' (sym (same_block bn) ∙ e ∙ same_block bn');
    not_indirect = λ bn l e. f.not_indirect bn l (sym (same_block bn) ∙ e);
    not_inode = λ bn l e. f.not_inode bn l (sym (same_block bn) ∙ e);
    apart = f.apart;
  }

  with_inode-bytes : (k : ℕ) → k / bsize < n → byte_of ip with_inode k ≡ byte_of ip s k
  with_inode-bytes k l =
      ap (λ b. with_inode.blocks b (k % bsize)) (same_block (k / bsize))
      ∙ rw (ne→== (block_of ip s (k / bsize)) (iblock ip.inum s.sb) (f.not_inode (k / bsize) l))
          refl

grow_lem :
    (i off len n : ℕ) (ip : Inode) (s : Fs)
    → get_inode i s ≡ ok ip
    → FileBlocks ip n s
    → Returns (SameFile i n ip (grown ip off len) s) (grow i off len s)
unfolding grow iupdate
grow_lem i off len n ip s g f = elim (Bool-cases (ltb 0 len && ltb ip.size off)) [
  | inr c ↦ rw (g, c) (record { entry = g; blocks = f; bytes = λ k l. refl })
  | inl c ↦
      let lt = get_elem?-lt s.inodes i ip (load→get s.inodes i ip g) in
      let entry = get_elem?-set_self s.inodes i (resized ip off) lt in
      let f' = resize-FileBlocks i n off ip s f in
      rw (g, c, lt→ltb i (length s.inodes) lt, entry)
        (record {
          entry = rw entry refl;
          blocks = with_inode-FileBlocks (resized ip off) n _ (resize i ip off s) f';
          bytes = with_inode-bytes (resized ip off) n _ (resize i ip off s) f';
        })
]

-- The file behind `writei`.
pub record Stored (i n off : ℕ) (src : List ℕ) (ip new : Inode) (s s' : Fs) : Type 0 where
  pub entry : get_inode i s' ≡ ok new
  pub blocks : FileBlocks new n s'
  pub bytes : Spliced (n * bsize) (byte_of ip s) (byte_of new s') off src

stored :
    (i n off : ℕ) (src : List ℕ) (ip new : Inode) (s s1 s2 : Fs)
    → off + length src ≤ n * bsize
    → Wrote ip n off src s s1
    → SameFile i n ip new s1 s2
    → Stored i n off src ip new s s2
stored i n off src ip new s s1 s2 le w f = record {
  entry = f.entry;
  blocks = f.blocks;
  bytes = record {
    inside = λ j l. f.bytes (off + j) (omega arith) ∙ w.bytes.inside j l;
    before = λ x l. f.bytes x (omega arith) ∙ w.bytes.before x l;
    behind = λ x l c. f.bytes x (omega arith) ∙ w.bytes.behind x l c;
  };
}

-- What `writei` leaves, for a file whose blocks are there.
pub writei_lem :
    (devsw : Devsw) (i n off : ℕ) (src : List ℕ) (ip : Inode) (s : Fs)
    → get_inode i s ≡ ok ip
    → ip.type ≢ t_dev
    → FileBlocks ip n s
    → n ≤ maxfile
    → off ≤ ip.size
    → off + length src ≤ n * bsize
    → Returns
        (λ r.
          (r.0 ≡ some (length src))
          × Stored i n off src ip (grown ip (off + length src) (length src)) s r.1)
        (writei devsw i src off s)
unfolding writei
writei_lem devsw i n off src ip s g ty f small at le =
    let tests : (ltb ip.size off
          || ltb ((off + length src) % 2 ^ 32) off
          || ltb (maxfile * bsize) (off + length src))
        ≡ false =
      ground arith in
    rw (g, ne→== ip.type t_dev ty, tests)
      (Returns-bind (Wrote ip n off src s) _ (write_content (length src + 1) i off src s) _
        (write_content_lem (length src + 1) i n off src ip s g f (omega arith) le)
        (λ s1 w.
          Returns-bind (SameFile i n ip (grown ip (off + length src) (length src)) s1) _
            (grow i (off + length src) (length src) s1) _
            (grow_lem i (off + length src) (length src) n ip s1 (ap (λ is. load is i) w.inodes ∙ g)
              w.blocks)
            (λ s2 h. (
              refl,
              stored i n off src ip (grown ip (off + length src) (length src)) s s1 s2 le w h,
            ))))

window_of :
    (f : ℕ → ℕ) (a : ℕ) (xs : List ℕ)
    → ((j : ℕ) → j < length xs → f (a + j) ≡ get_or xs j 0)
    → window f a (length xs) ≡ xs
window_of f a [] h = refl
window_of f a (x ∷ xs) h =
    ap₂ ◌∷◌ (ap f (omega arith) ∙ h 0 (omega arith))
      (window_of f (suc a) xs (λ j l. ap f (omega arith) ∙ h (suc j) (omega arith)))

-- `writei` and then `readi` of as many bytes at the same offset return, and give the bytes that
-- were written. This holds for an inode that is not a device, for an offset up to its size, and an
-- end within its blocks, where these are at most 140, are all there and different, and differ from
-- the indirect block and the block with the inode, which differ too.
pub readi-writei :
    (devsw : Devsw) (i n off : ℕ) (src : List ℕ) (ip : Inode) (s : Fs)
    → get_inode i s ≡ ok ip
    → ip.type ≢ t_dev
    → FileBlocks ip n s
    → n ≤ maxfile
    → off ≤ ip.size
    → ip.size ≤ n * bsize
    → off + length src ≤ n * bsize
    → Returns
        (λ r. r.0 ≡ some src)
        (writei devsw i src off s >>= λ w. readi devsw i off (length src) w.1)
readi-writei devsw i n off src ip s g ty f small at size le =
    Returns-bind _ _ (writei devsw i src off s) (λ w. readi devsw i off (length src) w.1)
      (writei_lem devsw i n off src ip s g ty f small at le) (λ w h. read_back w.1 h.1)
  where
    new : Inode
    new = grown ip (off + length src) (length src)

    read_back :
        (s' : Fs)
        → Stored i n off src ip new s s'
        → Returns (λ r. r.0 ≡ some src) (readi devsw i off (length src) s')
    read_back s' h =
        let inside : ltb new.size off ≡ false = ground arith in
        let count : min (length src) (new.size - off) ≡ length src = ground arith in
        rw
          (
            readi_lem devsw i off (length src) new s' h.entry ty
                (λ k l. h.blocks.mapped (k / bsize) (ground arith)) (omega arith),
            inside,
            count,
          )
          (ap some (window_of (byte_of new s') off src h.bytes.inside))
