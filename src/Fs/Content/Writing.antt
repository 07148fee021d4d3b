-- ===== src/Fs/Content/Writing.antt =====
-- Writes to a part of one block of a file.
use nice_system_calls.Common.{
  ℕ, zero, suc, ◌+◌, ◌-◌, ◌*◌, ◌/◌, ◌%◌, ◌≤◌, ◌<◌, ◌≡◌, ◌≢◌, ℕ_discrete, refl, ap, sym, ◌∙◌, List,
  [], ◌∷◌, ◌++◌, arith, ltb, eq→==, ne→==, inl, inr, Bool-cases, length, get_or, length-append,
}
use nice_system_calls.Memory.{Memory, poke}
use nice_system_calls.Fs.{Fs, Inode, bsize, ndirect, iblock, log_block}
use nice_system_calls.Fs.Content.{write_bytes}
use nice_system_calls.Fs.Content.Mapping.{block_of, Mapped}
use nice_system_calls.Fs.Content.Reading.{byte_of}

-- Below `lim`, `g` is `f` with the values of `xs` from `a` on.
pub record Spliced (lim : ℕ) (f g : ℕ → ℕ) (a : ℕ) (xs : List ℕ) : Type 0 where
  pub inside : (j : ℕ) → j < length xs → g (a + j) ≡ get_or xs j 0
  pub before : (x : ℕ) → x < a → g x ≡ f x
  pub behind : (x : ℕ) → a + length xs ≤ x → x < lim → g x ≡ f x

inside_cons :
    (g : ℕ → ℕ) (a y : ℕ) (ys : List ℕ)
    → g a ≡ y
    → ((j : ℕ) → j < length ys → g (suc a + j) ≡ get_or ys j 0)
    → (j : ℕ) → j < suc (length ys)
    → g (a + j) ≡ get_or (y ∷ ys) j 0
inside_cons g a y ys h k zero l = ap g (omega arith) ∙ h
inside_cons g a y ys h k (suc j) l = ap g (omega arith) ∙ k j (omega arith)

write_bytes-Spliced :
    (lim a : ℕ) (xs : List ℕ) (m : Memory) → Spliced lim m (write_bytes a xs m) a xs
unfolding write_bytes
write_bytes-Spliced lim a [] m = record {
  inside = λ j l. absurd (omega arith);
  before = λ x l. refl;
  behind = λ x l b. refl;
}
write_bytes-Spliced lim a (y ∷ ys) m =
    let rest = write_bytes-Spliced lim (suc a) ys (poke a y m) in
    record {
      inside =
          inside_cons (write_bytes (suc a) ys (poke a y m)) a y ys
            (rest.before a (omega arith) ∙ rw (eq→== a a refl) refl) rest.inside;
      before = λ x l. rest.before x (omega arith) ∙ rw (ne→== x a (λ e. absurd (omega arith))) refl;
      behind =
          λ x l b. rest.behind x (omega arith) b ∙ rw (ne→== x a (λ e. absurd (omega arith))) refl;
    }

get_or-append_left :
    (xs ys : List ℕ) (j : ℕ) → j < length xs → get_or (xs ++ ys) j 0 ≡ get_or xs j 0
get_or-append_left [] ys j l = absurd (omega arith)
get_or-append_left (x ∷ xs) ys zero l = refl
get_or-append_left (x ∷ xs) ys (suc j) l = get_or-append_left xs ys j (omega arith)

get_or-append_right :
    (xs ys : List ℕ) (j : ℕ) → length xs ≤ j → get_or (xs ++ ys) j 0 ≡ get_or ys (j - length xs) 0
get_or-append_right [] ys j l = ap (λ k. get_or ys k 0) (omega arith)
get_or-append_right (x ∷ xs) ys zero l = absurd (omega arith)
get_or-append_right (x ∷ xs) ys (suc j) l =
    get_or-append_right xs ys j (omega arith) ∙ ap (λ k. get_or ys k 0) (omega arith)

-- Two parts, one behind the other.
pub splice_append :
    (lim : ℕ) (f g h : ℕ → ℕ) (a b : ℕ) (xs ys : List ℕ)
    → b ≡ a + length xs
    → b ≤ lim
    → Spliced lim f g a xs
    → Spliced lim g h b ys
    → Spliced lim f h a (xs ++ ys)
splice_append lim f g h a b xs ys e le p q = record {
  inside = λ j l. elim (Bool-cases (ltb j (length xs))) [
    | inl c ↦
        q.before (a + j) (ground (arith, e, c))
        ∙ p.inside j (ground (arith, c))
        ∙ sym (get_or-append_left xs ys j (ground (arith, c)))
    | inr c ↦
        ap h (ground (arith, e, c))
        ∙ q.inside (j - length xs) (ground (arith, c, length-append xs ys))
        ∙ sym (get_or-append_right xs ys j (ground (arith, c)))
  ];
  before = λ x l. q.before x (omega arith) ∙ p.before x l;
  behind = λ x l c.
      q.behind x (omega (arith, length-append xs ys)) c
      ∙ p.behind x (omega (arith, length-append xs ys)) c;
}

-- The first `n` blocks of a file are there, and they are different blocks, none of them the indirect
-- block or the block with the inode.
pub record FileBlocks (ip : Inode) (n : ℕ) (s : Fs) : Type 0 where
  pub mapped : (bn : ℕ) → bn < n → Mapped ip s bn
  pub distinct : (bn bn' : ℕ) → bn < n → bn' < n → block_of ip s bn ≡ block_of ip s bn' → bn ≡ bn'
  pub not_indirect : (bn : ℕ) → bn < n → block_of ip s bn ≢ get_or ip.addrs ndirect 0
  pub not_inode : (bn : ℕ) → bn < n → block_of ip s bn ≢ iblock ip.inum s.sb
  pub apart : get_or ip.addrs ndirect 0 ≢ iblock ip.inum s.sb

-- A write to a block that is not the indirect one leaves the numbers of the blocks.
pub block_of_same :
    (ip : Inode) (b : ℕ) (content : Memory) (s : Fs) (bn : ℕ)
    → b ≢ get_or ip.addrs ndirect 0
    → block_of ip (log_block b content s) bn ≡ block_of ip s bn
block_of_same ip b content s bn ne = rw (ne→== (get_or ip.addrs ndirect 0) b (λ e. ne (sym e))) refl

-- A part of one block is written.
abbrev pub write_part : Inode → ℕ → List ℕ → Fs → Fs
write_part ip off xs s =
    let b = block_of ip s (off / bsize) in log_block b (write_bytes (off % bsize) xs (s.blocks b)) s

module _ (ip : Inode) (n off : ℕ) (xs : List ℕ) (s : Fs) (f : FileBlocks ip n s)
    (here : off / bsize < n) where
  abbrev target : ℕ
  target = block_of ip s (off / bsize)

  same_block : (bn : ℕ) → block_of ip (write_part ip off xs s) bn ≡ block_of ip s bn
  same_block bn =
      block_of_same ip target (write_bytes (off % bsize) xs (s.blocks target)) s bn
        (f.not_indirect (off / bsize) here)

  pub write_part-FileBlocks : FileBlocks ip n (write_part ip off xs s)
  write_part-FileBlocks = record {
    mapped = λ bn l. record {
      range = (f.mapped bn l).range;
      own = λ e. (f.mapped bn l).own (sym (same_block bn) ∙ e);
      indirect = (f.mapped bn l).indirect;
    };
    distinct = λ bn bn' l l' e. f.distinct bn bn' l l' (sym (same_block bn) ∙ e ∙ same_block bn');
    not_indirect = λ bn l e. f.not_indirect bn l (sym (same_block bn) ∙ e);
    not_inode = λ bn l e. f.not_inode bn l (sym (same_block bn) ∙ e);
    apart = f.apart;
  }

  -- A byte of another block, and one of this block.
  byte_elsewhere :
      (k : ℕ)
      → k / bsize < n
      → k / bsize ≢ off / bsize
      → byte_of ip (write_part ip off xs s) k ≡ byte_of ip s k
  byte_elsewhere k l ne =
      let other : block_of ip s (k / bsize) ≢ target =
        λ e. ne (f.distinct (k / bsize) (off / bsize) l here e) in
      ap (λ b. (write_part ip off xs s).blocks b (k % bsize)) (same_block (k / bsize))
      ∙ rw (ne→== (block_of ip s (k / bsize)) target other) refl

  byte_here :
      (k : ℕ)
      → k / bsize ≡ off / bsize
      → byte_of ip (write_part ip off xs s) k
        ≡ write_bytes (off % bsize) xs (s.blocks target) (k % bsize)
  byte_here k e =
      ap (λ b. (write_part ip off xs s).blocks b (k % bsize))
        (same_block (k / bsize) ∙ ap (block_of ip s) e)
      ∙ rw (eq→== target target refl) refl

  pub write_part-Spliced :
      off % bsize + length xs ≤ bsize
      → Spliced (n * bsize) (byte_of ip s) (byte_of ip (write_part ip off xs s)) off xs
  write_part-Spliced le =
      let w = write_bytes-Spliced bsize (off % bsize) xs (s.blocks target) in
      record {
        inside = λ j l.
            byte_here (off + j) (omega arith)
            ∙ ap (write_bytes (off % bsize) xs (s.blocks target)) (omega arith)
            ∙ w.inside j l;
        before = λ x l. elim (ℕ_discrete (x / bsize) (off / bsize)) [
          | yes e ↦
              byte_here x e
              ∙ w.before (x % bsize) (omega arith)
              ∙ ap (λ b. s.blocks (block_of ip s b) (x % bsize)) (sym e)
          | no ne ↦ byte_elsewhere x (omega arith) ne
        ];
        behind = λ x l c. elim (ℕ_discrete (x / bsize) (off / bsize)) [
          | yes e ↦
              byte_here x e
              ∙ w.behind (x % bsize) (omega arith) (omega arith)
              ∙ ap (λ b. s.blocks (block_of ip s b) (x % bsize)) (sym e)
          | no ne ↦ byte_elsewhere x (omega arith) ne
        ];
      }
