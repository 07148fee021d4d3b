-- ===== src/Fs/Content/WriteLoop.antt =====
-- The loop of writei: the bytes that it puts into the blocks of a file.
use nice_system_calls.Common.{
  ℕ, zero, suc, ◌+◌, ◌*◌, ◌/◌, ◌%◌, ◌≤◌, ◌<◌, ◌≡◌, ℕ_discrete, refl, subst, List, ◌&&◌, arith, ltb,
  ne→==, if◌then◌else◌, length, take, drop, length-drop, length-take, take-append-drop, ok, Returns,
  Returns-mono,
}
use nice_system_calls.Fs.{Fs, Inode, bsize}
use nice_system_calls.Fs.Inodes.{get_inode}
use nice_system_calls.Fs.Content.{part_of_block, write_content}
use nice_system_calls.Fs.Content.Mapping.{bmap-Mapped}
use nice_system_calls.Fs.Content.Reading.{byte_of, part_of_block_lem}
use nice_system_calls.Fs.Content.Writing.{
  Spliced, FileBlocks, splice_append, write_part, write_part-FileBlocks, write_part-Spliced,
}

-- The bytes are in the file, and else nothing of it has changed.
pub record Wrote (ip : Inode) (n off : ℕ) (src : List ℕ) (s s' : Fs) : Type 0 where
  pub inodes : s'.inodes ≡ s.inodes
  pub sb : s'.sb ≡ s.sb
  pub blocks : FileBlocks ip n s'
  pub bytes : Spliced (n * bsize) (byte_of ip s) (byte_of ip s') off src

Wrote-step :
    (ip : Inode) (n off m : ℕ) (src : List ℕ) (s s' : Fs)
    → m ≤ length src
    → FileBlocks ip n s
    → off / bsize < n
    → off % bsize + m ≤ bsize
    → off + length src ≤ n * bsize
    → Wrote ip n (off + m) (drop m src) (write_part ip off (take m src) s) s'
    → Wrote ip n off src s s'
Wrote-step ip n off m src s s' le f here fits end w =
    let taken : length (take m src) ≡ m = omega (arith, length-take m src) in
    record {
      inodes = w.inodes;
      sb = w.sb;
      blocks = w.blocks;
      bytes =
          subst (Spliced (n * bsize) (byte_of ip s) (byte_of ip s') off) (take-append-drop m src) (
            splice_append (n * bsize) (byte_of ip s) (byte_of ip (write_part ip off (take m src) s))
              (byte_of ip s') off (off + m) (take m src) (drop m src) (omega (arith, taken))
              (omega arith)
              (write_part-Spliced ip n off (take m src) s f here (omega (arith, taken))) w.bytes);
    }

pub write_content_lem :
    (fuel i n off : ℕ) (src : List ℕ) (ip : Inode) (s : Fs)
    → get_inode i s ≡ ok ip
    → FileBlocks ip n s
    → length src < fuel
    → off + length src ≤ n * bsize
    → Returns (Wrote ip n off src s) (write_content fuel i off src s)
unfolding write_content
write_content_lem zero i n off src ip s g f lt le = absurd (omega arith)
write_content_lem (suc fuel) i n off src ip s g f lt le = elim (ℕ_discrete (length src) 0) [
  | yes e ↦ rw e (record {
    inodes = refl;
    sb = refl;
    blocks = f;
    bytes = record {
      inside = λ j l. absurd (omega (arith, e));
      before = λ x l. refl;
      behind = λ x l b. refl;
    };
  })
  | no ne ↦
      let facts = part_of_block_lem off (length src) ne in
      let here : off / bsize < n = omega arith in
      rw (ne→== (length src) 0 ne, bmap-Mapped i (off / bsize) ip s g (f.mapped (off / bsize) here))
        (Returns-mono
          (Wrote ip n (off + part_of_block off (length src))
            (drop (part_of_block off (length src)) src)
            (write_part ip off (take (part_of_block off (length src)) src) s))
          (Wrote ip n off src s)
          (write_content fuel i (off + part_of_block off (length src))
            (drop (part_of_block off (length src)) src)
            (write_part ip off (take (part_of_block off (length src)) src) s))
          (write_content_lem fuel i n (off + part_of_block off (length src))
            (drop (part_of_block off (length src)) src) ip
            (write_part ip off (take (part_of_block off (length src)) src) s) g
            (write_part-FileBlocks ip n off (take (part_of_block off (length src)) src) s f here)
            (omega (arith, length-drop (part_of_block off (length src)) src, facts.0))
            (omega (arith, length-drop (part_of_block off (length src)) src, facts.1)))
          (λ s' w.
            Wrote-step ip n off (part_of_block off (length src)) src s s' facts.1 f here facts.2 le
              w))
]

-- The inode behind the write: it has grown where the end lies behind its size.
abbrev pub grown : Inode → ℕ → ℕ → Inode
grown ip off n = record ip { size = if ltb 0 n && ltb ip.size off then off else ip.size }
