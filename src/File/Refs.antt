-- ===== src/File/Refs.antt =====
-- The reference counts of the table of open files.
use nice_system_calls.Common.{
  ℕ, zero, suc, ◌+◌, ◌-◌, ◌≤◌, ◌<◌, ◌≡◌, refl, ap, subst, ◌∙◌, ◌≢◌, ◌⊎◌, inl, inr, true, false,
  List, [], ◌∷◌, Option, none, some, arith, ltb, ◌==◌, ==_iff, if◌then◌else◌, Bool-cases,
  Option-cases, length, get_or, set, get_or-set, length-set, ◌>>=◌, load-ok, store-ok, Returns,
}
use nice_system_calls.File.{
  File, fd_none, find_free, filealloc, filedup, fileclose, Closing, keeps_open,
}

abbrev pub no_file : File
no_file = record {
  type = fd_none;
  refs = 0;
  readable = false;
  writable = false;
  pipe = 0;
  ip = 0;
  off = 0;
}

abbrev pub file_at : List File → ℕ → File
file_at fs i = get_or fs i no_file

find_free_lem :
    (fs : List File) (i k : ℕ)
    → find_free fs i ≡ some k
    → (j : ℕ) × (k ≡ i + j)
      × (j < length fs)
      × ((file_at fs j).refs ≡ 0)
      × ((n : ℕ) → n < j → (file_at fs n).refs ≢ 0)
unfolding find_free
find_free_lem [] i k e = absurd (ground arith)
find_free_lem (f ∷ fs) i k e = elim (Bool-cases (f.refs == 0)) [
  | inl free ↦ (0, ground arith, omega arith, ground arith, λ n h. absurd (omega arith))
  | inr used ↦
      let (j, a, b, c, d) = find_free_lem fs (suc i) k (ground arith) in
      (suc j, omega arith, omega arith, c, earlier j d used)
]
  where
    earlier :
        (j : ℕ)
        → ((n : ℕ) → n < j → (file_at fs n).refs ≢ 0)
        → (f.refs == 0) ≡ false
        → (n : ℕ) → n < suc j
        → (file_at (f ∷ fs) n).refs ≢ 0
    earlier j d used zero h = ground arith
    earlier j d used (suc n) h = d n (omega arith)

none_free_lem :
    (fs : List File) (i : ℕ)
    → find_free fs i ≡ none
    → (n : ℕ) → n < length fs
    → (file_at fs n).refs ≢ 0
unfolding find_free
none_free_lem [] i e n h = absurd (omega arith)
none_free_lem (f ∷ fs) i e zero h = ground arith
none_free_lem (f ∷ fs) i e (suc n) h = none_free_lem fs (suc i) (ground arith) n (omega arith)

-- `filealloc` gives no entry and changes nothing where every entry has a reference; otherwise it
-- gives an entry without one, which now has one, and changes nothing else.
pub filealloc_lem :
    (fs : List File)
    → Returns
        (λ (r : Option ℕ × List File).
          ((r.0 ≡ none) × (r.1 ≡ fs) × ((n : ℕ) → n < length fs → (file_at fs n).refs ≢ 0))
          ⊎ ((i : ℕ) × (r.0 ≡ some i)
              × (i < length fs)
              × ((file_at fs i).refs ≡ 0)
              × ((j : ℕ)
                  → file_at r.1 j
                    ≡ (if i == j then record (file_at fs i) { refs = 1 } else file_at fs j))))
        (filealloc fs)
unfolding filealloc
filealloc_lem fs = elim (Option-cases (find_free fs 0)) [
  | inl e ↦ rw (e, filealloc) (inl (refl, refl, none_free_lem fs 0 e))
  | inr (i, e) ↦
      let (j, a, b, c, d) = find_free_lem fs 0 i e in
      let h : i < length fs = omega arith in
      let same : j ≡ i = omega arith in
      rw
        (e, filealloc, load-ok fs i no_file h, store-ok fs i (record (file_at fs i) { refs = 1 }) h)
        (inr (
          i,
          refl,
          h,
          subst (λ n. (file_at fs n).refs ≡ 0) same c,
          λ n. get_or-set fs i n (record (file_at fs i) { refs = 1 }) no_file h,
        ))
]

-- `fileclose` after `filedup` of an open entry of the table closes nothing and brings every entry
-- back.
pub fileclose-filedup :
    (fs : List File) (i : ℕ)
    → i < length fs
    → 1 ≤ (file_at fs i).refs
    → Returns
        (λ (r : Closing × List File). (r.0 ≡ keeps_open) × ((j : ℕ) → file_at r.1 j ≡ file_at fs j))
        (filedup i fs >>= fileclose i)
unfolding filedup fileclose
fileclose-filedup fs i h live =
    let f = file_at fs i in
    let g : File = record f { refs = f.refs + 1 } in
    let up : List File = set fs i g in
    let lives : ltb f.refs 1 ≡ false = ground arith in
    let more : ltb (f.refs + 1) 1 ≡ false = ground arith in
    let shared : ltb 0 (f.refs + 1 - 1) ≡ true = ground arith in
    let there : i < length up = omega (arith, length-set fs i g) in
    let found : file_at up i ≡ g = get_or-set fs i i g no_file h ∙ ground arith in
    let back : File = record g { refs = f.refs + 1 - 1 } in
    let same : back ≡ f = ap (λ n. record f { refs = n }) (omega arith) in
    rw
      (
        load-ok fs i no_file h,
        lives,
        store-ok fs i g h,
        load-ok up i no_file there,
        found,
        more,
        shared,
        store-ok up i back there,
      )
      (
        refl,
        λ j. get_or-set up i j back no_file there ∙ elim (Bool-cases (i == j)) [
          | inl e ↦ rw e (same ∙ ap (λ n. file_at fs n) ((==_iff i j).0 e))
          | inr e ↦ rw e (get_or-set fs i j g no_file h ∙ rw e refl)
        ],
      )
