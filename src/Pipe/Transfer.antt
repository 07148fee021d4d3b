-- ===== src/Pipe/Transfer.antt =====
-- The loops of `pipewrite` and `piperead` move bytes through the queue that the ring holds.
use nice_system_calls.Common.{
  ℕ, zero, suc, ◌+◌, ◌<◌, ◌≡◌, refl, sym, ap, subst, ◌∙◌, ◌≢◌, ◌⊎◌, inl, inr, Bool, true, false,
  not, ◌&&◌, ◌||◌, List, [], ◌∷◌, ◌++◌, arith, ◌==◌, if◌then◌else◌, Bool-cases, length, take, drop,
  Returns, Returns-mono, Returns-bind,
}
use nice_system_calls.Common.Int.{pos, negsuc}
use nice_system_calls.Pipe.{
  Pipe, PipeEnd, returns, sleeps, ReadEnd, failed, read, read_sleeps, Channel, at_nread, at_nwrite,
  pipesize, is_full, pipewrite, read_bytes, piperead,
}
use nice_system_calls.Pipe.Ring.{
  Holds, put_byte_lem, get_byte_lem, full-length, free-length, is_empty_iff,
}

-- A writer with the bytes `cs` left at index `i` has put `n` of them into a pipe that held `bytes`.
pub record Wrote (killed : Bool) (cs : List ℕ) (i : ℕ) (p : Pipe) (bytes : List ℕ)
    (r : PipeEnd × Pipe × List Channel) : Type 0 where
  pub n : ℕ
  pub holds : Holds r.1 (bytes ++ take n cs)
  pub reply :
      ((n ≡ length cs) × (r.0 ≡ returns (pos (i + n))) × (r.2 ≡ at_nread ∷ []))
      ⊎ ((n < length cs)
          × (length (bytes ++ take n cs) ≡ pipesize)
          × (((not p.readopen || killed) ≡ true) × (r.0 ≡ returns (negsuc 0))
              ⊎ ((not p.readopen || killed) ≡ false)
                × (r.0 ≡ sleeps at_nwrite (i + n))
                × (r.2 ≡ at_nread ∷ [])))

append-nil : (bs : List ℕ) → bs ++ [] ≡ bs
append-nil [] = refl
append-nil (b ∷ bs) = ap (λ (l : List ℕ). b ∷ l) (append-nil bs)

append-cons : (bs : List ℕ) (c : ℕ) (cs : List ℕ) → (bs ++ c ∷ []) ++ cs ≡ bs ++ c ∷ cs
append-cons [] c cs = refl
append-cons (b ∷ bs) c cs = ap (λ (l : List ℕ). b ∷ l) (append-cons bs c cs)

one_more :
    (killed : Bool) (c : ℕ) (cs : List ℕ) (i : ℕ) (p p1 : Pipe) (bytes : List ℕ)
    → p1.readopen ≡ p.readopen
    → (r : PipeEnd × Pipe × List Channel) → Wrote killed cs (suc i) p1 (bytes ++ c ∷ []) r
    → Wrote killed (c ∷ cs) i p bytes r
one_more killed c cs i p p1 bytes same r w = record {
  n = suc w.n;
  holds = subst (Holds r.1) (append-cons bytes c (take w.n cs)) w.holds;
  reply = elim w.reply [
    | inl (a, b, d) ↦ inl (omega arith, b ∙ ap (λ k. returns (pos k)) shifted, d)
    | inr (a, b, inl (d, e)) ↦ inr (omega arith, filled b, inl (closed d, e))
    | inr (a, b, inr (d, e, f)) ↦
        inr (omega arith, filled b, inr (closed d, e ∙ ap (λ k. sleeps at_nwrite k) shifted, f))
  ];
}
  where
    shifted : suc i + w.n ≡ i + suc w.n
    shifted = omega arith

    filled :
        length ((bytes ++ c ∷ []) ++ take w.n cs) ≡ pipesize
        → length (bytes ++ c ∷ take w.n cs) ≡ pipesize
    filled b = ap length (sym (append-cons bytes c (take w.n cs))) ∙ b

    closed : {b : Bool} → (not p1.readopen || killed) ≡ b → (not p.readopen || killed) ≡ b
    closed e = ap (λ o. not o || killed) (sym same) ∙ e

-- `pipewrite` on a pipe that holds a queue of bytes returns or sleeps, and has put a first part of
-- its bytes at the end of that queue: all of them, and it returns their number counted from the
-- start of the loop and wakes the readers; or so many that the pipe is full, and then it returns -1
-- if the read end is closed or the caller is killed, and otherwise wakes the readers and sleeps
-- with the index of the next byte.
pub pipewrite_lem :
    (killed : Bool) (cs : List ℕ) (i : ℕ) (p : Pipe) (bytes : List ℕ)
    → Holds p bytes
    → Returns (Wrote killed cs i p bytes) (pipewrite killed cs i p)
unfolding pipewrite
pipewrite_lem killed [] i p bytes h = record {
  n = 0;
  holds = subst (Holds p) (sym (append-nil bytes)) h;
  reply = inl (refl, ap (λ k. returns (pos k)) (omega arith), refl);
}
pipewrite_lem killed (c ∷ cs) i p bytes h = elim (Bool-cases (is_full p)) [
  | inl full ↦ rw full (elim (Bool-cases (not p.readopen || killed)) [
    | inl stop ↦ rw stop (record {
      n = 0;
      holds = subst (Holds p) (sym (append-nil bytes)) h;
      reply = inr (
        omega arith,
        ap length (append-nil bytes) ∙ full-length p bytes h full,
        inl (stop, refl),
      );
    })
    | inr wait ↦ rw wait (record {
      n = 0;
      holds = subst (Holds p) (sym (append-nil bytes)) h;
      reply = inr (
        omega arith,
        ap length (append-nil bytes) ∙ full-length p bytes h full,
        inr (wait, ap (λ k. sleeps at_nwrite k) (omega arith), refl),
      );
    })
  ])
  | inr room ↦
      let (p1, run, same, h1) = put_byte_lem p bytes c h (free-length p bytes h room) in
      rw (room, run)
        (Returns-mono _ _ (pipewrite killed cs (suc i) p1)
          (pipewrite_lem killed cs (suc i) p1 (bytes ++ c ∷ []) h1)
          (λ r w. one_more killed c cs i p p1 bytes same r w))
]

pub read_bytes_lem :
    (n : ℕ) (p : Pipe) (bytes : List ℕ)
    → Holds p bytes
    → Returns
        (λ (r : List ℕ × Pipe). (r.0 ≡ take n bytes) × Holds r.1 (drop n bytes))
        (read_bytes n p)
unfolding read_bytes
read_bytes_lem zero p bytes h = (refl, h)
read_bytes_lem (suc n) p [] h = rw ((is_empty_iff p [] h).1 refl) (refl, h)
read_bytes_lem (suc n) p (b ∷ bytes) h =
    let some_left : (p.nread == p.nwrite) ≡ false = ground (arith, is_empty_iff p (b ∷ bytes) h) in
    let (p1, run, h1) = get_byte_lem p b bytes h in
    rw (some_left, run)
      (Returns-bind _ _ (read_bytes n p1) _ (read_bytes_lem n p1 bytes h1)
        (λ (r : List ℕ × Pipe) k. (ap (λ (l : List ℕ). b ∷ l) k.0, k.1)))

-- `piperead` on a pipe that holds a queue of bytes sleeps, or fails if the caller is killed,
-- exactly where the queue is empty and the write end is open, and changes nothing then; otherwise
-- it takes the first bytes of the queue, at most as many as were asked for, in order, and wakes the
-- writers.
pub piperead_lem :
    (killed : Bool) (n : ℕ) (p : Pipe) (bytes : List ℕ)
    → Holds p bytes
    → Returns
        (λ (r : ReadEnd × Pipe × List Channel).
          ((bytes ≡ [])
            × (p.writeopen ≡ true)
            × (r.0 ≡ (if killed then failed else read_sleeps))
            × (r.1 ≡ p))
          ⊎ (((bytes ≢ []) ⊎ (p.writeopen ≡ false))
              × (r.0 ≡ read (take n bytes))
              × Holds r.1 (drop n bytes)
              × (r.2 ≡ at_nwrite ∷ [])))
        (piperead killed n p)
unfolding piperead
piperead_lem killed n p bytes h = elim (Bool-cases ((p.nread == p.nwrite) && p.writeopen)) [
  | inl waits ↦ rw waits (inl (no_bytes bytes h (ground arith), ground arith, refl, refl))
  | inr reads ↦ rw reads (
      Returns-bind _ _ (read_bytes n p) _ (read_bytes_lem n p bytes h)
        (λ (r : List ℕ × Pipe) k. inr (ready bytes h reads, ap (λ l. read l) k.0, k.1, refl)))
]
  where
    no_bytes : (bs : List ℕ) → Holds p bs → (p.nread == p.nwrite) ≡ true → bs ≡ []
    no_bytes [] g e = refl
    no_bytes (b ∷ bs) g e = absurd (ground (arith, is_empty_iff p (b ∷ bs) g))

    ready :
        (bs : List ℕ)
        → Holds p bs
        → ((p.nread == p.nwrite) && p.writeopen) ≡ false
        → (bs ≢ []) ⊎ (p.writeopen ≡ false)
    ready [] g e = inr (ground (arith, is_empty_iff p [] g))
    ready (b ∷ bs) g e = inl (λ z. absurd (omega (arith, ap length z)))
