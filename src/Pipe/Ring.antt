-- ===== src/Pipe/Ring.antt =====
-- The ring of a pipe holds a queue of bytes, also where the counters wrap around.
use nice_system_calls.Common.{
  ℕ, zero, suc, ◌+◌, ◌%◌, ◌^◌, ◌≤◌, ◌<◌, ◌≡◌, refl, sym, ap, ◌∙◌, ◌↔◌, true, false, List, [], ◌∷◌,
  ◌++◌, arith, ◌==◌, if◌then◌else◌, length, get_or, set, length-set, length-append, get_or-set, ok,
  ℕ_discrete, load-ok, store-ok,
}
use nice_system_calls.Pipe.{Pipe, pipesize, put_byte, get_byte, is_full}

-- The pipe `p` holds the bytes `bytes`, the next one first.
pub record Holds (p : Pipe) (bytes : List ℕ) : Type 0 where
  pub size : length p.ring ≡ pipesize
  pub small : p.nread < 2 ^ 32
  pub room : length bytes ≤ pipesize
  pub written : p.nwrite ≡ (p.nread + length bytes) % 2 ^ 32
  pub cells :
      (k : ℕ) → k < length bytes → get_or p.ring ((p.nread + k) % pipesize) 0 ≡ get_or bytes k 0

get_or-snoc :
    (bs : List ℕ) (c k : ℕ)
    → get_or (bs ++ c ∷ []) k 0 ≡ (if k == length bs then c else get_or bs k 0)
get_or-snoc [] c zero = refl
get_or-snoc [] c (suc k) = ground arith
get_or-snoc (b ∷ bs) c zero = ground arith
get_or-snoc (b ∷ bs) c (suc k) = get_or-snoc bs c k ∙ ground arith

pub full-length :
    (p : Pipe) (bytes : List ℕ) → Holds p bytes → is_full p ≡ true → length bytes ≡ pipesize
full-length p bytes h e = grind (arith, h.small, h.room, h.written)

pub free-length :
    (p : Pipe) (bytes : List ℕ) → Holds p bytes → is_full p ≡ false → length bytes < pipesize
free-length p bytes h e = grind (arith, h.small, h.room, h.written)

pub is_empty_iff :
    (p : Pipe) (bytes : List ℕ)
    → Holds p bytes
    → ((p.nread == p.nwrite) ≡ true) ↔ (length bytes ≡ 0)
is_empty_iff p bytes h = grind (arith, h.small, h.room, h.written)

pub put_byte_lem :
    (p : Pipe) (bytes : List ℕ) (c : ℕ)
    → Holds p bytes
    → length bytes < pipesize
    → (p' : Pipe) × (put_byte c p ≡ ok p') × (p'.readopen ≡ p.readopen) × Holds p' (bytes ++ c ∷ [])
unfolding put_byte
put_byte_lem p bytes c h room =
    let there : p.nwrite % pipesize < length p.ring = omega (arith, h.size) in
    let one_more = length-append bytes (c ∷ []) in
    rw (store-ok p.ring (p.nwrite % pipesize) c there) (
      record p { ring = set p.ring (p.nwrite % pipesize) c; nwrite = (p.nwrite + 1) % 2 ^ 32 },
      refl,
      refl,
      record {
        size = length-set p.ring (p.nwrite % pipesize) c ∙ h.size;
        small = h.small;
        room = omega (arith, one_more);
        written = omega (arith, one_more, h.written);
        cells = λ k lt.
            let next : (p.nwrite % pipesize == (p.nread + k) % pipesize) ≡ (k == length bytes) =
              elim (ℕ_discrete k (length bytes)) [
                | yes e ↦ (ground (arith, h.written))
                | no ne ↦ (ground (arith, h.written))
              ] in
            get_or-set p.ring (p.nwrite % pipesize) ((p.nread + k) % pipesize) c 0 there
            ∙ ground (arith, next, get_or-snoc bytes c k, h.cells k, one_more);
      },
    )

pub get_byte_lem :
    (p : Pipe) (c : ℕ) (bytes : List ℕ)
    → Holds p (c ∷ bytes)
    → (p' : Pipe) × (get_byte p ≡ ok (c, p')) × Holds p' bytes
unfolding get_byte
get_byte_lem p c bytes h =
    let there : p.nread % pipesize < length p.ring = omega (arith, h.size) in
    let first : get_or p.ring (p.nread % pipesize) 0 ≡ c =
      let same : p.nread ≡ p.nread + 0 = omega arith in
      ap (λ i. get_or p.ring (i % pipesize) 0) same ∙ h.cells 0 (omega arith) in
    rw (load-ok p.ring (p.nread % pipesize) 0 there, first)
      (
        record p { nread = (p.nread + 1) % 2 ^ 32 },
        refl,
        record {
          size = h.size;
          small = omega arith;
          room = omega (arith, h.room);
          written = omega (arith, h.written, h.small);
          cells = λ k lt.
              let same : (p.nread + suc k) % pipesize ≡ ((p.nread + 1) % 2 ^ 32 + k) % pipesize =
                omega arith in
              ap (λ i. get_or p.ring i 0) (sym same) ∙ h.cells (suc k) (omega arith);
        },
      )
