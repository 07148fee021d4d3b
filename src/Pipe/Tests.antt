-- ===== src/Pipe/Tests.antt =====
-- Pipes on small inputs: an empty one whose counters are about to wrap around, and one with a byte.
use nice_system_calls.Common.{
  ℕ, ◌≡◌, ◌≢◌, ◌⊎◌, refl, List, [], ◌∷◌, arith, replicate, take, drop, Returns, true, false,
  if◌then◌else◌,
}
use nice_system_calls.Pipe.{
  Pipe, ReadEnd, failed, read, read_sleeps, Channel, at_nwrite, pipewrite, piperead,
}
use nice_system_calls.Pipe.Ring.{Holds}
use nice_system_calls.Pipe.Transfer.{Wrote, pipewrite_lem, piperead_lem}

abbrev empty : Pipe
empty = record {
  ring = replicate 512 0;
  nread = 4294967295;
  nwrite = 4294967295;
  readopen = true;
  writeopen = true;
}

empty-Holds : Holds empty []
empty-Holds = record {
  size = refl;
  small = omega arith;
  room = omega arith;
  written = refl;
  cells = λ k h. absurd (omega arith);
}

abbrev nothing : List ℕ
nothing = []

pipewrite_example :
    Returns (Wrote false (7 ∷ 8 ∷ []) 0 empty []) (pipewrite false (7 ∷ 8 ∷ []) 0 empty)
pipewrite_example = pipewrite_lem false (7 ∷ 8 ∷ []) 0 empty [] empty-Holds

piperead_example :
    Returns
      (λ (r : ReadEnd × Pipe × List Channel).
        ((nothing ≡ [])
          × (empty.writeopen ≡ true)
          × (r.0 ≡ (if false then failed else read_sleeps))
          × (r.1 ≡ empty))
        ⊎ (((nothing ≢ []) ⊎ (empty.writeopen ≡ false))
            × (r.0 ≡ read (take 4 []))
            × Holds r.1 (drop 4 [])
            × (r.2 ≡ at_nwrite ∷ [])))
      (piperead false 4 empty)
piperead_example = piperead_lem false 4 empty [] empty-Holds
