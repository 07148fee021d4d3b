-- ===== src/Grep/Match.antt =====
-- The matcher decides what its patterns mean.
use nice_system_calls.Common.{
  ℕ, ◌≡◌, refl, sym, ap, subst, ◌↔◌, inl, inr, Bool, true, false, List, [], ◌∷◌, ◌++◌, arith, ◌==◌,
  if◌then◌else◌, ◌||◌, Bool-cases,
}
use nice_system_calls.Grep.{accepts, match_byte, matchstar, is_empty, matchhere, match_from, match}

-- A part of a pattern: one byte, a byte any number of times, or the end of the text.
pub data Part : Type 0 where
  one many : ℕ → Part
  at_end : Part

unfoldable pub parts : List ℕ → List Part
parts [] = []
parts (c ∷ []) = if c == b'$' then at_end ∷ [] else one c ∷ []
parts (c ∷ d ∷ re) =
    let starred = many c ∷ parts re in
    let plain = one c ∷ parts (d ∷ re) in if d == b'*' then starred else plain

abbrev pub AllAccept : ℕ → List ℕ → Type 0
AllAccept c [] = Unit {0}
AllAccept c (t ∷ ts) = (accepts c t ≡ true) × AllAccept c ts

-- The parts match at the start of the text.
abbrev pub Starts : List Part → List ℕ → Type 0
Starts [] text = Unit {0}
Starts (one c ∷ ps) text =
    (t : ℕ) × (rest : List ℕ) × (text ≡ t ∷ rest) × (accepts c t ≡ true) × Starts ps rest
Starts (many c ∷ ps) text = (xs ys : List ℕ) × (text ≡ xs ++ ys) × AllAccept c xs × Starts ps ys
Starts (at_end ∷ ps) text = (text ≡ []) × Starts ps text

-- The pattern is found in the text, at its start if the pattern begins with `^`.
abbrev pub Found : List ℕ → List ℕ → Type 0
Found [] text = (xs ys : List ℕ) × (text ≡ xs ++ ys) × Starts (parts []) ys
Found (c ∷ re) text =
    if c == b'^'
    then Starts (parts re) text
    else ((xs ys : List ℕ) × (text ≡ xs ++ ys) × Starts (parts (c ∷ re)) ys)

-- A test decides a statement.
abbrev Decides : Bool → Type 0 → Type 0
Decides b P = (b ≡ true) ↔ P

abbrev head_or : ℕ → List ℕ → ℕ
head_or d [] = d
head_or d (x ∷ xs) = x

abbrev tail : List ℕ → List ℕ
tail [] = []
tail (x ∷ xs) = xs

nil-append : (xs ys : List ℕ) → [] ≡ xs ++ ys → ys ≡ []
nil-append [] ys e = sym e
nil-append (x ∷ xs) ys e = absurd (ground arith)

match_byte_lem :
    (c : ℕ) (here : List ℕ → Bool) (ps : List Part) (text : List ℕ)
    → ((t : List ℕ) → Decides (here t) (Starts ps t))
    → Decides (match_byte c here text) (Starts (one c ∷ ps) text)
unfolding match_byte
match_byte_lem c here ps [] h = (λ e. absurd (ground arith), λ s. absurd (ground (arith, s.2)))
match_byte_lem c here ps (t ∷ text) h = elim (Bool-cases (accepts c t)) [
  | inl e ↦ rw e (
    (λ x. (t, text, refl, e, (h text).0 x)),
    (λ s. (h text).1 (subst (Starts ps) (sym (ap tail s.2)) s.4)),
  )
  | inr e ↦
      rw e ((λ x. absurd (ground arith)), (λ s. absurd (differs s.0 (ap (head_or 0) s.2) s.3 e)))
]
  where
    differs : (t' : ℕ) → t ≡ t' → accepts c t' ≡ true → accepts c t ≡ false → ⊥
    differs t' same yes_case no_case = ground (arith, same)

star_here :
    (c : ℕ) (here : List ℕ → Bool) (ps : List Part) (t : ℕ) (text xs ys : List ℕ)
    → ((t : List ℕ) → Decides (here t) (Starts ps t))
    → Decides (matchstar c here text) (Starts (many c ∷ ps) text)
    → t ∷ text ≡ xs ++ ys
    → AllAccept c xs
    → Starts ps ys
    → matchstar c here (t ∷ text) ≡ true
unfolding matchstar
star_here c here ps t text [] ys h ih e all st =
    let now : here (t ∷ text) ≡ true = (h (t ∷ text)).1 (subst (Starts ps) (sym e) st) in
    rw now refl
star_here c here ps t text (x ∷ xs) ys h ih e all st =
    let later : matchstar c here text ≡ true = ih.1 (xs, ys, ap tail e, all.1, st) in
    let same : t ≡ x = ap (head_or 0) e in
    let goes : ((t == c) || (c == b'.')) ≡ true = ground (arith, all.0, same) in
    elim (Bool-cases (here (t ∷ text))) [
      | inl now ↦ rw now refl
      | inr no_case ↦ rw (no_case, goes) later
    ]

matchstar_lem :
    (c : ℕ) (here : List ℕ → Bool) (ps : List Part) (text : List ℕ)
    → ((t : List ℕ) → Decides (here t) (Starts ps t))
    → Decides (matchstar c here text) (Starts (many c ∷ ps) text)
unfolding matchstar
matchstar_lem c here ps [] h = (
  (λ x. ([], [], refl, tt, (h []).0 x)),
  (λ s. (h []).1 (subst (Starts ps) (nil-append s.0 s.1 s.2) s.4)),
)
matchstar_lem c here ps (t ∷ text) h =
    let ih = matchstar_lem c here ps text h in
    (forward ih, λ s. star_here c here ps t text s.0 s.1 h ih s.2 s.3 s.4)
  where
    forward :
        Decides (matchstar c here text) (Starts (many c ∷ ps) text)
        → matchstar c here (t ∷ text) ≡ true
        → Starts (many c ∷ ps) (t ∷ text)
    forward ih e = elim (Bool-cases (here (t ∷ text))) [
      | inl now ↦ ([], t ∷ text, refl, tt, (h (t ∷ text)).0 now)
      | inr no_case ↦
          let goes : accepts c t ≡ true = ground (arith, no_case) in
          let (xs, ys, same, all, st) = ih.0 (ground (arith, no_case)) in
          (t ∷ xs, ys, ap (λ (l : List ℕ). t ∷ l) same, (goes, all), st)
    ]

matchhere_lem : (re text : List ℕ) → Decides (matchhere re text) (Starts (parts re) text)
unfolding matchhere parts
matchhere_lem [] text = (λ e. tt, λ s. refl)
matchhere_lem (c ∷ []) text = elim (Bool-cases (c == b'$')) [
  | inl e ↦ rw e (last text)
  | inr e ↦ rw e (match_byte_lem c (matchhere []) [] text (λ t. matchhere_lem [] t))
]
  where
    last : (text : List ℕ) → Decides (is_empty text) (Starts (at_end ∷ []) text)
    last [] = (λ e. (refl, tt), λ s. refl)
    last (t ∷ text) = (λ e. absurd (ground arith), λ s. absurd (ground (arith, s.0)))
matchhere_lem (c ∷ d ∷ re) text = elim (Bool-cases (d == b'*')) [
  | inl e ↦ rw e (matchstar_lem c (matchhere re) (parts re) text (λ t. matchhere_lem re t))
  | inr e ↦
      rw e (
        match_byte_lem c (matchhere (d ∷ re)) (parts (d ∷ re)) text (λ t. matchhere_lem (d ∷ re) t))
]

abbrev Inside : List ℕ → List ℕ → Type 0
Inside re text = (xs ys : List ℕ) × (text ≡ xs ++ ys) × Starts (parts re) ys

match_from_lem : (re text : List ℕ) → Decides (match_from re text) (Inside re text)
unfolding match_from
match_from_lem re [] = (
  (λ e. ([], [], refl, (matchhere_lem re []).0 e)),
  (λ s. (matchhere_lem re []).1 (subst (Starts (parts re)) (nil-append s.0 s.1 s.2) s.3)),
)
match_from_lem re (t ∷ text) = (
  (λ e. elim (Bool-cases (matchhere re (t ∷ text))) [
    | inl now ↦ ([], t ∷ text, refl, (matchhere_lem re (t ∷ text)).0 now)
    | inr no_case ↦
        let (xs, ys, same, st) = (match_from_lem re text).0 (ground (arith, no_case)) in
        (t ∷ xs, ys, ap (λ (l : List ℕ). t ∷ l) same, st)
  ]),
  (λ s. back (match_from_lem re text) s.0 s.1 s.2 s.3),
)
  where
    back :
        Decides (match_from re text) (Inside re text)
        → (xs ys : List ℕ) → t ∷ text ≡ xs ++ ys
        → Starts (parts re) ys
        → match_from re (t ∷ text) ≡ true
    back ih [] ys e st =
        let now = (matchhere_lem re (t ∷ text)).1 (subst (Starts (parts re)) (sym e) st) in
        rw now refl
    back ih (x ∷ xs) ys e st =
        let later = ih.1 (xs, ys, ap tail e, st) in
        elim (Bool-cases (matchhere re (t ∷ text))) [
          | inl now ↦ rw now refl
          | inr no_case ↦ rw no_case later
        ]

-- `match` replies true exactly where the text has a part that the pattern describes: the pattern
-- read as a list of characters, stars and anchors, and its words given by an independent inductive
-- definition.
pub match_iff : (re text : List ℕ) → (match re text ≡ true) ↔ Found re text
unfolding match
match_iff [] text = match_from_lem [] text
match_iff (c ∷ re) text = elim (Bool-cases (c == b'^')) [
  | inl e ↦ rw e (matchhere_lem re text)
  | inr e ↦ rw e (match_from_lem (c ∷ re) text)
]
