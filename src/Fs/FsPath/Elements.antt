-- ===== src/Fs/FsPath/Elements.antt =====
-- skipelem, called again and again, and the parts of a path between its slashes.
use nice_system_calls.Common.{
  ℕ, zero, suc, ◌+◌, ◌≤◌, ◌<◌, ◌≡◌, refl, ap, sym, ◌∙◌, List, [], ◌∷◌, true, false, none, some,
  arith, leb, ◌==◌, if◌then◌else◌, inl, inr, Bool-cases, length, take, map,
}
use nice_system_calls.Fs.Dir.{dirsiz}
use nice_system_calls.Fs.FsPath.{
  slash, skip_slashes, take_element, element, nonempty_element, skipelem,
}

-- A path cut at each slash, and what is not empty of it.
abbrev pub cons_head : ℕ → List (List ℕ) → List (List ℕ)
cons_head c [] = (c ∷ []) ∷ []
cons_head c (xs ∷ xss) = (c ∷ xs) ∷ xss

unfoldable pub split : List ℕ → List (List ℕ)
split [] = [] ∷ []
split (c ∷ cs) = let rest = split cs in if c == slash then [] ∷ rest else cons_head c rest

abbrev pub nonempty : List (List ℕ) → List (List ℕ)
nonempty [] = []
nonempty ([] ∷ xss) = nonempty xss
nonempty ((x ∷ xs) ∷ xss) = (x ∷ xs) ∷ nonempty xss

pub components : List ℕ → List (List ℕ)
components path = map (take dirsiz) (nonempty (split path))

-- The names that at most `n` calls of `skipelem` give.
unfoldable pub elements : ℕ → List ℕ → List (List ℕ)
elements zero path = []
elements (suc n) path = elim (skipelem path) [ none ↦ [] | some e ↦ e.0 ∷ elements n e.1 ]

-- What is left of a path behind its slashes, and behind an element.
pub data NoSlash : List ℕ → Type 0 where
  at_end : NoSlash []
  at_char : (c : ℕ) (cs : List ℕ) → (c == slash) ≡ false → NoSlash (c ∷ cs)

pub data AtSlash : List ℕ → Type 0 where
  no_more : AtSlash []
  at_slash : (c : ℕ) (cs : List ℕ) → (c == slash) ≡ true → AtSlash (c ∷ cs)

pub skip_slashes-NoSlash : (path : List ℕ) → NoSlash (skip_slashes path)
unfolding skip_slashes
skip_slashes-NoSlash [] = at_end
skip_slashes-NoSlash (c ∷ cs) = elim (Bool-cases (c == slash)) [
  | inl e ↦ rw e (skip_slashes-NoSlash cs)
  | inr e ↦ rw e (at_char c cs e)
]

take_element-AtSlash : (path : List ℕ) → AtSlash (take_element path).1
unfolding take_element
take_element-AtSlash [] = no_more
take_element-AtSlash (c ∷ cs) = elim (Bool-cases (c == slash)) [
  | inl e ↦ rw e (at_slash c cs e)
  | inr e ↦ rw e (take_element-AtSlash cs)
]

pub length-skip_slashes : (path : List ℕ) → length (skip_slashes path) ≤ length path
unfolding skip_slashes
length-skip_slashes [] = omega arith
length-skip_slashes (c ∷ cs) = elim (Bool-cases (c == slash)) [
  | inl e ↦ rw e (omega (arith, length-skip_slashes cs))
  | inr e ↦ rw e (omega arith)
]

length-take_element :
    (path : List ℕ) → length (take_element path).0 + length (take_element path).1 ≡ length path
unfolding take_element
length-take_element [] = omega arith
length-take_element (c ∷ cs) = elim (Bool-cases (c == slash)) [
  | inl e ↦ rw e (omega arith)
  | inr e ↦ rw e (omega (arith, length-take_element cs))
]

-- A call of `skipelem` leaves less of the path.
pub length-element :
    (c : ℕ) (cs : List ℕ) → (c == slash) ≡ false → length (element (c ∷ cs)).1 ≤ length cs
unfolding take_element
length-element c cs e =
    rw e (omega (arith, length-skip_slashes (take_element cs).1, length-take_element cs))

-- What the cut gives behind the first slash.
abbrev behind : List ℕ → List (List ℕ)
behind [] = []
behind (c ∷ cs) = split cs

split_lem : (path : List ℕ) → split path ≡ (take_element path).0 ∷ behind (take_element path).1
unfolding split take_element
split_lem [] = refl
split_lem (c ∷ cs) = elim (Bool-cases (c == slash)) [
  | inl e ↦ rw e refl
  | inr e ↦ rw (e, split_lem cs) refl
]

nonempty-behind : (rest : List ℕ) → AtSlash rest → nonempty (behind rest) ≡ nonempty (split rest)
unfolding split
nonempty-behind [] no_more = refl
nonempty-behind (c ∷ cs) (at_slash c' cs' e) = rw e refl

nonempty_skip : (path : List ℕ) → nonempty (split (skip_slashes path)) ≡ nonempty (split path)
unfolding split skip_slashes
nonempty_skip [] = refl
nonempty_skip (c ∷ cs) = elim (Bool-cases (c == slash)) [
  | inl e ↦ rw e (nonempty_skip cs)
  | inr e ↦ rw (e, e) refl
]

take_all : (n : ℕ) (xs : List ℕ) → length xs ≤ n → take n xs ≡ xs
take_all zero [] h = refl
take_all zero (x ∷ xs) h = absurd (omega arith)
take_all (suc n) [] h = refl
take_all (suc n) (x ∷ xs) h = ap (λ l. x ∷ l) (take_all n xs (omega arith))

name_lem : (xs : List ℕ) → (if leb dirsiz (length xs) then take dirsiz xs else xs) ≡ take dirsiz xs
name_lem xs = elim (Bool-cases (leb dirsiz (length xs))) [
  | inl e ↦ rw e refl
  | inr e ↦ rw e (sym (take_all dirsiz xs (ground arith)))
]

take_element_cons :
    (c : ℕ) (cs : List ℕ)
    → (c == slash) ≡ false
    → take_element (c ∷ cs) ≡ (c ∷ (take_element cs).0, (take_element cs).1)
unfolding take_element
take_element_cons c cs e = rw e refl

components_skip : (path : List ℕ) → components (skip_slashes path) ≡ components path
unfolding components
components_skip path = ap (map (take dirsiz)) (nonempty_skip path)

-- One call: the first component, and those of the path that is left.
element_lem :
    (c : ℕ) (cs : List ℕ)
    → (c == slash) ≡ false
    → components (c ∷ cs) ≡ (element (c ∷ cs)).0 ∷ components (element (c ∷ cs)).1
unfolding components
element_lem c cs e =
    let cut : take_element (c ∷ cs) ≡ (c ∷ (take_element cs).0, (take_element cs).1) =
      take_element_cons c cs e in
    rw (split_lem (c ∷ cs), name_lem (take_element (c ∷ cs)).0, cut)
      (ap (λ l. take dirsiz (c ∷ (take_element cs).0) ∷ map (take dirsiz) l)
        (nonempty-behind (take_element cs).1 (take_element-AtSlash cs)
          ∙ sym (nonempty_skip (take_element cs).1)))

-- One step of the iteration, as a function of what is left behind the slashes.
elements-suc :
    (n : ℕ) (rest : List ℕ)
    → NoSlash rest
    → length rest < suc n
    → ((path : List ℕ) → length path < n → elements n path ≡ components path)
    → (elim (nonempty_element rest) [ none ↦ [] | some e ↦ e.0 ∷ elements n e.1 ]) ≡ components rest
unfolding components split
elements-suc n [] at_end lt h = refl
elements-suc n (c ∷ cs) (at_char c' cs' e) lt h =
    ap (λ l. (element (c ∷ cs)).0 ∷ l)
      (h (element (c ∷ cs)).1 (omega (arith, length-element c cs e)))
    ∙ sym (element_lem c cs e)

elements_lem : (n : ℕ) (path : List ℕ) → length path < n → elements n path ≡ components path
unfolding elements skipelem
elements_lem zero path lt = absurd (omega arith)
elements_lem (suc n) path lt =
    elements-suc n (skip_slashes path) (skip_slashes-NoSlash path)
      (omega (arith, length-skip_slashes path)) (elements_lem n)
    ∙ components_skip path

-- The names that `skipelem` gives, called again and again on what it leaves of a path, are the
-- parts of the path between its slashes that are not empty, each cut to 14 bytes.
pub skipelem_lem : (path : List ℕ) → elements (length path + 1) path ≡ components path
skipelem_lem path = elements_lem (length path + 1) path (omega arith)
