-- ===== src/Common/Results.antt =====
-- What a kernel routine comes to: a value, a call of `panic`, or undefined behaviour such as a
-- read outside an array or through a null pointer.
use Prim.Native.Nat.{ℕ, zero, suc, ◌<◌, ◌≤◌}
use mathlib.Core.Path.{◌≡◌, refl, ◌∙◌, subst}
use native.Mathlib.Omega.{arith}
use Prim.Native.String.{String}
use mathlib.Core.Logic.{◌⊎◌, inl, inr}
use mathlib.Core.List.{List, [], ◌∷◌}
use mathlib.Core.Option.{Option, none, some}
use nice_system_calls.Common.Lists.{get_elem?, get_or, set, length}
use nice_system_calls.Common.Tests.{ltb, lt→ltb, ◌==◌, if◌then◌else◌}

pub data Outcome {ℓ} (A : Type ℓ) : Type ℓ where
  ok : A → Outcome A
  panic : String → Outcome A
  fault : Outcome A

infixl 5 ◌>>=◌ ◌>>◌
abbrev pub ◌>>=◌ {ℓ κ} : {A : Type ℓ} {B : Type κ} → Outcome A → (A → Outcome B) → Outcome B
ok a >>= f = f a
panic s >>= f = panic s
fault >>= f = fault

abbrev pub ◌>>◌ {ℓ} : {B : Type ℓ} → Outcome (Unit {0}) → Outcome B → Outcome B
m >> k = m >>= λ _. k

-- The routine comes to a value, and the value has the property.
abbrev pub Returns {ℓ} : {A : Type ℓ} → (A → Type 0) → Outcome A → Type 0
Returns P (ok a) = P a
Returns P (panic s) = ⊥
Returns P fault = ⊥

-- Rules for chains: total correctness of a bind from that of its parts.
module _ {ℓ κ} {A : Type ℓ} {B : Type κ} where
  pub Returns-bind :
      (P : A → Type 0) (Q : B → Type 0) (m : Outcome A) (f : A → Outcome B)
      → Returns P m
      → ((a : A) → P a → Returns Q (f a))
      → Returns Q (m >>= f)
  Returns-bind P Q (ok a) f h k = k a h
  Returns-bind P Q (panic s) f h k = elim h [ ]
  Returns-bind P Q fault f h k = elim h [ ]

pub Returns-mono {ℓ} :
    {A : Type ℓ} (P Q : A → Type 0) (m : Outcome A)
    → Returns P m
    → ((a : A) → P a → Q a)
    → Returns Q m
Returns-mono P Q (ok a) h k = k a h
Returns-mono P Q (panic s) h k = elim h [ ]
Returns-mono P Q fault h k = elim h [ ]

-- Array accesses. An index outside the array is undefined behaviour.
abbrev pub of_option {ℓ} : {A : Type ℓ} → Option A → Outcome A
of_option none = fault
of_option (some a) = ok a

abbrev pub load {ℓ} : {A : Type ℓ} → List A → ℕ → Outcome A
load xs i = of_option (get_elem? xs i)

abbrev pub store {ℓ} : {A : Type ℓ} → List A → ℕ → A → Outcome (List A)
store xs i v = if ltb i (length xs) then ok (set xs i v) else fault

module _ {ℓ} {A : Type ℓ} where
  pub load-ok : (xs : List A) (i : ℕ) (d : A) → i < length xs → load xs i ≡ ok (get_or xs i d)
  load-ok [] i d h = elim h [ ]
  load-ok (x ∷ xs) zero d h = refl
  load-ok (x ∷ xs) (suc i) d h = load-ok xs i d (omega arith)

  pub store-ok : (xs : List A) (i : ℕ) (v : A) → i < length xs → store xs i v ≡ ok (set xs i v)
  store-ok xs i v h = rw (lt→ltb i (length xs) h)

-- A read after a write, in one equation.
pub get_or-set {ℓ} :
    {A : Type ℓ} (xs : List A) (i j : ℕ) (v d : A)
    → i < length xs
    → get_or (set xs i v) j d ≡ (if i == j then v else get_or xs j d)
get_or-set [] i j v d h = elim h [ ]
get_or-set (x ∷ xs) zero zero v d h = refl
get_or-set (x ∷ xs) zero (suc j) v d h = ground arith
get_or-set (x ∷ xs) (suc i) zero v d h = ground arith
get_or-set (x ∷ xs) (suc i) (suc j) v d h = get_or-set xs i j v d (omega arith) ∙ ground arith

pub load-out {ℓ} : {A : Type ℓ} (xs : List A) (i : ℕ) → length xs ≤ i → load xs i ≡ fault
load-out [] i h = refl
load-out (x ∷ xs) zero h = absurd (omega arith)
load-out (x ∷ xs) (suc i) h = load-out xs i (omega arith)

-- The property holds where the routine comes to a value.
abbrev pub Ends {ℓ} : {A : Type ℓ} → (A → Type 0) → Outcome A → Type 0
Ends P (ok a) = P a
Ends P (panic s) = Unit
Ends P fault = Unit

pub Returns-Ends {ℓ} : {A : Type ℓ} (P : A → Type 0) (m : Outcome A) → Returns P m → Ends P m
Returns-Ends P (ok a) h = h
Returns-Ends P (panic s) h = tt
Returns-Ends P fault h = tt

pub Ends-bind {ℓ κ} :
    {A : Type ℓ} {B : Type κ} (P : A → Type 0) (Q : B → Type 0) (m : Outcome A) (f : A → Outcome B)
    → Ends P m
    → ((a : A) → P a → Ends Q (f a))
    → Ends Q (m >>= f)
Ends-bind P Q (ok a) f h k = k a h
Ends-bind P Q (panic s) f h k = tt
Ends-bind P Q fault f h k = tt

pub Returns-ok {ℓ} :
    {A : Type ℓ} (P : A → Type 0) (m : Outcome A) (a : A) → Returns P m → m ≡ ok a → P a
Returns-ok P m a h e = subst (Returns P) e h

pub Ends-ok {ℓ} : {A : Type ℓ} (P : A → Type 0) (m : Outcome A) (a : A) → Ends P m → m ≡ ok a → P a
Ends-ok P m a h e = subst (Ends P) e h

-- A chain faults where its rest faults on every value that its first part can have.
pub bind-fault {ℓ κ} :
    {A : Type ℓ} {B : Type κ} (P : A → Type 0) (m : Outcome A) (f : A → Outcome B)
    → Returns P m
    → ((a : A) → P a → f a ≡ fault)
    → (m >>= f) ≡ fault
bind-fault P (ok a) f h k = k a h
bind-fault P (panic s) f h k = elim h [ ]
bind-fault P fault f h k = refl

pub Ends-self : {A : Type 0} (m : Outcome A) → Ends (λ a. m ≡ ok a) m
Ends-self (ok a) = refl
Ends-self (panic s) = tt
Ends-self fault = tt

pub get_elem?-lt {ℓ} :
    {A : Type ℓ} (xs : List A) (i : ℕ) (x : A) → get_elem? xs i ≡ some x → i < length xs
get_elem?-lt [] i x e = absurd (grind arith)
get_elem?-lt (y ∷ ys) zero x e = omega arith
get_elem?-lt (y ∷ ys) (suc i) x e = omega (arith, get_elem?-lt ys i x e)

pub load→get {ℓ} :
    {A : Type ℓ} (xs : List A) (i : ℕ) (x : A) → load xs i ≡ ok x → get_elem? xs i ≡ some x
load→get [] i x e = absurd (grind arith)
load→get (y ∷ ys) zero x e = grind arith
load→get (y ∷ ys) (suc i) x e = load→get ys i x e

pub load-cases :
    {A : Type 0} (xs : List A) (i : ℕ) → (load xs i ≡ fault) ⊎ ((x : A) × (load xs i ≡ ok x))
load-cases [] i = inl refl
load-cases (x ∷ xs) zero = inr (x, refl)
load-cases (x ∷ xs) (suc i) = load-cases xs i

pub Ends-mono {ℓ} :
    {A : Type ℓ} (P Q : A → Type 0) (m : Outcome A) → Ends P m → ((a : A) → P a → Q a) → Ends Q m
Ends-mono P Q (ok a) h k = k a h
Ends-mono P Q (panic s) h k = tt
Ends-mono P Q fault h k = tt

pub Ends-both {ℓ} :
    {A : Type ℓ} (P Q : A → Type 0) (m : Outcome A) → Ends P m → Ends Q m → Ends (λ a. P a × Q a) m
Ends-both P Q (ok a) h k = (h, k)
Ends-both P Q (panic s) h k = tt
Ends-both P Q fault h k = tt

-- The routine comes to a value with the property, or it calls `panic` and `X` holds.
abbrev pub ReturnsOr {ℓ} : {A : Type ℓ} → Type 0 → (A → Type 0) → Outcome A → Type 0
ReturnsOr X P (ok a) = P a
ReturnsOr X P (panic s) = X
ReturnsOr X P fault = ⊥

module _ {ℓ κ} {A : Type ℓ} {B : Type κ} (X : Type 0) where
  pub ReturnsOr-bind :
      (P : A → Type 0) (Q : B → Type 0) (m : Outcome A) (f : A → Outcome B)
      → ReturnsOr X P m
      → ((a : A) → P a → ReturnsOr X Q (f a))
      → ReturnsOr X Q (m >>= f)
  ReturnsOr-bind P Q (ok a) f h k = k a h
  ReturnsOr-bind P Q (panic s) f h k = h
  ReturnsOr-bind P Q fault f h k = elim h [ ]

  pub Returns-bind-ReturnsOr :
      (P : A → Type 0) (Q : B → Type 0) (m : Outcome A) (f : A → Outcome B)
      → Returns P m
      → ((a : A) → P a → ReturnsOr X Q (f a))
      → ReturnsOr X Q (m >>= f)
  Returns-bind-ReturnsOr P Q (ok a) f h k = k a h
  Returns-bind-ReturnsOr P Q (panic s) f h k = elim h [ ]
  Returns-bind-ReturnsOr P Q fault f h k = elim h [ ]

module _ {ℓ} {A : Type ℓ} where
  pub ReturnsOr-mono :
      (X Y : Type 0) (P Q : A → Type 0) (m : Outcome A)
      → ReturnsOr X P m
      → (X → Y)
      → ((a : A) → P a → Q a)
      → ReturnsOr Y Q m
  ReturnsOr-mono X Y P Q (ok a) h x k = k a h
  ReturnsOr-mono X Y P Q (panic s) h x k = x h
  ReturnsOr-mono X Y P Q fault h x k = elim h [ ]

  pub Returns-ReturnsOr :
      (X : Type 0) (P : A → Type 0) (m : Outcome A) → Returns P m → ReturnsOr X P m
  Returns-ReturnsOr X P (ok a) h = h
  Returns-ReturnsOr X P (panic s) h = elim h [ ]
  Returns-ReturnsOr X P fault h = elim h [ ]

  pub ReturnsOr-ok :
      (X : Type 0) (P : A → Type 0) (m : Outcome A) (a : A) → ReturnsOr X P m → m ≡ ok a → P a
  ReturnsOr-ok X P m a h e = subst (ReturnsOr X P) e h
