-- ===== src/Common/Tests.antt =====
-- Boolean tests of the C code, and the conditional.
use Prim.Native.Nat.{ℕ, ◌<◌, ◌≤◌, compare, Ordering}
use mathlib.Core.Path.{◌≡◌, refl, ap}
use mathlib.Core.Logic.{◌⊎◌, inl, inr, ◌≢◌}
use mathlib.Core.Bool.{◌||◌, Bool, true, false, ◌&&◌}
use mathlib.Core.Option.{Option, none, some}
use mathlib.Core.List.{List, [], ◌∷◌}
use native.Mathlib.Omega.{arith}

abbrev pub ltb : ℕ → ℕ → Bool
ltb a b = elim (compare a b) [ Ordering.lt ↦ true | _ ↦ false ]

abbrev pub leb : ℕ → ℕ → Bool
leb a b = elim (compare a b) [ Ordering.gt ↦ false | _ ↦ true ]

infix 50 ◌==◌
abbrev pub ◌==◌ : ℕ → ℕ → Bool
a == b = elim (compare a b) [ Ordering.eq ↦ true | _ ↦ false ]

infix 1 if◌then◌else◌
abbrev pub if◌then◌else◌ {ℓ} : {A : Type ℓ} → Bool → A → A → A
if true then x else y = x
if false then x else y = y

pub ltb→lt : (a b : ℕ) → ltb a b ≡ true → a < b
ltb→lt a b h = ground arith

pub ltb→le : (a b : ℕ) → ltb a b ≡ false → b ≤ a
ltb→le a b h = ground arith

pub Bool-cases : (b : Bool) → (b ≡ true) ⊎ (b ≡ false)
Bool-cases true = inl refl
Bool-cases false = inr refl

pub Option-cases {ℓ} : {A : Type ℓ} (o : Option A) → (o ≡ none) ⊎ ((a : A) × (o ≡ some a))
Option-cases none = inl refl
Option-cases (some a) = inr (a, refl)

-- To split on a computed list and keep the equation.
pub List-cases {ℓ} :
    {A : Type ℓ} (xs : List A) → (xs ≡ []) ⊎ ((x : A) × (r : List A) × (xs ≡ x ∷ r))
List-cases [] = inl refl
List-cases (x ∷ r) = inr (x, r, refl)

-- `strcmp(s, t) == 0` and `streq`, on the bytes of the strings.
abbrev pub streq : List ℕ → List ℕ → Bool
streq [] [] = true
streq (c ∷ s) (d ∷ t) = (c == d) && streq s t
streq _ _ = false

pub streq_self : (s : List ℕ) → streq s s ≡ true
streq_self [] = refl
streq_self (c ∷ s) = ground (arith, streq_self s)

pub streq→eq : (s t : List ℕ) → streq s t ≡ true → s ≡ t
streq→eq [] [] h = refl
streq→eq (c ∷ s) (d ∷ t) h = ground (arith, streq→eq s t)
streq→eq [] (d ∷ t) h = cc
streq→eq (c ∷ s) [] h = cc

pub streq→ne : (s t : List ℕ) → streq s t ≡ false → s ≢ t
streq→ne s t h e = cc (ap (streq s) e, streq_self s, h)

pub or_true : (a : Bool) → (a || true) ≡ true
or_true true = refl
or_true false = refl
