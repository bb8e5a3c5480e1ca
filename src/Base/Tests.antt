-- ===== src/Base/Tests.antt =====
-- Boolean tests on numbers and texts, and the conditional.
use Prim.Native.Nat.{ℕ, ◌≤◌, ◌<◌, compare, Ordering}
use Prim.Native.String.{String}
use mathlib.Core.Path.{◌≡◌, refl}
use mathlib.Core.Logic.{◌≢◌, ◌⊎◌, inl, inr}
use mathlib.Core.Bool.{Bool, true, false}
use mathlib.Core.Option.{Option, none, some}
use native.Mathlib.Omega.{arith}
use text.Mathlib.Text
use text.Mathlib.TextEquality.{eq_iff}
use text.Mathlib.TextPositions.{eq_refl}

-- These compute to `compare`, which `ground` and `grind` read.
abbrev pub ltb : ℕ → ℕ → Bool
ltb a b = elim (compare a b) [ Ordering.lt ↦ true | _ ↦ false ]

abbrev pub leb : ℕ → ℕ → Bool
leb a b = elim (compare a b) [ Ordering.gt ↦ false | _ ↦ true ]

infix 50 ◌==◌
abbrev pub ◌==◌ : ℕ → ℕ → Bool
a == b = elim (compare a b) [ Ordering.eq ↦ true | _ ↦ false ]

infix 1 if◌then◌else◌
abbrev pub if◌then◌else◌ {ℓ} : {A : Type ℓ} → Bool → A → A → A
if true then x else y = x
if false then x else y = y

-- Equality of texts: shut, so that a proof sees it only through `str_eq_iff`.
unfoldable pub str_eq : String → String → Bool
str_eq s t = Text.◌==◌ s t

pub str_eq-eq : (s t : String) → str_eq s t ≡ true → s ≡ t
unfolding str_eq
str_eq-eq s t h = (eq_iff s t).0 h

pub str_eq_refl : (s : String) → str_eq s s ≡ true
unfolding str_eq
str_eq_refl s = eq_refl s

pub eq-str_eq : (s t : String) → s ≡ t → str_eq s t ≡ true
unfolding str_eq
eq-str_eq s t h = (eq_iff s t).1 h

pub str_eq-ne : (s t : String) → s ≢ t → str_eq s t ≡ false
str_eq-ne s t h = go (str_eq s t) refl
  where
    go : (b : Bool) → str_eq s t ≡ b → b ≡ false
    go true e = absurd (h (str_eq-eq s t e))
    go false e = refl

pub ne-str_eq : (s t : String) → str_eq s t ≡ false → s ≢ t
ne-str_eq s t h e = cc (eq-str_eq s t e)

-- A split on a computed value that keeps the equation.
pub Bool-cases : (b : Bool) → (b ≡ true) ⊎ (b ≡ false)
Bool-cases true = inl refl
Bool-cases false = inr refl

pub Option-cases {ℓ} : {A : Type ℓ} (o : Option A) → (o ≡ none) ⊎ ((a : A) × (o ≡ some a))
Option-cases none = inl refl
Option-cases (some a) = inr (a, refl)

pub ltb-lt : (a b : ℕ) → ltb a b ≡ true → a < b
ltb-lt a b h = ground arith

pub leb-le : (a b : ℕ) → leb a b ≡ true → a ≤ b
leb-le a b h = ground arith
