-- ===== src/Base/Lists.antt =====
-- Lists measured by native numbers, and lists of texts as sets.
use Prim.Native.Nat.{ℕ, zero, suc, ◌+◌}
use Prim.Native.String.{String}
use mathlib.Core.Path.{◌≡◌, refl}
use mathlib.Core.Bool.{Bool, true, false, ◌||◌}
use mathlib.Core.Logic.{◌⊎◌}
use mathlib.Core.List.{List, [], ◌∷◌, ◌++◌}
use native.Mathlib.Omega.{arith}
use argus.Base.Tests.{str_eq, str_eq-eq, str_eq_refl}

module _ {ℓ} {A : Type ℓ} where
  abbrev pub length : List A → ℕ
  length [] = 0
  length (x ∷ xs) = suc (length xs)

  -- Go's `s[:n]` where `n` may pass the end.
  abbrev pub take : ℕ → List A → List A
  take zero xs = []
  take (suc n) [] = []
  take (suc n) (x ∷ xs) = x ∷ take n xs

  pub length-append : (xs ys : List A) → length (xs ++ ys) ≡ length xs + length ys
  length-append [] ys = omega arith
  length-append (x ∷ xs) ys = omega (arith, length-append xs ys)

-- A predicate on every element; it computes to a tuple.
abbrev pub All {ℓ κ} : {A : Type ℓ} → (A → Type κ) → List A → Type κ
All P [] = Unit
All P (x ∷ xs) = P x × All P xs

pub All-append {ℓ κ} :
    {A : Type ℓ} (P : A → Type κ) (xs ys : List A) → All P xs → All P ys → All P (xs ++ ys)
All-append P [] ys hx hy = hy
All-append P (x ∷ xs) ys hx hy = (hx.0, All-append P xs ys hx.1 hy)

pub All-map {ℓ κ} :
    {A : Type ℓ} (P Q : A → Type κ) → ((a : A) → P a → Q a) → (xs : List A) → All P xs → All Q xs
All-map P Q f [] h = tt
All-map P Q f (x ∷ xs) h = (f x h.0, All-map P Q f xs h.1)

-- Membership in a set of texts: `_, ok := set[k]`.
unfoldable pub elem : String → List String → Bool
elem k [] = false
elem k (x ∷ xs) = str_eq x k || elem k xs

pub elem-head : (k : String) (xs : List String) → elem k (k ∷ xs) ≡ true
unfolding elem
elem-head k xs = ground (arith, str_eq_refl k)

pub elem-tail : (k x : String) (xs : List String) → elem k xs ≡ true → elem k (x ∷ xs) ≡ true
unfolding elem
elem-tail k x xs h = ground arith

pub elem-append : (k : String) (xs ys : List String) → elem k (xs ++ ys) ≡ elem k xs || elem k ys
unfolding elem
elem-append k [] ys = refl
elem-append k (x ∷ xs) ys = ground (arith, elem-append k xs ys)

pub elem-cons :
    (k x : String) (xs : List String) → elem k (x ∷ xs) ≡ true → (x ≡ k) ⊎ (elem k xs ≡ true)
unfolding elem
elem-cons k x xs h = ground (arith, str_eq-eq x k)

pub not-elem-cons :
    (k x : String) (xs : List String)
    → str_eq x k ≡ false
    → elem k xs ≡ false
    → elem k (x ∷ xs) ≡ false
unfolding elem
not-elem-cons k x xs e h = ground arith

pub not-elem-nil : (k : String) → elem k [] ≡ false
unfolding elem
not-elem-nil k = refl
