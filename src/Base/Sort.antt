-- ===== src/Base/Sort.antt =====
-- `sort.Strings`: texts in byte order, by insertion.
use Prim.Native.Nat.{ℕ, suc, ◌+◌, Ordering}
use Prim.Native.String.{String}
use Prim.Native.String
use mathlib.Core.Path.{◌≡◌, refl}
use mathlib.Core.Bool.{Bool, true, false, ◌||◌}
use mathlib.Core.Logic.{inl, inr}
use mathlib.Core.List.{List, [], ◌∷◌, ◌++◌}
use native.Mathlib.Omega.{arith}
use argus.Base.Tests.{str_eq, if◌then◌else◌, Bool-cases}
use argus.Base.Lists.{length, elem, All}

-- `s < t` on strings: byte by byte, as UTF-8 keeps the order of the code points.
unfoldable pub str_lt : String → String → Bool
str_lt s t = elim (String.compare s t) [ Ordering.lt ↦ true | _ ↦ false ]

unfoldable pub insert_sorted : String → List String → List String
unfolding str_lt
insert_sorted x [] = x ∷ []
insert_sorted x (y ∷ ys) = if str_lt y x then y ∷ insert_sorted x ys else x ∷ y ∷ ys

unfoldable pub sort_strings : List String → List String
unfolding insert_sorted
sort_strings [] = []
sort_strings (x ∷ xs) = insert_sorted x (sort_strings xs)

pub elem-insert_sorted :
    (k x : String) (ys : List String) → elem k (insert_sorted x ys) ≡ (str_eq x k || elem k ys)
unfolding insert_sorted elem
elem-insert_sorted k x [] = refl
elem-insert_sorted k x (y ∷ ys) = ground (arith, elem-insert_sorted k x ys)

pub elem-sort_strings : (k : String) (xs : List String) → elem k (sort_strings xs) ≡ elem k xs
unfolding sort_strings elem
elem-sort_strings k [] = refl
elem-sort_strings k (x ∷ xs) =
    ground (arith, elem-insert_sorted k x (sort_strings xs), elem-sort_strings k xs)

-- How often a text is in a list.
unfoldable pub occurrences : String → List String → ℕ
occurrences k [] = 0
occurrences k (x ∷ xs) = (if str_eq x k then 1 else 0) + occurrences k xs

pub occurrences-append :
    (k : String) (xs ys : List String)
    → occurrences k (xs ++ ys) ≡ occurrences k xs + occurrences k ys
unfolding occurrences
occurrences-append k [] ys = omega arith
occurrences-append k (x ∷ xs) ys = omega (arith, occurrences-append k xs ys)

occurrences-insert_sorted :
    (k x : String) (ys : List String) → occurrences k (insert_sorted x ys) ≡ occurrences k (x ∷ ys)
unfolding insert_sorted occurrences
occurrences-insert_sorted k x [] = refl
occurrences-insert_sorted k x (y ∷ ys) = ground (arith, occurrences-insert_sorted k x ys)

pub occurrences-sort_strings :
    (k : String) (xs : List String) → occurrences k (sort_strings xs) ≡ occurrences k xs
unfolding sort_strings occurrences
occurrences-sort_strings k [] = refl
occurrences-sort_strings k (x ∷ xs) =
    ground (arith, occurrences-insert_sorted k x (sort_strings xs), occurrences-sort_strings k xs)

length-insert_sorted :
    (x : String) (ys : List String) → length (insert_sorted x ys) ≡ suc (length ys)
unfolding insert_sorted
length-insert_sorted x [] = refl
length-insert_sorted x (y ∷ ys) = ground (arith, length-insert_sorted x ys)

pub length-sort_strings : (xs : List String) → length (sort_strings xs) ≡ length xs
unfolding sort_strings
length-sort_strings [] = refl
length-sort_strings (x ∷ xs) =
    omega (arith, length-insert_sorted x (sort_strings xs), length-sort_strings xs)

All-insert_sorted :
    (P : String → Type 0) (x : String) (ys : List String)
    → P x
    → All P ys
    → All P (insert_sorted x ys)
unfolding insert_sorted
All-insert_sorted P x [] p h = (p, tt)
All-insert_sorted P x (y ∷ ys) p h = elim (Bool-cases (str_lt y x)) [
  | inl less ↦ rw less (h.0, All-insert_sorted P x ys p h.1)
  | inr not_less ↦ rw not_less (p, h)
]

pub All-sort_strings : (P : String → Type 0) (xs : List String) → All P xs → All P (sort_strings xs)
unfolding sort_strings
All-sort_strings P [] h = tt
All-sort_strings P (x ∷ xs) h =
    All-insert_sorted P x (sort_strings xs) h.0 (All-sort_strings P xs h.1)
