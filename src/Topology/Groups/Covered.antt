-- ===== src/Topology/Groups/Covered.antt =====
-- What `covered` of internal/topology/graph.go collects.
use argus.Base.{
  ◌+◌, String, ◌≡◌, refl, ap, Bool, true, false, not, ◌&&◌, Option, none, some, List, [], ◌∷◌,
  length, arith, elem, elem-head, elem-tail, elem-sort_strings, str_eq, str_eq-eq, str_eq_refl,
  sort_strings, occurrences, occurrences-sort_strings, length-sort_strings, All, All-sort_strings,
  Bool-cases, inl, inr, if◌then◌else◌,
}
use argus.Topology.{ServicePath, Graph, path}
use argus.Topology.Groups.{covered_from, covered, delete_all}

unfoldable pub keep : (String → Bool) → List String → List String
keep p [] = []
keep p (x ∷ xs) = let rest = keep p xs in if p x then x ∷ rest else rest

abbrev pub is_some : Option ServicePath → Bool
is_some none = false
is_some (some p) = true

unfoldable pub has_path : Graph → String → String → Bool
has_path g root service = is_some (path g service root)

pub covered_from-keep :
    (g : Graph) (root : String) (services : List String)
    → (covered_from g root services).0 ≡ keep (has_path g root) services
unfolding covered_from keep has_path
covered_from-keep g root [] = refl
covered_from-keep g root (service ∷ services) = ground (arith, covered_from-keep g root services)

pub covered-keep :
    (g : Graph) (root : String) (services : List String)
    → (covered g root services).0 ≡ sort_strings (keep (has_path g root) services)
unfolding covered
covered-keep g root services = ap sort_strings (covered_from-keep g root services)

pub elem-keep :
    (p : String → Bool) (x : String) (xs : List String) → elem x (keep p xs) ≡ (elem x xs && p x)
unfolding keep elem
elem-keep p x [] = refl
elem-keep p x (y ∷ ys) = elim (Bool-cases (str_eq y x)) [
  | inl same ↦ rw (str_eq-eq y x same) (ground (arith, elem-keep p x ys, str_eq_refl x))
  | inr differ ↦ ground (arith, elem-keep p x ys)
]

-- Kept and dropped elements together are all of them.
pub occurrences-keep :
    (p : String → Bool) (x : String) (xs : List String)
    → occurrences x (keep p xs) + occurrences x (keep (λ y. not (p y)) xs) ≡ occurrences x xs
unfolding keep occurrences
occurrences-keep p x [] = omega arith
occurrences-keep p x (y ∷ ys) = ground (arith, occurrences-keep p x ys)

pub length-keep :
    (p : String → Bool) (xs : List String)
    → length (keep p xs) + length (keep (λ y. not (p y)) xs) ≡ length xs
unfolding keep
length-keep p [] = omega arith
length-keep p (x ∷ xs) = ground (arith, length-keep p xs)

pub All-keep :
    (P : String → Type 0) (p : String → Bool) (xs : List String) → All P xs → All P (keep p xs)
unfolding keep
All-keep P p [] h = tt
All-keep P p (x ∷ xs) h = elim (Bool-cases (p x)) [
  | inl kept ↦ rw kept (h.0, All-keep P p xs h.1)
  | inr dropped ↦ rw dropped (All-keep P p xs h.1)
]

-- What is kept passed the test.
pub All-kept : (p : String → Bool) (xs : List String) → All (λ x. p x ≡ true) (keep p xs)
unfolding keep
All-kept p [] = tt
All-kept p (x ∷ xs) = elim (Bool-cases (p x)) [
  | inl kept ↦ rw kept (kept, All-kept p xs)
  | inr dropped ↦ rw dropped (All-kept p xs)
]

-- Deleting the members leaves what has no path to their root.
pub delete_all-keep :
    (ms : List String) (p : String → Bool) (xs : List String)
    → ((x : String) → elem x xs ≡ true → elem x ms ≡ p x)
    → delete_all ms xs ≡ keep (λ x. not (p x)) xs
unfolding delete_all keep
delete_all-keep ms p [] h = refl
delete_all-keep ms p (x ∷ xs) h =
    ground (arith, h x (elem-head x xs), delete_all-keep ms p xs (λ y e. h y (elem-tail y x xs e)))

pub delete_all-covered :
    (g : Graph) (root : String) (services : List String)
    → delete_all (covered g root services).0 services ≡ keep (λ x. not (has_path g root x)) services
delete_all-covered g root services =
    delete_all-keep (covered g root services).0 (has_path g root) services
      λ x e. rw (covered-keep g root services, elem-sort_strings, elem-keep, e) refl

module _ (g : Graph) (root : String) (services : List String) where
  -- A service is in the group or is left, as often as it was there.
  pub occurrences-covered :
      (x : String)
      → occurrences x (covered g root services).0
          + occurrences x (delete_all (covered g root services).0 services)
        ≡ occurrences x services
  occurrences-covered x =
      rw
        (delete_all-covered g root services, covered-keep g root services, occurrences-sort_strings)
        (occurrences-keep (has_path g root) x services)

  pub length-covered :
      length (covered g root services).0 + length (delete_all (covered g root services).0 services)
      ≡ length services
  length-covered =
      rw (delete_all-covered g root services, covered-keep g root services, length-sort_strings)
        (length-keep (has_path g root) services)

  -- Every member has a path to the root.
  pub covered-paths : All (λ x. has_path g root x ≡ true) (covered g root services).0
  covered-paths = rw (covered-keep g root services) (
      All-sort_strings (λ x. has_path g root x ≡ true) (keep (has_path g root) services)
        (All-kept (has_path g root) services))
