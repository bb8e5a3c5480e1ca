-- ===== src/Topology/Groups/Partition.antt =====
-- The groups that `Groups` of internal/topology/graph.go returns share the alerted services out.
use argus.Base.{
  ℕ, zero, suc, ◌+◌, ◌<◌, String, ◌≡◌, refl, ap, ◌∙◌, Bool, false, not, ◌&&◌, List, [], ◌∷◌, ◌++◌,
  length, arith, elem, str_eq, str_eq-eq, str_eq_refl, str_lt, occurrences, occurrences-append,
  occurrences-sort_strings, All-sort_strings, Bool-cases, inl, inr, if◌then◌else◌,
}
use argus.Topology.{Graph}
use argus.Topology.Groups.{
  Group, unique_keys, unique_sorted, covered, delete_all, best_of, group_of, groups_loop,
  insert_group, sort_groups, groups,
}
use argus.Topology.Groups.Covered.{
  All-keep, delete_all-covered, occurrences-covered, length-covered,
}
use argus.Topology.Groups.Choice.{AllNamed, best_of-Chosen}

-- The members of all groups, in a row.
abbrev pub all_members : List Group → List String
all_members [] = []
all_members (group ∷ groups) = group.members ++ all_members groups

insert_group-occurrences :
    (k : String) (x : Group) (ys : List Group)
    → occurrences k (all_members (insert_group x ys))
      ≡ occurrences k x.members + occurrences k (all_members ys)
unfolding insert_group
insert_group-occurrences k x [] = rw occurrences-append refl
insert_group-occurrences k x (y ∷ ys) = elim (Bool-cases (str_lt y.root x.root)) [
  | inl less ↦ rw less (
      omega (
        arith,
        occurrences-append k y.members (all_members (insert_group x ys)),
        occurrences-append k y.members (all_members ys),
        insert_group-occurrences k x ys,
      ))
  | inr not_less ↦ rw not_less (rw occurrences-append refl)
]

sort_groups-occurrences :
    (k : String) (gs : List Group)
    → occurrences k (all_members (sort_groups gs)) ≡ occurrences k (all_members gs)
unfolding sort_groups
sort_groups-occurrences k [] = refl
sort_groups-occurrences k (x ∷ xs) = omega (
  arith,
  insert_group-occurrences k x (sort_groups xs),
  sort_groups-occurrences k xs,
  occurrences-append k x.members (all_members xs),
)

module _ (g : Graph) (alerted : List String) where
  -- What is left after a round is named and shorter.
  pub left-named :
      (root : String) (xs : List String)
      → AllNamed xs
      → AllNamed (delete_all (covered g root xs).0 xs)
  left-named root xs named = rw delete_all-covered (All-keep (λ x. str_eq x "" ≡ false) _ xs named)

  groups_loop-occurrences :
      (fuel : ℕ) (unassigned : List String) (k : String)
      → AllNamed unassigned
      → length unassigned < fuel
      → occurrences k (all_members (groups_loop fuel g alerted unassigned))
        ≡ occurrences k unassigned
  unfolding groups_loop group_of
  groups_loop-occurrences zero unassigned k named f = elim f [ ]
  groups_loop-occurrences (suc fuel) [] k named f = refl
  groups_loop-occurrences (suc fuel) (x ∷ xs) k named f =
      let best = best_of g alerted (x ∷ xs) in
      let chosen = best_of-Chosen g alerted x xs named in
      let left = delete_all best.members (x ∷ xs) in
      let left_eq : left ≡ delete_all (covered g best.root (x ∷ xs)).0 (x ∷ xs) =
        ap (λ ms. delete_all ms (x ∷ xs)) chosen.all_covered in
      let left_named : AllNamed left = rw left_eq (left-named best.root (x ∷ xs) named) in
      omega (
        arith,
        occurrences-append k best.members (all_members (groups_loop fuel g alerted left)),
        ap (occurrences k) chosen.all_covered,
        ap length chosen.all_covered,
        chosen.some_covered,
        ap (occurrences k) left_eq,
        ap length left_eq,
        occurrences-covered g best.root (x ∷ xs) k,
        length-covered g best.root (x ∷ xs),
        groups_loop-occurrences fuel left k left_named,
      )

unique_keys-named : (values : List String) → AllNamed (unique_keys values)
unfolding unique_keys
unique_keys-named [] = tt
unique_keys-named (v ∷ vs) = elim (Bool-cases (str_eq v "")) [
  | inl unnamed ↦ rw unnamed (unique_keys-named vs)
  | inr named ↦ elim (Bool-cases (elem v (unique_keys vs))) [
    | inl old ↦ rw (named, old) (unique_keys-named vs)
    | inr new ↦ rw (named, new) (named, unique_keys-named vs)
  ]
]

pub unique_sorted-named : (values : List String) → AllNamed (unique_sorted values)
unfolding unique_sorted
unique_sorted-named values =
    All-sort_strings (λ x. str_eq x "" ≡ false) (unique_keys values) (unique_keys-named values)

-- A text is alerted if it is listed and not empty.
abbrev pub is_alerted : List String → String → Bool
is_alerted services k = elem k services && not (str_eq k "")

occurrences-elem : (k : String) (xs : List String) → elem k xs ≡ false → occurrences k xs ≡ 0
unfolding occurrences elem
occurrences-elem k [] h = refl
occurrences-elem k (x ∷ xs) h = ground (arith, occurrences-elem k xs)

elem-unique_keys : (k : String) (vs : List String) → elem k (unique_keys vs) ≡ is_alerted vs k
unfolding unique_keys elem
elem-unique_keys k [] = refl
elem-unique_keys k (v ∷ vs) = elim (Bool-cases (str_eq v k)) [
  | inl same ↦ rw (str_eq-eq v k same) (ground (arith, elem-unique_keys k vs, str_eq_refl k))
  | inr differ ↦ ground (arith, elem-unique_keys k vs)
]

occurrences-unique_keys :
    (k : String) (vs : List String)
    → occurrences k (unique_keys vs) ≡ (if is_alerted vs k then 1 else 0)
unfolding unique_keys occurrences elem
occurrences-unique_keys k [] = refl
occurrences-unique_keys k (v ∷ vs) = elim (Bool-cases (str_eq v k)) [
  | inl same ↦ rw (str_eq-eq v k same) (
      ground (
        arith,
        occurrences-unique_keys k vs,
        elem-unique_keys k vs,
        occurrences-elem k (unique_keys vs),
        str_eq_refl k,
      ))
  | inr differ ↦ ground (arith, occurrences-unique_keys k vs)
]

-- The groups are a partition: each named service that is alerted, however often it is listed, is a
-- member of exactly one group and stands there once, and no other text is a member of any.
pub groups-occurrences :
    (g : Graph) (services : List String) (k : String)
    → occurrences k (all_members (groups g services)) ≡ (if is_alerted services k then 1 else 0)
unfolding groups unique_sorted
groups-occurrences g services k =
    let alerted = unique_sorted services in
    sort_groups-occurrences k (groups_loop (suc (length alerted)) g alerted alerted)
    ∙ groups_loop-occurrences g alerted (suc (length alerted)) alerted k
        (unique_sorted-named services) (omega arith)
    ∙ occurrences-sort_strings k (unique_keys services)
    ∙ occurrences-unique_keys k services
