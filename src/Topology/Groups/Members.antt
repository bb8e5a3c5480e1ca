-- ===== src/Topology/Groups/Members.antt =====
-- What the groups that `Groups` of internal/topology/graph.go returns say of their members.
use argus.Base.{
  ℕ, zero, suc, String, ◌≡◌, refl, ap, ◌∙◌, Bool, true, false, ◌&&◌, some, List, [], ◌∷◌, length,
  arith, lookup, lookup-insert, elem, elem-cons, elem-head, elem-tail, not-elem-nil,
  elem-sort_strings, str_eq, str_eq-eq, eq-str_eq, str_lt, All, Bool-cases, Option-cases, inl, inr,
}
use argus.Topology.{ServicePath, Graph, path}
use argus.Topology.Route.{Route}
use argus.Topology.Path.{path-Route}
use argus.Topology.Groups.{
  Group, Best, unique_sorted, covered, delete_all, path_or_zero, member_paths, best_of, group_of,
  groups_loop, insert_group, sort_groups, groups,
}
use argus.Topology.Groups.Covered.{has_path, elem-keep, covered-keep}
use argus.Topology.Groups.Choice.{Chosen, AllNamed, best_of-Chosen}
use argus.Topology.Groups.Partition.{left-named, unique_sorted-named}

-- What `paths` of a group holds for a member: a path of the graph from it to the root.
abbrev pub HasPath : Graph → Group → String → Type 0
HasPath g group member =
    (p : ServicePath) × (lookup member group.paths ≡ some p)
    × (p.from ≡ member)
    × (p.to ≡ group.root)
    × Route g.dependencies member group.root p.services

lookup-member_paths :
    (g : Graph) (root k : String) (members : List String)
    → elem k members ≡ true
    → lookup k (member_paths g root members) ≡ some (path_or_zero g k root)
unfolding member_paths
lookup-member_paths g root k [] e = cc (not-elem-nil k)
lookup-member_paths g root k (x ∷ xs) e = rw lookup-insert (elim (Bool-cases (str_eq x k)) [
  | inl same ↦ rw (same, str_eq-eq x k same) refl
  | inr differ ↦ rw differ (lookup-member_paths g root k xs (other_elem differ))
])
  where
    other_elem : str_eq x k ≡ false → elem k xs ≡ true
    other_elem differ = elim (elem-cons k x xs e) [
      | inl same ↦ cc (eq-str_eq x k same)
      | inr later ↦ later
    ]

All_of_elem :
    (P : String → Type 0) (xs : List String) → ((x : String) → elem x xs ≡ true → P x) → All P xs
All_of_elem P [] h = tt
All_of_elem P (x ∷ xs) h =
    (h x (elem-head x xs), All_of_elem P xs (λ y e. h y (elem-tail y x xs e)))

-- `and` of two tests.
both : (a b : Bool) → (a && b) ≡ true → b ≡ true
both a b h = ground arith

has_path_of_member :
    (g : Graph) (root x : String) (services : List String)
    → elem x (covered g root services).0 ≡ true
    → has_path g root x ≡ true
has_path_of_member g root x services e =
    both (elem x services) (has_path g root x)
      (rw (covered-keep g root services, elem-sort_strings, elem-keep) at e)

some_path :
    (g : Graph) (root x : String)
    → has_path g root x ≡ true
    → (p : ServicePath) × (path g x root ≡ some p)
unfolding has_path
some_path g root x h = elim (Option-cases (path g x root)) [
  | inl no_path ↦ cc (rw no_path at h)
  | inr found_path ↦ found_path
]

path_or_zero-some :
    (g : Graph) (member root : String) (p : ServicePath)
    → path g member root ≡ some p
    → path_or_zero g member root ≡ p
unfolding path_or_zero
path_or_zero-some g member root p e = ground arith

group_of-HasPath :
    (g : Graph) (services : List String) (best : Best)
    → Chosen g services best
    → All (HasPath g (group_of g best)) best.members
unfolding group_of
group_of-HasPath g services best chosen =
    All_of_elem (HasPath g (group_of g best)) best.members λ x e.
      let listed = rw chosen.all_covered at e in
      let (p, is_path) =
        some_path g best.root x (has_path_of_member g best.root x services listed) in
      let route = path-Route g x best.root p is_path in
      (
        p,
        lookup-member_paths g best.root x best.members e
            ∙ ap some (path_or_zero-some g x best.root p is_path),
        route.0,
        route.1,
        route.2,
      )

-- Every member of the group has its path.
abbrev pub AllHavePaths : Graph → Group → Type 0
AllHavePaths g group = All (HasPath g group) group.members

groups_loop-HavePaths :
    (g : Graph) (alerted : List String) (fuel : ℕ) (unassigned : List String)
    → AllNamed unassigned
    → All (AllHavePaths g) (groups_loop fuel g alerted unassigned)
unfolding groups_loop
groups_loop-HavePaths g alerted zero unassigned named = tt
groups_loop-HavePaths g alerted (suc fuel) [] named = tt
groups_loop-HavePaths g alerted (suc fuel) (x ∷ xs) named =
    let best = best_of g alerted (x ∷ xs) in
    let chosen = best_of-Chosen g alerted x xs named in
    let left_eq = ap (λ ms. delete_all ms (x ∷ xs)) chosen.all_covered in
    (
      unfold group_of in group_of-HasPath g (x ∷ xs) best chosen,
      groups_loop-HavePaths g alerted fuel (delete_all best.members (x ∷ xs))
          (rw left_eq (left-named g alerted best.root (x ∷ xs) named)),
    )

All-insert_group :
    (P : Group → Type 0) (x : Group) (ys : List Group) → P x → All P ys → All P (insert_group x ys)
unfolding insert_group
All-insert_group P x [] p h = (p, tt)
All-insert_group P x (y ∷ ys) p h = elim (Bool-cases (str_lt y.root x.root)) [
  | inl less ↦ rw less (h.0, All-insert_group P x ys p h.1)
  | inr not_less ↦ rw not_less (p, h)
]

All-sort_groups : (P : Group → Type 0) (xs : List Group) → All P xs → All P (sort_groups xs)
unfolding sort_groups
All-sort_groups P [] h = tt
All-sort_groups P (x ∷ xs) h = All-insert_group P x (sort_groups xs) h.0 (All-sort_groups P xs h.1)

-- In each group that is returned, `paths` holds for every member a path that starts at the member,
-- ends at the group's root and follows direct dependencies of the graph.
pub groups-HavePaths :
    (g : Graph) (services : List String) → All (AllHavePaths g) (groups g services)
unfolding groups
groups-HavePaths g services = All-sort_groups (AllHavePaths g) _ (
    groups_loop-HavePaths g (unique_sorted services) (suc (length (unique_sorted services)))
      (unique_sorted services) (unique_sorted-named services))
