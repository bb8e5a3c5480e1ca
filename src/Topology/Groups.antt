-- ===== src/Topology/Groups.antt =====
-- The grouping of alerted services under shared roots: `Groups` and its helpers in
-- internal/topology/graph.go. A set that Go ranges over in no fixed order is read in the order of
-- its list: every result that leaves a helper is sorted.
pub mod Covered
pub mod Choice
pub mod Partition
pub mod Members
pub mod Candidates
pub mod Visit
pub mod Reach
use argus.Base.{
  ℕ, zero, suc, ◌+◌, ◌-◌, String, Bool, true, false, not, Option, none, some, List, [], ◌∷◌, ◌++◌,
  length, Dict, insert, elem, ltb, ◌==◌, str_eq, str_lt, sort_strings, if◌then◌else◌,
}
use argus.Topology.{ServicePath, Graph, direct, add_key, entries, path}

pub record Group : Type 0 where
  pub root : String
  pub environment : String
  pub inferred : Bool
  pub members : List String
  pub paths : Dict ServicePath

unfoldable pub unique_keys : List String → List String
unique_keys [] = []
unique_keys (value ∷ values) =
    let keys = unique_keys values in if str_eq value "" then keys else add_key keys value

unfoldable pub unique_sorted : List String → List String
unfolding unique_keys
unique_sorted values = sort_strings (unique_keys values)

unfoldable pub first_key : List String → String
first_key values = elim (sort_strings values) [ [] ↦ "" | k ∷ ks ↦ k ]

-- The state of the search in `rootCandidates`.
pub record Walk : Type 0 where
  pub queue : List String
  pub visited : List String
  pub candidates : List String

-- `for _, dependency := range g.dependencies[current]`
unfoldable pub walk_scan : List String → Walk → Walk
walk_scan [] w = w
walk_scan (dependency ∷ rest) w = walk_scan rest (
    if elem dependency w.visited then w else record {
      queue = w.queue ++ dependency ∷ [];
      visited = dependency ∷ w.visited;
      candidates = add_key w.candidates dependency;
    })

-- `current := queue[0]; queue = queue[1:]` and the loop over its dependencies, if there is one.
unfoldable pub next_walk : Dict (List String) → Walk → List String → Option Walk
unfolding walk_scan direct
next_walk m w [] = none
next_walk m w (current ∷ queue) = some (walk_scan (direct m current) (record w { queue = queue }))

-- `for len(queue) > 0`, a round of fuel for each service taken off the queue.
unfoldable pub walk : ℕ → Dict (List String) → Walk → Walk
unfolding next_walk
walk zero m w = w
walk (suc fuel) m w = elim (next_walk m w w.queue) [ none ↦ w | some w' ↦ walk fuel m w' ]

unfoldable pub root_candidates_from : Graph → List String → List String → List String
unfolding walk
root_candidates_from g [] candidates = candidates
root_candidates_from g (service ∷ services) candidates =
    let start : Walk = record {
      queue = service ∷ [];
      visited = service ∷ [];
      candidates = add_key candidates service;
    } in
    root_candidates_from g services
      (walk (suc (suc (entries g.dependencies))) g.dependencies start).candidates

unfoldable pub root_candidates : Graph → List String → List String
unfolding root_candidates_from
root_candidates g services = sort_strings (root_candidates_from g services [])

-- `for service := range services` of `covered`, before the sort.
unfoldable pub covered_from : Graph → String → List String → List String × ℕ
covered_from g root [] = ([], 0)
covered_from g root (service ∷ services) =
    let (members, distance) = covered_from g root services in
    elim (path g service root) [
      | none ↦ (members, distance)
      | some p ↦ (service ∷ members, (length p.services - 1) + distance)
    ]

unfoldable pub covered : Graph → String → List String → List String × ℕ
unfolding covered_from
covered g root services =
    let (members, distance) = covered_from g root services in (sort_strings members, distance)

-- The variables bestRoot, bestMembers, bestDistance and bestAlerted.
pub record Best : Type 0 where
  pub root : String
  pub members : List String
  pub distance : ℕ
  pub alerted : Bool

abbrev pub no_best : Best
no_best = record { root = ""; members = []; distance = 0; alerted = false }

abbrev bool_eq : Bool → Bool → Bool
bool_eq true b = b
bool_eq false b = not b

unfoldable pub better_root : Best → Best → Bool
better_root new best =
    if not (length new.members == length best.members)
    then ltb (length best.members) (length new.members)
    else if not (new.distance == best.distance)
    then ltb new.distance best.distance
    else if not (bool_eq new.alerted best.alerted)
    then new.alerted
    else if str_eq best.root ""
    then true
    else str_lt new.root best.root

-- One round of `for _, root := range candidates`.
unfoldable pub consider : Graph → List String → List String → Best → String → Best
unfolding better_root
consider g alerted unassigned best root =
    let (members, distance) = covered g root unassigned in
    let new : Best = record {
      root = root;
      members = members;
      distance = distance;
      alerted = elem root alerted;
    } in
    if length members == 0 then best else if better_root new best then new else best

unfoldable pub choose : Graph → List String → List String → List String → Best → Best
choose g alerted unassigned [] best = best
choose g alerted unassigned (root ∷ roots) best =
    choose g alerted unassigned roots (consider g alerted unassigned best root)

-- `if bestRoot == ""`
unfoldable pub or_first : List String → Best → Best
or_first unassigned best =
    if str_eq best.root ""
    then record {
      root = first_key unassigned;
      members = first_key unassigned ∷ [];
      distance = best.distance;
      alerted = true;
    }
    else best

-- `path, _ := g.Path(member, bestRoot)`: without a path the zero value is stored.
unfoldable pub path_or_zero : Graph → String → String → ServicePath
path_or_zero g member root = elim (path g member root) [
  | none ↦ record { from = ""; to = ""; services = [] }
  | some p ↦ p
]

unfoldable pub member_paths : Graph → String → List String → Dict ServicePath
unfolding path_or_zero
member_paths g root [] = []
member_paths g root (member ∷ members) =
    insert member (path_or_zero g member root) (member_paths g root members)

-- `delete(unassigned, member)` for every member.
unfoldable pub delete_all : List String → List String → List String
delete_all members [] = []
delete_all members (service ∷ services) =
    let rest = delete_all members services in if elem service members then rest else service ∷ rest

unfoldable pub best_of : Graph → List String → List String → Best
unfolding or_first choose root_candidates
best_of g alerted unassigned =
    or_first unassigned (choose g alerted unassigned (root_candidates g unassigned) no_best)

unfoldable pub group_of : Graph → Best → Group
unfolding member_paths
group_of g best = record {
  root = best.root;
  environment = "";
  inferred = not best.alerted;
  members = best.members;
  paths = member_paths g best.root best.members;
}

-- `for len(unassigned) > 0`, a round of fuel for each group.
unfoldable pub groups_loop : ℕ → Graph → List String → List String → List Group
groups_loop zero g alerted unassigned = []
groups_loop (suc fuel) g alerted [] = []
groups_loop (suc fuel) g alerted (service ∷ services) =
    let best = best_of g alerted (service ∷ services) in
    group_of g best ∷ groups_loop fuel g alerted (delete_all best.members (service ∷ services))

-- `sort.SliceStable` by root.
unfoldable pub insert_group : Group → List Group → List Group
insert_group x [] = x ∷ []
insert_group x (y ∷ ys) = if str_lt y.root x.root then y ∷ insert_group x ys else x ∷ y ∷ ys

unfoldable pub sort_groups : List Group → List Group
unfolding insert_group
sort_groups [] = []
sort_groups (x ∷ xs) = insert_group x (sort_groups xs)

-- `(*Graph).Groups`
unfoldable pub groups : Graph → List String → List Group
unfolding groups_loop sort_groups best_of group_of
groups g services =
    let alerted = unique_sorted services in
    sort_groups (groups_loop (suc (length alerted)) g alerted alerted)
