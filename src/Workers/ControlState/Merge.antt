-- ===== src/Workers/ControlState/Merge.antt =====
-- What a merged state holds: `mergeState` of internal/workers/control_state.go.
use argus.Base.{String, ◌≡◌, refl, Option, none, some, [], ◌∷◌, arith, Dict, lookup, lookup-insert}
use argus.Workers.ControlState.{assign_all, merge_state}

abbrev pub or_else {ℓ} : {V : Type ℓ} → Option V → Option V → Option V
or_else (some v) o = some v
or_else none o = o

module _ {V : Type 0} where
  lookup-assign_all :
      (key : String) (m merged : Dict V)
      → lookup key (assign_all m merged) ≡ or_else (lookup key m) (lookup key merged)
  unfolding lookup assign_all
  lookup-assign_all key [] merged = refl
  lookup-assign_all key ((j, v) ∷ m) merged =
      ground (arith, lookup-insert j key v (assign_all m merged), lookup-assign_all key m merged)

  or_else-none : (o : Option V) → or_else o none ≡ o
  or_else-none (some v) = refl
  or_else-none none = refl

  -- A key of the merged state has the desired value where there is one, and else the current one.
  pub lookup-merge_state :
      (key : String) (current desired : Dict V)
      → lookup key (merge_state current desired) ≡ or_else (lookup key desired) (lookup key current)
  unfolding lookup merge_state
  lookup-merge_state key current desired =
      rw
        (
          lookup-assign_all key desired (assign_all current []),
          lookup-assign_all key current [],
          or_else-none (lookup key current),
        )
        refl
