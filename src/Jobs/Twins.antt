-- ===== src/Jobs/Twins.antt =====
-- Proposals that stand beside each other: `Propose` of internal/remediation/service.go.
use argus.Base.{
  String, ltb, if◌then◌else◌, ◌≡◌, Bool, false, ◌&&◌, Option, none, some, List, [], ◌∷◌, ◌++◌,
  arith, All, All-append, Dict, str_eq, Bool-cases, inl, inr,
}
use argus.Actions.{Value}
use argus.Rca.{Candidate}
use argus.Jobs.{Action}
use argus.Jobs.Proposals.{is_active, about, find_active}

module _ (same : Dict Value → Dict Value → Bool) where
  -- Two active remediations of one incident that do the same.
  abbrev pub twins : Action → Action → Bool
  twins a b =
      str_eq a.incident_id b.incident_id
      && str_eq a.action_type b.action_type
      && str_eq a.target b.target
      && same a.parameters b.parameters
      && is_active a.status
      && is_active b.status

  -- No row has a twin after it.
  abbrev pub OneActive : List Action → Type 0
  OneActive [] = Unit
  OneActive (a ∷ rest) = All (λ b. twins a b ≡ false) rest × OneActive rest

  pub OneActive-append :
      (rows : List Action) (x : Action)
      → All (λ a. twins a x ≡ false) rows
      → OneActive rows
      → OneActive (rows ++ x ∷ [])
  OneActive-append [] x apart one = (tt, tt)
  OneActive-append (a ∷ rest) x apart one = (
    All-append (λ b. twins a b ≡ false) rest (x ∷ []) one.0 (apart.0, tt),
    OneActive-append rest x apart.1 one.1,
  )

  -- Where the search finds nothing, a row for the candidate has no twin.
  pub find_active-none :
      (incident_id : String) (c : Candidate) (x : Action) (rows : List Action)
      → x.incident_id ≡ incident_id
      → x.action_type ≡ c.action_type
      → x.target ≡ c.target
      → x.parameters ≡ c.parameters
      → find_active same incident_id c rows ≡ none
      → All (λ a. twins a x ≡ false) rows
  unfolding find_active
  find_active-none incident_id c x [] i t g p h = tt
  find_active-none incident_id c x (a ∷ rest) i t g p h =
      elim (Bool-cases (about same incident_id c a && is_active a.status)) [
        | inl yes' ↦ absurd (found (find_active same incident_id c rest) (rw yes' at h))
        | inr no' ↦ (
          rw (i, t, g, p) (ground arith),
          find_active-none incident_id c x rest i t g p (rw no' at h),
        )
      ]
    where
      found :
          (others : Option Action)
          → elim others [
            | none ↦ some a
            | some b ↦ if ltb a.created_at b.created_at then some b else some a
          ]
            ≡ none
          → ⊥
      found none h = cc
      found (some b) h = ground arith
