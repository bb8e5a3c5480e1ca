-- ===== src/System/Born.antt =====
-- How the table of remediations grows: rows that are worked on or decided, and rows that begin as
-- proposals of `Propose` in internal/remediation/service.go.
use argus.Base.{
  String, ◌≡◌, refl, sym, ap, ◌∙◌, none, List, [], ◌∷◌, ◌++◌, All, All-append, ◌⊎◌, inl, inr,
}
use mathlib.Core.Path.{subst}
use argus.Actions.{validate, collect_diagnostics}
use argus.Remediation.States.{policy_blocked}
use argus.Remediation.States.Lifecycle.{IsLive, HandedOut, HandedOut-IsLive}
use argus.Jobs.{Action}
use argus.Jobs.Proposing.{IsProposal, Proposes, ++-nil}
use argus.System.Shared.{LetsActions}

abbrev IsValid : Action → Type 0
IsValid b = validate b.action_type b.target b.parameters ≡ none

-- The row is blocked, or the catalog accepts it, and if it is approved or beyond it only collects
-- diagnostics or else `P` holds of its identifier.
abbrev pub IsCovered : (String → Type 0) → Action → Type 0
IsCovered P b =
    (IsValid b ⊎ (b.status ≡ policy_blocked))
    × (IsLive b.status → (b.action_type ≡ collect_diagnostics) ⊎ P b.id)

-- The rows of before, of which those that `P` holds of may be approved, and proposals.
pub record Grows (P : String → Type 0) (rows rows' : List Action) : Type 0 where
  pub kept : List Action
  pub added : List Action
  pub shape : rows' ≡ kept ++ added
  pub lets : LetsActions P rows kept
  pub proposals : All IsProposal added

pub LetsActions-refl : (P : String → Type 0) (rows : List Action) → LetsActions P rows rows
LetsActions-refl P [] = tt
LetsActions-refl P (a ∷ rest) = (refl, refl, λ l. inl l, λ e. e, LetsActions-refl P rest)

pub Grows-LetsActions :
    (P : String → Type 0) (rows rows' : List Action) → LetsActions P rows rows' → Grows P rows rows'
Grows-LetsActions P rows rows' m = record {
  kept = rows';
  added = [];
  shape = ++-nil rows';
  lets = m;
  proposals = tt;
}

pub Grows-Proposes :
    {same : _} (P : String → Type 0) (rows rows' : List Action)
    → Proposes same rows rows'
    → Grows P rows rows'
Grows-Proposes P rows rows' p = record {
  kept = rows;
  added = p.added;
  shape = p.shape;
  lets = LetsActions-refl P rows;
  proposals = p.proposals;
}

module _ (P Q : String → Type 0) where
  abbrev pub Either : String → Type 0
  Either id = P id ⊎ Q id

  kept-IsCovered :
      (rows rows' : List Action)
      → LetsActions P rows rows'
      → All (IsCovered Q) rows
      → All (IsCovered Either) rows'
  kept-IsCovered [] [] m all = tt
  kept-IsCovered (a ∷ rest) (b ∷ rest') m all =
      let (valid, how) = all.0 in
      (
        (
          elim valid [
            | inl v ↦ inl (sym (ap (λ c. validate c.1 c.2 c.3) m.1) ∙ v)
            | inr blocked ↦ inr (m.3 blocked)
          ],
          λ l. elim (m.2 l) [
            | inr p ↦ inr (inl p)
            | inl l' ↦ elim (how l') [
              | inl free ↦ inl (sym (ap (λ c. c.1) m.1) ∙ free)
              | inr q ↦ inr (inr (subst Q m.0 q))
            ]
          ],
        ),
        kept-IsCovered rest rest' m.4 all.1,
      )
  kept-IsCovered [] (b ∷ rest') m all = elim m [ ]
  kept-IsCovered (a ∷ rest) [] m all = elim m [ ]

  proposal-IsCovered : (a : Action) → IsProposal a → IsCovered Either a
  proposal-IsCovered a (inl blocked) = (inr blocked, λ l. absurd (subst IsLive blocked l))
  proposal-IsCovered a (inr (valid, inl waits)) = (inl valid, λ l. absurd (subst IsLive waits l))
  proposal-IsCovered a (inr (valid, inr (_, free))) = (inl valid, λ l. inl free)

  proposals-IsCovered : (xs : List Action) → All IsProposal xs → All (IsCovered Either) xs
  proposals-IsCovered [] all = tt
  proposals-IsCovered (a ∷ rest) all = (proposal-IsCovered a all.0, proposals-IsCovered rest all.1)

  -- What grows stays covered.
  pub Grows-IsCovered :
      (rows rows' : List Action)
      → Grows P rows rows'
      → All (IsCovered Q) rows
      → All (IsCovered Either) rows'
  Grows-IsCovered rows rows' g all = subst (All (IsCovered Either)) (sym g.shape) (
      All-append (IsCovered Either) g.kept g.added (kept-IsCovered rows g.kept g.lets all)
        (proposals-IsCovered g.added g.proposals))

-- What stands behind a job: the catalog accepts the remediation, which only collects diagnostics, or
-- else `P` holds of its identifier.
abbrev pub IsAuthorised : (String → Type 0) → Action → Type 0
IsAuthorised P b = IsValid b × ((b.action_type ≡ collect_diagnostics) ⊎ P b.id)

pub IsCovered-IsAuthorised :
    (P : String → Type 0) (b : Action) → IsCovered P b → HandedOut b.status → IsAuthorised P b
IsCovered-IsAuthorised P b (valid, how) h =
    let l = HandedOut-IsLive b.status h in
    (elim valid [ inl v ↦ v | inr blocked ↦ absurd (subst IsLive blocked l) ], how l)
