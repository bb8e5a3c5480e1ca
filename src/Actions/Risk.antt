-- ===== src/Actions/Risk.antt =====
-- The risk classes of internal/actions/catalog.go.
use argus.Base.{
  ◌≤◌, String, ◌≡◌, ◌≢◌, refl, ap, true, none, some, List, [], ◌∷◌, arith, Dict, lookup, elem,
  str_eq, str_eq-eq, Bool-cases, Option-cases, ne-str_eq, inl, inr, All, map, ◌⊎◌,
}
use argus.Actions.{
  risks, risk_rank, risk, rank, is_key, effective_risk, is_registered, collect_diagnostics,
}

-- What every entry of a table satisfies, a value that is looked up satisfies.
pub lookup-All {ℓ κ} :
    {V : Type ℓ} (P : String × V → Type κ) (k : String) (m : Dict V) (v : V)
    → All P m
    → lookup k m ≡ some v
    → P (k, v)
unfolding lookup
lookup-All {V} P k [] v all e = cc
lookup-All {V} P k ((j, w) ∷ m) v all e = elim (Bool-cases (str_eq j k)) [
  | inl same ↦
      let w_v = rw same at e in rw (str_eq-eq j k same) at (rw (same_value w v w_v) at all.0)
  | inr differ ↦ lookup-All P k m v all.1 (rw differ at e)
]
  where
    same_value : (w v : V) → some w ≡ some v → w ≡ v
    same_value w v e = cc

abbrev keys {ℓ} : {V : Type ℓ} → Dict V → List String
keys = map (λ e. e.0)

elem-keys {ℓ} : {V : Type ℓ} (k : String) (m : Dict V) → elem k (keys m) ≡ is_key (lookup k m)
unfolding elem lookup
elem-keys k [] = refl
elem-keys k ((j, v) ∷ m) = ground (arith, elem-keys k m)

abbrev pub Class : String × String → Type 0
Class (action, class) = ((class ≡ "low") × (action ≡ collect_diagnostics)) ⊎ (class ≡ "medium")

risks-Class : All Class risks
risks-Class = (
  inl (refl, refl),
  (
    inr refl,
    (
      inr refl,
      (
        inr refl,
        (
          inr refl,
          (
            inr refl,
            (inr refl, (inr refl, (inr refl, (inr refl, (inr refl, (inr refl, (inr refl, tt))))))),
          ),
        ),
      ),
    ),
  ),
)

-- Every registered action has a class, and only the collection of diagnostics is of low risk.
pub risk-Class : (action : String) → is_registered action ≡ true → Class (action, risk action)
unfolding is_registered risk
risk-Class action h = elim (Option-cases (lookup action risks)) [
  | inl unlisted ↦ cc (elem-keys action risks, h, unlisted)
  | inr (class, listed) ↦ rw listed (lookup-All Class action risks class risks-Class listed)
]

rank_empty : (requested : String) → requested ≡ "" → rank requested ≡ 0
unfolding rank lookup str_eq
rank_empty requested e = rw e refl

-- The class that a request ends up with is the stricter of the catalog's and the requested one, and
-- is one of the two; only a requested class that is neither empty nor known is taken as it is.
pub effective_risk-stricter :
    (action requested : String)
    → ((lookup requested risk_rank ≡ none)
        × (requested ≢ "")
        × (effective_risk action requested ≡ requested))
      ⊎ ((rank (risk action) ≤ rank (effective_risk action requested))
          × (rank requested ≤ rank (effective_risk action requested))
          × ((effective_risk action requested ≡ risk action)
              ⊎ (effective_risk action requested ≡ requested)))
unfolding effective_risk
effective_risk-stricter action requested = elim (Bool-cases (str_eq requested "")) [
  | inl empty ↦
      rw (empty, effective_risk)
        (inr (
          omega arith,
          omega (arith, rank_empty requested (str_eq-eq requested "" empty)),
          inl refl,
        ))
  | inr named ↦ elim (Option-cases (lookup requested risk_rank)) [
    | inl unknown ↦
        rw (named, unknown, effective_risk) (inl (refl, ne-str_eq requested "" named, refl))
    | inr (n, known) ↦ rw (named, known, effective_risk) (inr (ground arith))
  ]
]

rank_low : rank "low" ≡ 1
unfolding rank lookup str_eq
rank_low = refl

rank_medium : rank "medium" ≡ 2
unfolding rank lookup str_eq
rank_medium = refl

low_known : lookup "low" risk_rank ≡ some 1
unfolding lookup str_eq
low_known = refl

-- A registered action other than the collection of diagnostics never ends up with low risk,
-- whatever class is requested for it.
pub low_risk_is_diagnostics :
    (action requested : String)
    → is_registered action ≡ true
    → effective_risk action requested ≡ "low"
    → action ≡ collect_diagnostics
low_risk_is_diagnostics action requested h e = elim (risk-Class action h) [
  | inl (_, diagnostics) ↦ diagnostics
  | inr medium_class ↦ elim (effective_risk-stricter action requested) [
    | inl (unknown, _, same) ↦ cc (low_known, unknown, e, same)
    | inr (above, _, _) ↦
        absurd (omega (arith, above, ap rank e, ap rank medium_class, rank_low, rank_medium))
  ]
]
