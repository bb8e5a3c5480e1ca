-- ===== src/Evidence/Observed.antt =====
-- When a probe of internal/evidence/evidence.go counts as evidence.
use argus.Base.{
  ℕ, String, ◌≡◌, ◌≢◌, ◌↔◌, sym, ap, ◌∙◌, refl, Bool, true, false, Option, some, arith,
  Option-cases, inl, inr,
}
use argus.Base.Int.{ℤ}
use argus.Base.Result.{ok, Result-cases}
use argus.Evidence.{
  finite, Probe, Status, corroborated, refuted, no_data, unavailable, Answer, failed, sample,
  Querier, Collector, backend_of, compare_value, render, judge, run_one, not_a_number, infinite,
}

-- A backend that is configured answered the rendered query with a finite value.
pub record IsObserved (c : Option Collector) (probe : Probe) (service : String) (at : ℕ) (value : ℤ)
    : Type 0 where
  pub query : String
  pub querier : Querier
  pub rendered : render probe.query service ≡ ok query
  pub configured : backend_of c probe.backend ≡ some querier
  pub answered : querier query at ≡ sample (finite value) true

abbrev pub verdict : Bool → Status
verdict true = corroborated
verdict false = refuted

verdict-injective : (a b : Bool) → verdict a ≡ verdict b → a ≡ b
verdict-injective true true e = refl
verdict-injective false false e = refl
verdict-injective true false e = cc
verdict-injective false true e = cc

verdict-ne-no_data : (b : Bool) → no_data ≢ verdict b
verdict-ne-no_data true e = cc
verdict-ne-no_data false e = cc

verdict-ne-unavailable : (b : Bool) → unavailable ≢ verdict b
verdict-ne-unavailable true e = cc
verdict-ne-unavailable false e = cc

-- What `runOne` computes after the query, as the verdict of the comparison.
judge-finite :
    (probe : Probe) (at : ℕ) (query : String) (value : ℤ)
    → (judge probe at query (sample (finite value) true)).status
      ≡ verdict (compare_value value probe.comparator probe.threshold)
unfolding judge
judge-finite probe at query value = ground arith

judge-verdict :
    (probe : Probe) (at : ℕ) (query : String) (answer : Answer) (b : Bool)
    → (judge probe at query answer).status ≡ verdict b
    → (value : ℤ) × (answer ≡ sample (finite value) true)
      × (compare_value value probe.comparator probe.threshold ≡ b)
unfolding judge
judge-verdict probe at query (failed message) b h = absurd (verdict-ne-unavailable b h)
judge-verdict probe at query (sample value false) b h = absurd (verdict-ne-no_data b h)
judge-verdict probe at query (sample not_a_number true) b h = absurd (verdict-ne-no_data b h)
judge-verdict probe at query (sample infinite true) b h = absurd (verdict-ne-no_data b h)
judge-verdict probe at query (sample (finite value) true) b h = (
  value,
  refl,
  verdict-injective (compare_value value probe.comparator probe.threshold) b
      (sym (judge-finite probe at query value) ∙ h),
)

module _ (c : Option Collector) (probe : Probe) (service : String) (at : ℕ) where
  observed :
      (b : Bool)
      → (run_one c probe service at).status ≡ verdict b
      → (value : ℤ) × IsObserved c probe service at value
        × (compare_value value probe.comparator probe.threshold ≡ b)
  unfolding run_one
  observed b h = elim (Result-cases (render probe.query service)) [
    | inr (e, r) ↦ absurd (verdict-ne-unavailable b (rw (r, run_one) at h))
    | inl (query, r) ↦ elim (Option-cases (backend_of c probe.backend)) [
      | inl absent ↦ absurd (verdict-ne-unavailable b (rw (r, absent, run_one) at h))
      | inr (querier, present) ↦
          let (value, answer, compared) =
            judge-verdict probe at query (querier query at) b (rw (r, present, run_one) at h) in
          (
            value,
            record {
              query = query;
              querier = querier;
              rendered = r;
              configured = present;
              answered = answer;
            },
            compared,
          )
    ]
  ]

  concluded :
      (b : Bool) (value : ℤ)
      → IsObserved c probe service at value
      → compare_value value probe.comparator probe.threshold ≡ b
      → (run_one c probe service at).status ≡ verdict b
  unfolding run_one
  concluded b value o compared =
      rw (o.rendered, o.configured, o.answered, run_one)
        (judge-finite probe at o.query value ∙ ap verdict compared)

  -- A probe is evidence only of what was observed: `runOne` reports corroborated (or refuted)
  -- exactly when a configured backend answered the safely rendered query with a finite sample for
  -- which the comparison holds (or does not).
  pub run_one-verdict_iff :
      (b : Bool)
      → ((run_one c probe service at).status ≡ verdict b) ↔ (
          (value : ℤ) × IsObserved c probe service at value
          × (compare_value value probe.comparator probe.threshold ≡ b))
  run_one-verdict_iff b = (observed b, λ o. concluded b o.0 o.1 o.2)
