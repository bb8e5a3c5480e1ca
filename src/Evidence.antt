-- ===== src/Evidence.antt =====
-- Corroboration probes: internal/evidence/evidence.go. A backend that is queried is a function of
-- the query and the time, which stands for the `Querier` of package observability.
pub mod Render
pub mod Observed
use argus.Base.{
  ℕ, suc, ◌+◌, ◌-◌, String, Bool, true, false, not, ◌&&◌, ◌||◌, Option, none, some, List, [], ◌∷◌,
  map, length, Dict, lookup, str_eq, ltb, leb, ◌==◌, codes, contains, trim_space, replace_all,
  if◌then◌else◌,
}
use argus.Base.Int.{ℤ, pos, ltb_ℤ}
use argus.Base.Result.{Result, ok, err, ◌>>=◌}

abbrev pub prometheus : String
prometheus = "prometheus"

abbrev pub loki : String
loki = "loki"

-- `Variable`
abbrev pub variable : String
variable = "{{service}}"

-- A float64: what is finite counts a unit of which all values and thresholds are multiples, as
-- 2^-1074 is one for all finite float64 values; only their order is read.
pub data Float : Type 0 where
  finite : ℤ → Float
  not_a_number infinite : Float

pub data Comparator : Type 0 where
  at_least above at_most below : Comparator
  unknown_comparator : String → Comparator

-- The weight is in units of 1/10000.
pub record Probe : Type 0 where
  pub id : String
  pub backend : String
  pub query : String
  pub comparator : Comparator
  pub threshold : ℤ
  pub weight : ℤ
  pub claim : String
  pub symptom : Bool

pub data Status : Type 0 where
  corroborated refuted no_data unavailable : Status

pub data EvidenceError : Type 0 where
  unsafe_service : String → EvidenceError
  unknown_placeholder : EvidenceError
  not_configured : String → EvidenceError
  query_failed : String → EvidenceError
  no_id no_backend unscoped_query bad_weight no_claim bad_comparator : EvidenceError

-- `Result`, with the fields that are copied from the probe in `probe`.
pub record Outcome : Type 0 where
  pub probe : Probe
  pub query : String
  pub status : Status
  pub value : Option ℤ
  pub error : Option EvidenceError
  pub evaluated_at : ℕ

-- What `Instant` returns: an error, or a value and whether there was a sample.
pub data Answer : Type 0 where
  failed : String → Answer
  sample : Float → Bool → Answer

abbrev pub Querier : Type 0
Querier = String → ℕ → Answer

-- `Collector`: the configured backends.
pub record Collector : Type 0 where
  pub backends : Dict Querier

-- `NewCollector`: a nil querier is not configured.
unfoldable pub configure : Dict (Option Querier) → Dict Querier
configure [] = []
configure ((backend, none) ∷ m) = configure m
configure ((backend, some querier) ∷ m) = (backend, querier) ∷ configure m

unfoldable pub new_collector : Dict (Option Querier) → Collector
unfolding configure
new_collector backends = record { backends = configure backends }

-- `c.backends[backend]`, of a collector that may be nil.
unfoldable pub backend_of : Option Collector → String → Option Querier
backend_of none backend = none
backend_of (some c) backend = lookup backend c.backends

-- `Configured`
unfoldable pub configured : Option Collector → String → Bool
unfolding backend_of
configured c backend = elim (backend_of c backend) [ none ↦ false | some q ↦ true ]

-- `Compare`
unfoldable pub compare_value : ℤ → Comparator → ℤ → Bool
compare_value value at_least threshold = not (ltb_ℤ value threshold)
compare_value value above threshold = ltb_ℤ threshold value
compare_value value at_most threshold = not (ltb_ℤ threshold value)
compare_value value below threshold = ltb_ℤ value threshold
compare_value value (unknown_comparator s) threshold = false

unfoldable pub label_edge : ℕ → Bool
label_edge c = (leb b'a' c && leb c b'z') || (leb b'0' c && leb c b'9')

unfoldable pub label_inner : ℕ → Bool
unfolding label_edge
label_inner c = label_edge c || (c == b'.' || (c == b'_' || c == b'-'))

-- `(?:[a-z0-9._-]{0,61}[a-z0-9])?$`, the bound on the length aside.
unfoldable pub label_tail : List ℕ → Bool
unfolding label_edge label_inner
label_tail [] = true
label_tail (c ∷ []) = label_edge c
label_tail (c ∷ d ∷ s) = label_inner c && label_tail (d ∷ s)

unfoldable pub label_pattern : List ℕ → Bool
unfolding label_tail label_edge
label_pattern [] = false
label_pattern (c ∷ s) = label_edge c && label_tail s

-- `safeLabelValue.MatchString`
unfoldable pub safe_label_value : List ℕ → Bool
unfolding label_pattern
safe_label_value value = leb (length value) 63 && label_pattern value

-- `Render`
unfoldable pub render : String → String → Result EvidenceError String
render template service =
    let rendered = replace_all template variable service in
    if not (safe_label_value (codes service))
    then err (unsafe_service service)
    else if contains (codes rendered) (codes "{{")
    then err unknown_placeholder
    else ok rendered

unfoldable pub unavailable_outcome : Probe → ℕ → String → EvidenceError → Outcome
unavailable_outcome probe at query e = record {
  probe = probe;
  query = query;
  status = unavailable;
  value = none;
  error = some e;
  evaluated_at = at;
}

unfoldable pub answered : Probe → ℕ → String → Status → Option ℤ → Outcome
answered probe at query status value = record {
  probe = probe;
  query = query;
  status = status;
  value = value;
  error = none;
  evaluated_at = at;
}

-- What `runOne` makes of an answer.
unfoldable pub judge : Probe → ℕ → String → Answer → Outcome
unfolding unavailable_outcome answered
judge probe at query (failed message) = unavailable_outcome probe at query (query_failed message)
judge probe at query (sample value false) = answered probe at query no_data none
judge probe at query (sample not_a_number true) = answered probe at query no_data none
judge probe at query (sample infinite true) = answered probe at query no_data none
judge probe at query (sample (finite value) true) =
    answered probe at query
      (if compare_value value probe.comparator probe.threshold then corroborated else refuted)
      (some value)

-- `runOne`
unfoldable pub run_one : Option Collector → Probe → String → ℕ → Outcome
unfolding unavailable_outcome
run_one c probe service at = elim (render probe.query service) [
  | err e ↦ unavailable_outcome probe at probe.query e
  | ok query ↦ elim (backend_of c probe.backend) [
    | none ↦ unavailable_outcome probe at query (not_configured probe.backend)
    | some querier ↦ judge probe at query (querier query at)
  ]
]

-- `Run`: the results stand in the order of the probes, whichever ends first.
unfoldable pub run : Option Collector → List Probe → String → ℕ → List Outcome
run c [] service at = []
run c (probe ∷ probes) service at = run_one c probe service at ∷ run c probes service at

abbrev pub is_known : Comparator → Bool
is_known (unknown_comparator s) = false
is_known _ = true

abbrev error_of : Result EvidenceError String → Option EvidenceError
error_of (ok s) = none
error_of (err e) = some e

-- `ValidateProbe`; nil is none.
unfoldable pub validate_probe : Probe → Option EvidenceError
validate_probe probe =
    if str_eq (trim_space probe.id) ""
    then some no_id
    else if not (str_eq probe.backend prometheus) && not (str_eq probe.backend loki)
    then some no_backend
    else if not (contains (codes probe.query) (codes variable))
    then some unscoped_query
    else if not (ltb_ℤ (pos 0) probe.weight) || ltb_ℤ (pos 5000) probe.weight
    then some bad_weight
    else if str_eq (trim_space probe.claim) ""
    then some no_claim
    else if not (is_known probe.comparator)
    then some bad_comparator
    else error_of (render probe.query "probe-check")
