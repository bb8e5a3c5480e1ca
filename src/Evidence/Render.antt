-- ===== src/Evidence/Render.antt =====
-- What `Render` of internal/evidence/evidence.go lets into a query.
use argus.Base.{
  ℕ, ◌<◌, String, ◌≡◌, refl, true, false, List, [], ◌∷◌, arith, length, ◌==◌, codes, contains,
  count_code, replace_all, count_code-replace_from,
}
use argus.Base.Result.{ok}
use argus.Evidence.{
  variable, label_edge, label_inner, label_tail, label_pattern, safe_label_value, render,
}

-- A character that no safe label value has.
abbrev pub IsForbidden : ℕ → Type 0
IsForbidden d = label_inner d ≡ false

module _ (d : ℕ) where
  edge_is_inner : (c : ℕ) → label_edge c ≡ true → label_inner c ≡ true
  unfolding label_inner
  edge_is_inner c h = ground arith

  other_code : (c : ℕ) → IsForbidden d → label_inner c ≡ true → (c == d) ≡ false
  other_code c f h = ground arith

  label_tail-count : (s : List ℕ) → IsForbidden d → label_tail s ≡ true → count_code d s ≡ 0
  unfolding label_tail count_code
  label_tail-count [] f h = refl
  label_tail-count (c ∷ []) f h = ground (arith, edge_is_inner c, other_code c f)
  label_tail-count (c ∷ e ∷ s) f h = ground (arith, other_code c f, label_tail-count (e ∷ s) f)

  label_pattern-count : (s : List ℕ) → IsForbidden d → label_pattern s ≡ true → count_code d s ≡ 0
  unfolding label_pattern count_code
  label_pattern-count [] f h = cc
  label_pattern-count (c ∷ s) f h =
      ground (arith, edge_is_inner c, other_code c f, label_tail-count s f)

safe_label-pattern : (s : List ℕ) → safe_label_value s ≡ true → label_pattern s ≡ true
unfolding safe_label_value
safe_label-pattern s h = ground arith

variable-length : 0 < length (codes variable)
unfolding codes
variable-length = omega arith

render-ok :
    (template service query : String)
    → render template service ≡ ok query
    → (safe_label_value (codes service) ≡ true)
      × (contains (codes query) (codes "{{") ≡ false)
      × (query ≡ replace_all template variable service)
unfolding render
render-ok template service query h = ground arith

-- A service name cannot inject into a query: `Render` succeeds only for a safe label value, it
-- leaves no placeholder, and every character outside [a-z0-9._-] that the placeholder does not have,
-- such as a quote, occurs in the query as often as in the template.
pub render_safe :
    (template service query : String) (d : ℕ)
    → render template service ≡ ok query
    → IsForbidden d
    → count_code d (codes variable) ≡ 0
    → (safe_label_value (codes service) ≡ true)
      × (contains (codes query) (codes "{{") ≡ false)
      × (count_code d (codes query) ≡ count_code d (codes template))
unfolding replace_all count_code
render_safe template service query d h f absent =
    let (safe, closed, is_query) = render-ok template service query h in
    (
      safe,
      closed,
      rw is_query (
          count_code-replace_from d variable service variable-length absent
            (label_pattern-count d (codes service) f (safe_label-pattern (codes service) safe)) 0
            template refl),
    )
