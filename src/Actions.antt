-- ===== src/Actions.antt =====
-- The action catalog: internal/actions/catalog.go.
mod Names
pub use Names.*
pub mod Risk
use argus.Base.{
  ℕ, suc, ◌+◌, ◌-◌, ◌^◌, ◌<◌, String, Bool, true, false, not, ◌&&◌, ◌||◌, Option, none, some, List,
  [], ◌∷◌, length, Dict, lookup, elem, str_eq, ltb, leb, ◌==◌, codes, codes_eq, has_prefix,
  has_suffix, count_code, split_at, if◌then◌else◌,
}
use argus.Base.Int.{ℤ, pos, negsuc, ltb_ℤ}

-- A missing key reads as the zero value.
abbrev pub get_or {ℓ} : {V : Type ℓ} → Option V → V → V
get_or none d = d
get_or (some v) d = v

-- `Risk`
unfoldable pub risk : String → String
risk action = get_or (lookup action risks) ""

unfoldable pub rank : String → ℕ
rank r = get_or (lookup r risk_rank) 0

abbrev pub is_key {ℓ} : {V : Type ℓ} → Option V → Bool
is_key none = false
is_key (some v) = true

-- `EffectiveRisk`
unfoldable pub effective_risk : String → String → String
effective_risk action requested =
    let catalog = risk action in
    if str_eq requested ""
    then catalog
    else if not (is_key (lookup requested risk_rank))
    then requested
    else if ltb (rank requested) (rank catalog)
    then catalog
    else requested

-- `IsRegistered`
unfoldable pub is_registered : String → Bool
is_registered action = elem action registered

-- A float64 that is a whole number, or another one (with a fraction, infinite, or not a number).
pub data Float : Type 0 where
  whole : ℤ → Float
  fraction : Float

-- What `map[string]any` holds. A json.Number is given by what its `Int64` returns.
pub data Value : Type 0 where
  int int32 int64 : ℤ → Value
  float64 : Float → Value
  json_number : Option ℤ → Value
  bool : Bool → Value
  text : String → Value
  other : Value

-- The float64 nearest to math.MaxInt is 2^63; converted to int it is the least integer.
abbrev pub float_to_int : ℤ → ℤ
float_to_int (pos n) = if n == 2 ^ 63 then negsuc (2 ^ 63 - 1) else pos n
float_to_int (negsuc n) = negsuc n

-- `Integer`
unfoldable pub integer : Value → Option ℤ
integer (int n) = some n
integer (int32 n) = some n
integer (int64 n) = some n
integer (float64 (whole n)) =
    if not (ltb_ℤ n (negsuc (2 ^ 63 - 1))) && not (ltb_ℤ (pos (2 ^ 63)) n)
    then some (float_to_int n)
    else none
integer (float64 fraction) = none
integer (json_number n) = n
integer (bool b) = none
integer (text s) = none
integer other = none

pub data ActionError : Type 0 where
  wrong_keys : List String → ActionError
  missing_key : String → ActionError
  bad_pod_target bad_pool_target bad_pool_size flag_not_listed flag_not_bool : ActionError
  bad_cache_target bad_max_keys bad_redis_target : ActionError

unfoldable pub missing : Dict Value → List String → Option ActionError
missing parameters [] = none
missing parameters (key ∷ keys) =
    let rest = missing parameters keys in
    if is_key (lookup key parameters) then rest else some (missing_key key)

-- `validateKeys`; nil is none.
unfoldable pub validate_keys : Dict Value → List String → Option ActionError
unfolding missing
validate_keys parameters required =
    if not (length parameters == length required)
    then some (wrong_keys required)
    else missing parameters required

unfoldable pub alphanumeric : ℕ → Bool
alphanumeric c = (leb b'a' c && leb c b'z') || (leb b'0' c && leb c b'9')

-- `(?:[-a-z0-9]*[a-z0-9])?$`
unfoldable pub dns_tail : List ℕ → Bool
unfolding alphanumeric
dns_tail [] = true
dns_tail (c ∷ []) = alphanumeric c
dns_tail (c ∷ d ∷ s) = (alphanumeric c || c == b'-') && dns_tail (d ∷ s)

unfoldable pub dns_label_pattern : List ℕ → Bool
unfolding dns_tail alphanumeric
dns_label_pattern [] = false
dns_label_pattern (c ∷ s) = alphanumeric c && dns_tail s

-- `validDNSLabel`
unfoldable pub valid_dns_label : List ℕ → Bool
unfolding dns_label_pattern
valid_dns_label value = leb (length value) 63 && dns_label_pattern value

-- `len(strings.TrimSuffix(target, "*"))`
abbrev trimmed_length : List ℕ → ℕ
trimmed_length target = if has_suffix target (codes "*") then length target - 1 else length target

-- `validateCachePrefix`
unfoldable pub validate_cache_prefix : List ℕ → Option ActionError
validate_cache_prefix target =
    if not (has_prefix target (codes "demo:"))
      || (not (has_suffix target (codes ":*"))
          || (not (count_code b'*' target == 1) || ltb (trimmed_length target) 7))
    then some bad_cache_target
    else none

-- `parts[0]` is local or demo, there are two parts and the other is a label.
unfoldable pub valid_pod_parts : List (List ℕ) → Bool
unfolding valid_dns_label
valid_pod_parts (namespace ∷ pod ∷ []) =
    (codes_eq namespace (codes "local") || codes_eq namespace (codes "demo")) && valid_dns_label pod
valid_pod_parts _ = false

-- `n, ok := Integer(v); !ok || n < lo || n > hi`
abbrev pub outside : ℕ → ℕ → Option ℤ → Bool
outside lo hi none = true
outside lo hi (some n) = ltb_ℤ n (pos lo) || ltb_ℤ (pos hi) n

unfoldable pub parameter : Dict Value → String → Value
parameter parameters key = get_or (lookup key parameters) other

abbrev is_bool : Value → Bool
is_bool (bool b) = true
is_bool _ = false

-- Go's `if err := a; err != nil { return err }` and then b.
infixr 5 ◌then_check◌
abbrev pub ◌then_check◌ : Option ActionError → Option ActionError → Option ActionError
none then_check b = b
(some e) then_check b = some e

abbrev pub fail_if : Bool → ActionError → Option ActionError
fail_if true e = some e
fail_if false e = none

-- `Validate`; nil is none.
unfoldable pub validate : String → String → Dict Value → Option ActionError
validate action target parameters =
    if str_eq action restart_pod
    then validate_keys parameters []
      then_check fail_if (not (valid_pod_parts (split_at b'/' (codes target)))) bad_pod_target
    else if str_eq action resize_connection_pool
    then fail_if (not (valid_dns_label (codes target))) bad_pool_target
      then_check validate_keys parameters ("size" ∷ [])
      then_check fail_if (outside 2 50 (integer (parameter parameters "size"))) bad_pool_size
    else if str_eq action toggle_feature_flag
    then fail_if (not (elem target allowed_flags)) flag_not_listed
      then_check validate_keys parameters ("enabled" ∷ [])
      then_check fail_if (not (is_bool (parameter parameters "enabled"))) flag_not_bool
    else if str_eq action purge_cache
    then validate_cache_prefix (codes target)
      then_check validate_keys parameters ("max_keys" ∷ [])
      then_check fail_if (outside 1 1000 (integer (parameter parameters "max_keys"))) bad_max_keys
    else if str_eq action clear_redis_keyspace
    then fail_if (not (has_prefix (codes target) (codes "demo:pressure:"))) bad_redis_target
    else none
