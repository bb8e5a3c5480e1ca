-- ===== src/Base/Replace.antt =====
-- `strings.ReplaceAll`, and what it adds.
use Prim.Native.Nat.{ℕ, zero, suc, ◌+◌, ◌-◌, ◌<◌}
use Prim.Native.Char.{code}
use Prim.Native.String.{String}
use Prim.Native.String
use mathlib.Core.Path.{◌≡◌, refl, ap}
use mathlib.Core.Bool.{true}
use mathlib.Core.Logic.{inl, inr}
use mathlib.Core.List.{List, [], ◌∷◌}
use native.Mathlib.Omega.{arith}
use text.Mathlib.TextLemmas.{nil-append, cons-append}
use argus.Base.Tests.{if◌then◌else◌, Bool-cases}
use argus.Base.Lists.{length, take}
use argus.Base.Text.{codes, has_prefix, count_code}

-- The text from here on, of which the first characters were replaced already.
unfoldable pub replace_from : ℕ → String → String → String → String
unfolding codes has_prefix
replace_from skip old new String.[] = String.[]
replace_from (suc skip) old new (String.◌∷◌ c s) = replace_from skip old new s
replace_from zero old new (String.◌∷◌ c s) =
    let kept = replace_from zero old new s in
    let replaced = replace_from (length (codes old) - 1) old new s in
    if has_prefix (code c ∷ codes s) (codes old)
    then String.◌++◌ new replaced
    else String.◌∷◌ c kept

-- `strings.ReplaceAll`, of a text that is not empty.
unfoldable pub replace_all : String → String → String → String
unfolding replace_from
replace_all s old new = replace_from 0 old new s

module _ (d : ℕ) where
  count_code-append :
      (s t : String)
      → count_code d (codes (String.◌++◌ s t)) ≡ count_code d (codes s) + count_code d (codes t)
  unfolding count_code codes
  count_code-append String.[] t = omega (arith, ap (λ u. count_code d (codes u)) (nil-append t))
  count_code-append (String.◌∷◌ c s) t = rw cons-append (omega (arith, count_code-append s t))

  count_code-prefix :
      (s t : List ℕ) → has_prefix s t ≡ true → count_code d (take (length t) s) ≡ count_code d t
  unfolding has_prefix count_code
  count_code-prefix s [] h = refl
  count_code-prefix [] (c ∷ t) h = cc
  count_code-prefix (b ∷ s) (c ∷ t) h = ground (arith, count_code-prefix s t)

  count_code-matched :
      (c : ℕ) (s t : List ℕ)
      → 0 < length t
      → has_prefix (c ∷ s) t ≡ true
      → count_code d t ≡ 0
      → (count_code d (c ∷ s) ≡ count_code d s) × (count_code d (take (length t - 1) s) ≡ 0)
  unfolding has_prefix count_code
  count_code-matched c s [] lt h n = absurd (omega (arith, lt))
  count_code-matched c s (e ∷ t) lt h n = (ground arith, ground (arith, count_code-prefix s t))

  -- A replacement that brings no d in and takes none out keeps their number.
  pub count_code-replace_from :
      (old new : String)
      → 0 < length (codes old)
      → count_code d (codes old) ≡ 0
      → count_code d (codes new) ≡ 0
      → (skip : ℕ) (s : String) → count_code d (take skip (codes s)) ≡ 0
      → count_code d (codes (replace_from skip old new s)) ≡ count_code d (codes s)
  unfolding replace_from count_code codes
  count_code-replace_from old new lt o n skip String.[] h = refl
  count_code-replace_from old new lt o n (suc skip) (String.◌∷◌ c s) h =
      omega (arith, count_code-replace_from old new lt o n skip s (omega (arith, h)), h)
  count_code-replace_from old new lt o n zero (String.◌∷◌ c s) h =
      elim (Bool-cases (has_prefix (code c ∷ codes s) (codes old))) [
        | inr differs ↦
            rw differs (omega (arith, count_code-replace_from old new lt o n zero s refl))
        | inl found ↦
            let (same, none_in) = count_code-matched (code c) (codes s) (codes old) lt found o in
            let after = length (codes old) - 1 in
            rw found (
              omega (
                arith,
                same,
                count_code-append new (replace_from after old new s),
                count_code-replace_from old new lt o n after s none_in,
              ))
      ]
