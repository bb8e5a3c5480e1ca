-- ===== src/Base/Text.antt =====
-- Go's string functions on the characters of a text. The characters that the program tests for are
-- ASCII, for which bytes and characters are one.
use Prim.Native.Nat.{ℕ, ◌+◌}
use Prim.Native.Char.{Char, code}
use Prim.Native.String.{String}
use mathlib.Core.Bool.{Bool, true, false, ◌&&◌, ◌||◌}
use mathlib.Core.List.{List, [], ◌∷◌, reverse}
use argus.Base.Tests.{◌==◌, leb, if◌then◌else◌}

unfoldable pub codes : String → List ℕ
codes String.[] = []
codes (String.◌∷◌ c s) = code c ∷ codes s

unfoldable pub codes_eq : List ℕ → List ℕ → Bool
codes_eq [] [] = true
codes_eq [] (d ∷ t) = false
codes_eq (c ∷ s) [] = false
codes_eq (c ∷ s) (d ∷ t) = c == d && codes_eq s t

-- `strings.HasPrefix`
unfoldable pub has_prefix : List ℕ → List ℕ → Bool
has_prefix s [] = true
has_prefix [] (d ∷ t) = false
has_prefix (c ∷ s) (d ∷ t) = c == d && has_prefix s t

-- `strings.HasSuffix`
unfoldable pub has_suffix : List ℕ → List ℕ → Bool
unfolding has_prefix
has_suffix s t = has_prefix (reverse s) (reverse t)

-- `strings.Count` of one character.
unfoldable pub count_code : ℕ → List ℕ → ℕ
count_code d [] = 0
count_code d (c ∷ s) = (if c == d then 1 else 0) + count_code d s

-- `strings.Contains`
unfoldable pub contains : List ℕ → List ℕ → Bool
unfolding has_prefix
contains [] t = has_prefix [] t
contains (c ∷ s) t = has_prefix (c ∷ s) t || contains s t

-- `strings.Split` at one character: always one part at least.
unfoldable pub split_at : ℕ → List ℕ → List (List ℕ)
split_at d [] = [] ∷ []
split_at d (c ∷ s) =
    let parts = split_at d s in
    if c == d then [] ∷ parts else elim parts [ [] ↦ (c ∷ []) ∷ [] | p ∷ ps ↦ (c ∷ p) ∷ ps ]

-- `strings.TrimSpace`, of the ASCII white space.
unfoldable pub is_space : ℕ → Bool
is_space c = c == 32 || (leb 9 c && leb c 13)

unfoldable pub trim_left : String → String
unfolding is_space
trim_left String.[] = String.[]
trim_left (String.◌∷◌ c s) =
    let rest = trim_left s in if is_space (code c) then rest else String.◌∷◌ c s

abbrev cons_trimmed : Char → String → String
cons_trimmed c String.[] = if is_space (code c) then String.[] else String.◌∷◌ c String.[]
cons_trimmed c (String.◌∷◌ d s) = String.◌∷◌ c (String.◌∷◌ d s)

unfoldable pub trim_right : String → String
unfolding is_space
trim_right String.[] = String.[]
trim_right (String.◌∷◌ c s) = cons_trimmed c (trim_right s)

unfoldable pub trim_space : String → String
unfolding trim_left trim_right
trim_space s = trim_right (trim_left s)

-- `strings.ToLower` and `strings.EqualFold`, of ASCII letters.
unfoldable pub to_lower : ℕ → ℕ
to_lower c = if leb b'A' c && leb c b'Z' then c + 32 else c

unfoldable pub equal_fold : List ℕ → List ℕ → Bool
unfolding to_lower
equal_fold [] [] = true
equal_fold [] (d ∷ t) = false
equal_fold (c ∷ s) [] = false
equal_fold (c ∷ s) (d ∷ t) = to_lower c == to_lower d && equal_fold s t
