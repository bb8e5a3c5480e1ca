-- ===== src/Jobs/Batches.antt =====
-- The beginning of a sorted list, as `ORDER BY` and `LIMIT` give it.
use argus.Base.{ℕ, zero, suc, ◌≡◌, ◌⊎◌, refl, ap, List, [], ◌∷◌, length, take, All, inl, inr}
use mathlib.Core.Path.{subst}

-- An element of a list.
abbrev pub Among : {A : Type 0} → A → List A → Type 0
Among a [] = ⊥
Among a (x ∷ rest) = (x ≡ a) ⊎ Among a rest

pub All-Among : {A : Type 0} (P : A → Type 0) (l : List A) (a : A) → All P l → Among a l → P a
All-Among P [] a all m = elim m [ ]
All-Among P (x ∷ l) a all (inl e) = subst P e all.0
All-Among P (x ∷ l) a all (inr m) = All-Among P l a all.1 m

module _ {A : Type 0} (R : A → A → Type 0) where
  -- Every element is related to all later ones.
  abbrev pub InOrder : List A → Type 0
  InOrder [] = Unit
  InOrder (x ∷ l) = All (R x) l × InOrder l

  -- An element is among the first n, or these are n, and each comes before it.
  pub take-Among :
      (n : ℕ) (l : List A) (a : A)
      → InOrder l
      → Among a l
      → Among a (take n l) ⊎ ((length (take n l) ≡ n) × All (λ b. R b a) (take n l))
  take-Among zero l a o m = inr (refl, tt)
  take-Among (suc n) [] a o m = elim m [ ]
  take-Among (suc n) (x ∷ l) a o (inl e) = inl (inl e)
  take-Among (suc n) (x ∷ l) a o (inr m) = elim (take-Among n l a o.1 m) [
    | inl early ↦ inl (inr early)
    | inr full ↦ inr (ap suc full.0, (All-Among (R x) l a o.0 m, full.1))
  ]
