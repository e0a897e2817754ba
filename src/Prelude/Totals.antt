-- ===== src/Prelude/Totals.antt =====
-- What a sort keeps of the rows' weights, and what it says of each row.
use Prim.Native.Nat.{ℕ, ◌≤◌}
use mathlib.Core.Path.{◌≡◌, refl}
use mathlib.Core.Bool.{Bool}
use mathlib.Core.List.{List, [], ◌∷◌}
use mathlib.Core.Logic.{inl, inr}
use native.Mathlib.Omega.{arith}
use executr.Prelude.Tests.{Bool-cases}
use executr.Prelude.Lists.{All, keep, total, update}
use executr.Prelude.Sort.{place, sort_by}

module _ {ℓ} {A : Type ℓ} (before : A → A → Bool) where
  module _ (w : A → ℕ) (p : A → Bool) where
    total-place :
        (a : A) (xs : List A) → total w (keep p (place before a xs)) ≡ total w (keep p (a ∷ xs))
    unfolding place keep total
    total-place a [] = refl
    total-place a (x ∷ xs) = ground (arith, total-place a xs)

    pub total-sort_by : (xs : List A) → total w (keep p (sort_by before xs)) ≡ total w (keep p xs)
    unfolding sort_by keep total
    total-sort_by [] = refl
    total-sort_by (x ∷ xs) = ground (arith, total-place x (sort_by before xs), total-sort_by xs)

  module _ {κ} (P : A → Type κ) where
    All-of_place : (a : A) (xs : List A) → All P (place before a xs) → P a × All P xs
    unfolding place
    All-of_place a [] h = h
    All-of_place a (x ∷ xs) h = elim (Bool-cases (before x a)) [
      | inl e ↦
          let h' : All P (x ∷ place before a xs) = rw e at h in
          let (q, rest) = All-of_place a xs h'.1 in (q, (h'.0, rest))
      | inr e ↦ rw e at h
    ]

    pub All-of_sort_by : (xs : List A) → All P (sort_by before xs) → All P xs
    unfolding sort_by
    All-of_sort_by [] h = tt
    All-of_sort_by (x ∷ xs) h =
        let (q, rest) = All-of_place x (sort_by before xs) h in (q, All-of_sort_by xs rest)

module _ {ℓ} {A : Type ℓ} (w : A → ℕ) where
  pub total-keep-le : (p : A → Bool) (xs : List A) → total w (keep p xs) ≤ total w xs
  unfolding keep total
  total-keep-le p [] = omega arith
  total-keep-le p (x ∷ xs) = ground (arith, total-keep-le p xs)

  pub total-update :
      (p : A → Bool) (f : A → A) (xs : List A)
      → ((x : A) → w (f x) ≡ w x)
      → total w (update p f xs) ≡ total w xs
  unfolding update total
  total-update p f [] h = refl
  total-update p f (x ∷ xs) h = ground (arith, h x, total-update p f xs h)
