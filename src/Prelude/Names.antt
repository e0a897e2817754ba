-- ===== src/Prelude/Names.antt =====
-- Lists in which no two elements have the same name.
use mathlib.Core.Path.{◌≡◌}
use mathlib.Core.Bool.{Bool, true, false}
use mathlib.Core.List.{List, [], ◌∷◌}
use mathlib.Core.Logic.{inl, inr}
use native.Mathlib.Omega.{arith}
use Prim.Native.String.{String}
use text.Mathlib.Text.{◌==◌ as str_eq}
use text.Mathlib.TextEquality.{eq_iff}
use executr.Prelude.Tests.{Bool-cases}
use executr.Prelude.Lists.{All, keep, update}
use executr.Prelude.Rows.{All-keep}
use executr.Prelude.Sort.{place, sort_by, All-sort_by}

pub str_eq_refl : (s : String) → str_eq s s ≡ true
str_eq_refl s = ground (arith, eq_iff s s)

pub str_ne_sym : (s t : String) → str_eq s t ≡ false → str_eq t s ≡ false
str_ne_sym s t h = ground (arith, eq_iff s t, eq_iff t s)

module _ {ℓ} {A : Type ℓ} (key : A → String) where
  -- No element has the name `k`.
  abbrev pub Unnamed : String → List A → Type 0
  Unnamed k xs = All (λ y. str_eq (key y) k ≡ false) xs

  abbrev pub DistinctNames : List A → Type 0
  DistinctNames [] = Unit
  DistinctNames (x ∷ xs) = Unnamed (key x) xs × DistinctNames xs

  pub DistinctNames-keep :
      (p : A → Bool) (xs : List A) → DistinctNames xs → DistinctNames (keep p xs)
  unfolding keep
  DistinctNames-keep p [] d = tt
  DistinctNames-keep p (x ∷ xs) d = elim (Bool-cases (p x)) [
    | inl e ↦
        rw e (All-keep (λ y. str_eq (key y) (key x) ≡ false) p xs d.0, DistinctNames-keep p xs d.1)
    | inr e ↦ rw e (DistinctNames-keep p xs d.1)
  ]

  -- The elements of other names.
  pub Unnamed-keep :
      (p : A → Bool) (k : String) (xs : List A)
      → ((x : A) → p x ≡ true → str_eq (key x) k ≡ false)
      → Unnamed k (keep p xs)
  unfolding keep
  Unnamed-keep p k [] h = tt
  Unnamed-keep p k (x ∷ xs) h = elim (Bool-cases (p x)) [
    | inl e ↦ rw e (h x e, Unnamed-keep p k xs h)
    | inr e ↦ rw e (Unnamed-keep p k xs h)
  ]

  module _ (w : A → Bool) (f : A → A) (same : (x : A) → key (f x) ≡ key x) where
    Unnamed-update : (k : String) (xs : List A) → Unnamed k xs → Unnamed k (update w f xs)
    unfolding update
    Unnamed-update k [] h = tt
    Unnamed-update k (x ∷ xs) h = elim (Bool-cases (w x)) [
      | inl e ↦ rw (e, same x) (h.0, Unnamed-update k xs h.1)
      | inr e ↦ rw e (h.0, Unnamed-update k xs h.1)
    ]

    pub DistinctNames-update : (xs : List A) → DistinctNames xs → DistinctNames (update w f xs)
    unfolding update
    DistinctNames-update [] d = tt
    DistinctNames-update (x ∷ xs) d = elim (Bool-cases (w x)) [
      | inl e ↦ rw (e, same x) (Unnamed-update (key x) xs d.0, DistinctNames-update xs d.1)
      | inr e ↦ rw e (Unnamed-update (key x) xs d.0, DistinctNames-update xs d.1)
    ]

  module _ (before : A → A → Bool) where
    Unnamed-place :
        (k : String) (a : A) (xs : List A)
        → str_eq (key a) k ≡ false
        → Unnamed k xs
        → Unnamed k (place before a xs)
    unfolding place
    Unnamed-place k a [] h u = (h, tt)
    Unnamed-place k a (x ∷ xs) h u = elim (Bool-cases (before x a)) [
      | inl e ↦ rw e (u.0, Unnamed-place k a xs h u.1)
      | inr e ↦ rw e (h, u)
    ]

    DistinctNames-place :
        (a : A) (xs : List A)
        → Unnamed (key a) xs
        → DistinctNames xs
        → DistinctNames (place before a xs)
    unfolding place
    DistinctNames-place a [] u d = (tt, tt)
    DistinctNames-place a (x ∷ xs) u d = elim (Bool-cases (before x a)) [
      | inl e ↦ rw e (
        Unnamed-place (key x) a xs (str_ne_sym (key x) (key a) u.0) d.0,
        DistinctNames-place a xs u.1 d.1,
      )
      | inr e ↦ rw e (u, d)
    ]

    pub DistinctNames-sort_by : (xs : List A) → DistinctNames xs → DistinctNames (sort_by before xs)
    unfolding sort_by
    DistinctNames-sort_by [] d = tt
    DistinctNames-sort_by (x ∷ xs) d =
        DistinctNames-place x (sort_by before xs)
          (All-sort_by before (λ y. str_eq (key y) (key x) ≡ false) xs d.0)
          (DistinctNames-sort_by xs d.1)
