-- ===== src/Prelude/Sort.antt =====
-- ORDER BY and sort.Slice: a stable insertion sort by a Boolean "comes strictly before".
use Prim.Native.Nat.{ℕ, suc}
use mathlib.Core.Path.{◌≡◌, refl, ap, ◌∙◌}
use mathlib.Core.Bool.{Bool, true, false}
use mathlib.Core.List.{List, [], ◌∷◌}
use mathlib.Core.Logic.{inl, inr}
use native.Mathlib.Omega.{arith}
use executr.Prelude.Tests.{if◌then◌else◌, Bool-cases, ltb, ◌==◌}
use executr.Prelude.Lists.{All, length, any, keep}

-- ORDER BY a rank, then an instant.
abbrev pub lex_before : ℕ → ℕ → ℕ → ℕ → Bool
lex_before r t r' t' = if ltb r r' then true else if r == r' then ltb t t' else false

pub lex_before_irrefl : (r t : ℕ) → lex_before r t r t ≡ false
lex_before_irrefl r t = ground arith

pub lex_before-asym : (r t r' t' : ℕ) → lex_before r t r' t' ≡ true → lex_before r' t' r t ≡ false
lex_before-asym r t r' t' h = ground arith

-- If `b` is not before `a` and `c` not before `b`, then `c` is not before `a`.
pub lex_before-chain :
    (ra ta rb tb rc tc : ℕ)
    → lex_before rb tb ra ta ≡ false
    → lex_before rc tc rb tb ≡ false
    → lex_before rc tc ra ta ≡ false
lex_before-chain ra ta rb tb rc tc h k = ground arith

module _ {ℓ} {A : Type ℓ} (before : A → A → Bool) where
  unfoldable pub place : A → List A → List A
  place a [] = a ∷ []
  place a (x ∷ xs) = if before x a then x ∷ place a xs else a ∷ x ∷ xs

  unfoldable pub sort_by : List A → List A
  unfolding place
  sort_by [] = []
  sort_by (x ∷ xs) = place x (sort_by xs)

  -- No element comes strictly before one that stands to its left.
  abbrev pub IsSorted : List A → Type ℓ
  IsSorted [] = Unit
  IsSorted (x ∷ xs) = All (λ y. before y x ≡ false) xs × IsSorted xs

  pub length-place : (a : A) (xs : List A) → length (place a xs) ≡ suc (length xs)
  unfolding place
  length-place a [] = refl
  length-place a (x ∷ xs) = ground (arith, length-place a xs)

  pub length-sort_by : (xs : List A) → length (sort_by xs) ≡ length xs
  unfolding sort_by
  length-sort_by [] = refl
  length-sort_by (x ∷ xs) = length-place x (sort_by xs) ∙ ap suc (length-sort_by xs)

  module _ {κ} (P : A → Type κ) where
    All-place : (a : A) (xs : List A) → P a → All P xs → All P (place a xs)
    unfolding place
    All-place a [] h t = (h, tt)
    All-place a (x ∷ xs) h t = elim (Bool-cases (before x a)) [
      | inl e ↦ rw e (t.0, All-place a xs h t.1)
      | inr e ↦ rw e (h, t)
    ]

    pub All-sort_by : (xs : List A) → All P xs → All P (sort_by xs)
    unfolding sort_by
    All-sort_by [] h = tt
    All-sort_by (x ∷ xs) h = All-place x (sort_by xs) h.0 (All-sort_by xs h.1)

  module _ (p : A → Bool) where
    any-place : (a : A) (xs : List A) → any p (place a xs) ≡ any p (a ∷ xs)
    unfolding place any
    any-place a [] = refl
    any-place a (x ∷ xs) = ground (arith, any-place a xs)

    -- A sort keeps what a search finds, and how many rows pass a test.
    pub any-sort_by : (xs : List A) → any p (sort_by xs) ≡ any p xs
    unfolding sort_by any
    any-sort_by [] = refl
    any-sort_by (x ∷ xs) = ground (arith, any-place x (sort_by xs), any-sort_by xs)

    count-place : (a : A) (xs : List A) → length (keep p (place a xs)) ≡ length (keep p (a ∷ xs))
    unfolding place keep
    count-place a [] = refl
    count-place a (x ∷ xs) = ground (arith, count-place a xs)

    pub count-sort_by : (xs : List A) → length (keep p (sort_by xs)) ≡ length (keep p xs)
    unfolding sort_by keep
    count-sort_by [] = refl
    count-sort_by (x ∷ xs) = ground (arith, count-place x (sort_by xs), count-sort_by xs)

  -- The order's laws: irreflexive on two sides, and transitive on its negation.
  pub record IsOrder : Type ℓ where
    pub asym : (a b : A) → before a b ≡ true → before b a ≡ false
    pub chain : (a b c : A) → before b a ≡ false → before c b ≡ false → before c a ≡ false

  module _ (o : IsOrder) where
    All-chain :
        (a x : A) (xs : List A)
        → before x a ≡ false
        → All (λ y. before y x ≡ false) xs
        → All (λ y. before y a ≡ false) xs
    All-chain a x [] h t = tt
    All-chain a x (y ∷ ys) h t = (o.chain a x y h t.0, All-chain a x ys h t.1)

    place-IsSorted : (a : A) (xs : List A) → IsSorted xs → IsSorted (place a xs)
    unfolding place
    place-IsSorted a [] s = (tt, tt)
    place-IsSorted a (x ∷ xs) s = elim (Bool-cases (before x a)) [
      | inl e ↦
          rw e
            (All-place (λ y. before y x ≡ false) a xs (o.asym x a e) s.0, place-IsSorted a xs s.1)
      | inr e ↦ rw e ((e, All-chain a x xs e s.0), s)
    ]

    pub sort_by-IsSorted : (xs : List A) → IsSorted (sort_by xs)
    unfolding sort_by
    sort_by-IsSorted [] = tt
    sort_by-IsSorted (x ∷ xs) = place-IsSorted x (sort_by xs) (sort_by-IsSorted xs)
