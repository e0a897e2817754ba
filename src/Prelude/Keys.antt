-- ===== src/Prelude/Keys.antt =====
-- Tables with a primary key: no two rows share it, and what a search by key finds after a
-- deletion.
use Prim.Native.Nat.{ℕ, suc}
use mathlib.Core.Path.{subst}
use mathlib.Core.Path.{◌≡◌, refl}
use mathlib.Core.Bool.{Bool, true, false, not, ◌||◌}
use mathlib.Core.List.{List, [], ◌∷◌}
use mathlib.Core.Logic.{inl, inr}
use mathlib.Core.Option.{none, some}
use native.Mathlib.Omega.{arith}
use executr.Prelude.Tests.{if◌then◌else◌, Bool-cases, ◌==◌, ==_iff}
use executr.Prelude.Lists.{All, keep, find, any, update, length}
use executr.Prelude.Rows.{All-keep, find-none, update_none}

module _ {ℓ} {A : Type ℓ} (key : A → ℕ) where
  abbrev pub Distinct : List A → Type 0
  Distinct [] = Unit
  Distinct (x ∷ xs) = All (λ y. (key y == key x) ≡ false) xs × Distinct xs

  pub All-ne_of_any :
      (k : ℕ) (xs : List A) → any (λ y. key y == k) xs ≡ false → All (λ y. (key y == k) ≡ false) xs
  unfolding any
  All-ne_of_any k [] h = tt
  All-ne_of_any k (x ∷ xs) h = (ground arith, All-ne_of_any k xs (ground arith))

  pub any_of_All-ne :
      (k : ℕ) (xs : List A) → All (λ y. (key y == k) ≡ false) xs → any (λ y. key y == k) xs ≡ false
  unfolding any
  any_of_All-ne k [] h = refl
  any_of_All-ne k (x ∷ xs) h = rw h.0 (any_of_All-ne k xs h.1)

  pub Distinct-keep : (p : A → Bool) (xs : List A) → Distinct xs → Distinct (keep p xs)
  unfolding keep
  Distinct-keep p [] d = tt
  Distinct-keep p (x ∷ xs) d = elim (Bool-cases (p x)) [
    | inl e ↦ rw e (All-keep (λ y. (key y == key x) ≡ false) p xs d.0, Distinct-keep p xs d.1)
    | inr e ↦ rw e (Distinct-keep p xs d.1)
  ]

  module _ (w : A → Bool) (f : A → A) (same : (x : A) → key (f x) ≡ key x) where
    All-ne-update :
        (k : ℕ) (xs : List A)
        → All (λ y. (key y == k) ≡ false) xs
        → All (λ y. (key y == k) ≡ false) (update w f xs)
    unfolding update
    All-ne-update k [] h = tt
    All-ne-update k (x ∷ xs) h = (ground (arith, same x, h.0), All-ne-update k xs h.1)

    pub Distinct-update : (xs : List A) → Distinct xs → Distinct (update w f xs)
    unfolding update
    Distinct-update [] d = tt
    Distinct-update (x ∷ xs) d = elim (Bool-cases (w x)) [
      | inl e ↦ rw (e, same x) (All-ne-update (key x) xs d.0, Distinct-update xs d.1)
      | inr e ↦ rw e (All-ne-update (key x) xs d.0, Distinct-update xs d.1)
    ]

  no_other :
      (a : A) (xs : List A)
      → All (λ y. (key y == key a) ≡ false) xs
      → All (λ y. (key y == key a) ≡ true → y ≡ a) xs
  no_other a [] h = tt
  no_other a (y ∷ ys) h = (λ t. cc, no_other a ys h.1)

  -- The row that a search by key finds is the only one with the key.
  pub find_unique :
      (k : ℕ) (xs : List A) (a : A)
      → Distinct xs
      → find (λ y. key y == k) xs ≡ some a
      → All (λ y. (key y == k) ≡ true → y ≡ a) xs
  unfolding find
  find_unique k [] a d h = tt
  find_unique k (x ∷ xs) a d h = elim (Bool-cases (key x == k)) [
    | inl e ↦
        let same : key x ≡ k = (==_iff (key x) k).0 e in
        let it : x ≡ a = ground arith in (λ t. it, rw it at (rw same at (no_other x xs d.0)))
    | inr e ↦ (λ t. cc, find_unique k xs a d.1 (ground arith))
  ]

  absent_after :
      (k : ℕ) (p : A → Bool) (xs : List A)
      → All (λ y. (key y == k) ≡ false) xs
      → find (λ y. key y == k) (keep p xs) ≡ none
  absent_after k p xs h =
      find-none (λ y. key y == k) (keep p xs)
        (any_of_All-ne k (keep p xs) (All-keep (λ y. (key y == k) ≡ false) p xs h))

  -- A deletion hides a row from a search by key exactly when it deletes that row.
  pub find-keep :
      (k : ℕ) (p : A → Bool) (xs : List A)
      → Distinct xs
      → find (λ y. key y == k) (keep p xs)
        ≡ elim (find (λ y. key y == k) xs) [ none ↦ none | some a ↦ if p a then some a else none ]
  unfolding find keep
  find-keep k p [] d = refl
  find-keep k p (x ∷ xs) d = elim (Bool-cases (key x == k)) [
    | inl e ↦
        let same : key x ≡ k = (==_iff (key x) k).0 e in
        let gone : find (λ y. key y == k) (keep p xs) ≡ none =
          rw same at (absent_after (key x) p xs d.0) in
        ground arith
    | inr e ↦ ground (arith, find-keep k p xs d.1)
  ]

  pub any-keep_split :
      (q p : A → Bool) (xs : List A)
      → any q xs ≡ (any q (keep p xs) || any q (keep (λ x. not (p x)) xs))
  unfolding any keep
  any-keep_split q p [] = refl
  any-keep_split q p (x ∷ xs) = ground (arith, any-keep_split q p xs)

  find-update_other :
      (k i : ℕ) (f : A → A) (xs : List A)
      → ((x : A) → key (f x) ≡ key x)
      → (i == k) ≡ false
      → find (λ y. key y == k) (update (λ y. key y == i) f xs) ≡ find (λ y. key y == k) xs
  unfolding find update
  find-update_other k i f [] same p = refl
  find-update_other k i f (x ∷ xs) same p =
      ground (arith, same x, find-update_other k i f xs same p)

  -- What a search by key finds after an update by key.
  pub find-update_key :
      (k i : ℕ) (f : A → A) (xs : List A) (a : A)
      → ((x : A) → key (f x) ≡ key x)
      → find (λ y. key y == i) xs ≡ some a
      → find (λ y. key y == k) (update (λ y. key y == i) f xs)
        ≡ (if i == k then some (f a) else find (λ y. key y == k) xs)
  unfolding find update
  find-update_key k i f [] a same h = absurd (cc h)
  find-update_key k i f (x ∷ xs) a same h = elim (Bool-cases (key x == i)) [
    | inl e ↦
        let at_i : key x ≡ i = (==_iff (key x) i).0 e in
        elim (Bool-cases (i == k)) [
          | inl p ↦ ground (arith, same x)
          | inr p ↦ ground (arith, same x, find-update_other k i f xs same p)
        ]
    | inr e ↦ ground (arith, find-update_key k i f xs a same)
  ]

  -- A deletion by key hides nothing else.
  pub find-keep_other :
      (k i : ℕ) (xs : List A)
      → (i == k) ≡ false
      → find (λ y. key y == k) (keep (λ y. not (key y == i)) xs) ≡ find (λ y. key y == k) xs
  unfolding find keep
  find-keep_other k i [] p = refl
  find-keep_other k i (x ∷ xs) p = ground (arith, find-keep_other k i xs p)

  pub All-ne-keep :
      (i : ℕ) (xs : List A) → All (λ y. (key y == i) ≡ false) (keep (λ y. not (key y == i)) xs)
  unfolding keep
  All-ne-keep i [] = tt
  All-ne-keep i (x ∷ xs) = elim (Bool-cases (key x == i)) [
    | inl e ↦ rw e (All-ne-keep i xs)
    | inr e ↦ rw e (e, All-ne-keep i xs)
  ]

  pub Distinct-find :
      (xs : List A) → Distinct xs → All (λ x. find (λ y. key y == key x) xs ≡ some x) xs
  unfolding find
  Distinct-find [] d = tt
  Distinct-find (x ∷ xs) d =
      (rw ((==_iff (key x) (key x)).1 refl) refl, shift xs d.0 (Distinct-find xs d.1))
    where
      shift :
          (ys : List A)
          → All (λ y. (key y == key x) ≡ false) ys
          → All (λ z. find (λ y. key y == key z) xs ≡ some z) ys
          → All (λ z. find (λ y. key y == key z) (x ∷ xs) ≡ some z) ys
      shift [] h g = tt
      shift (z ∷ zs) h g = (ground (arith, h.0, g.0), shift zs h.1 g.1)

  -- One row leaves the rows that a test keeps.
  pub length-keep-update :
      (i : ℕ) (p : A → Bool) (f : A → A) (xs : List A) (a : A)
      → Distinct xs
      → find (λ y. key y == i) xs ≡ some a
      → p a ≡ true
      → p (f a) ≡ false
      → length (keep p xs) ≡ suc (length (keep p (update (λ y. key y == i) f xs)))
  unfolding find keep update
  length-keep-update i p f [] a d h pass drop = absurd (cc h)
  length-keep-update i p f (x ∷ xs) a d h pass drop = elim (Bool-cases (key x == i)) [
    | inl e ↦
        let same : key x ≡ i = (==_iff (key x) i).0 e in
        let it : x ≡ a = ground arith in
        let others : update (λ y. key y == i) f xs ≡ xs =
          update_none (λ y. key y == i) f xs
            (any_of_All-ne i xs (subst (λ (k : ℕ). All (λ y. (key y == k) ≡ false) xs) same d.0)) in
        rw (e, others, it, pass, drop) refl
    | inr e ↦ ground (arith, length-keep-update i p f xs a d.1)
  ]
