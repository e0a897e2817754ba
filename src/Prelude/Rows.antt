-- ===== src/Prelude/Rows.antt =====
-- Laws of the table operations of Prelude/Lists: what an update or a deletion keeps, and what a
-- search finds afterwards.
use Prim.Native.Nat.{ℕ, zero, suc}
use mathlib.Core.Path.{◌≡◌, refl, ap}
use mathlib.Core.Bool.{Bool, true, false, ◌&&◌, ◌||◌}
use mathlib.Core.List.{List, [], ◌∷◌, ◌++◌}
use mathlib.Core.Logic.{inl, inr}
use mathlib.Core.Option
use mathlib.Core.Option.{Option, none, some}
use native.Mathlib.Omega.{arith}
use executr.Prelude.Tests.{if◌then◌else◌, Bool-cases}
use executr.Prelude.Lists.{All, keep, find, any, update, length, take}

module _ {ℓ} {A : Type ℓ} where
  module _ {κ} (P : A → Type κ) where
    pub All-keep : (p : A → Bool) (xs : List A) → All P xs → All P (keep p xs)
    unfolding keep
    All-keep p [] h = tt
    All-keep p (x ∷ xs) h = elim (Bool-cases (p x)) [
      | inl e ↦ rw e (h.0, All-keep p xs h.1)
      | inr e ↦ rw e (All-keep p xs h.1)
    ]

    pub All-update :
        (p : A → Bool) (f : A → A) (xs : List A)
        → ((x : A) → p x ≡ true → P x → P (f x))
        → All P xs
        → All P (update p f xs)
    unfolding update
    All-update p f [] step h = tt
    All-update p f (x ∷ xs) step h = elim (Bool-cases (p x)) [
      | inl e ↦ rw e (step x e h.0, All-update p f xs step h.1)
      | inr e ↦ rw e (h.0, All-update p f xs step h.1)
    ]

    -- The same where another predicate helps the step.
    pub All-update_with {μ} :
        (Q : A → Type μ) (p : A → Bool) (f : A → A) (xs : List A)
        → ((x : A) → p x ≡ true → Q x → P x → P (f x))
        → All Q xs
        → All P xs
        → All P (update p f xs)
    unfolding update
    All-update_with Q p f [] step q h = tt
    All-update_with Q p f (x ∷ xs) step q h = elim (Bool-cases (p x)) [
      | inl e ↦ rw e (step x e q.0 h.0, All-update_with Q p f xs step q.1 h.1)
      | inr e ↦ rw e (h.0, All-update_with Q p f xs step q.1 h.1)
    ]

    pub All-imp {μ} : (Q : A → Type μ) (xs : List A) → ((x : A) → P x → Q x) → All P xs → All Q xs
    All-imp Q [] f h = tt
    All-imp Q (x ∷ xs) f h = (f x h.0, All-imp Q xs f h.1)

    -- What a search finds has the predicate that all rows have, and passes the test.
    pub All-find : (p : A → Bool) (xs : List A) (a : A) → All P xs → find p xs ≡ some a → P a
    unfolding find
    All-find p [] a h e = absurd (cc e)
    All-find p (x ∷ xs) a h e = elim (Bool-cases (p x)) [
      | inl t ↦ let q : x ≡ a = ground arith in rw q at h.0
      | inr t ↦ All-find p xs a h.1 (ground arith)
    ]

  pub find-passes : (p : A → Bool) (xs : List A) (a : A) → find p xs ≡ some a → p a ≡ true
  unfolding find
  find-passes p [] a e = absurd (cc e)
  find-passes p (x ∷ xs) a e = elim (Bool-cases (p x)) [
    | inl t ↦ let q : x ≡ a = ground arith in rw q at t
    | inr t ↦ find-passes p xs a (ground arith)
  ]

  -- A search that an update does not disturb finds the updated row.
  pub find-update :
      (p w : A → Bool) (f : A → A) (xs : List A)
      → ((x : A) → p (f x) ≡ p x)
      → find p (update w f xs) ≡ Option.map (λ x. if w x then f x else x) (find p xs)
  unfolding find update
  find-update p w f [] h = refl
  find-update p w f (x ∷ xs) h = ground (arith, h x, find-update p w f xs h)

  pub find-agree : (p q : A → Bool) (xs : List A) → ((x : A) → p x ≡ q x) → find p xs ≡ find q xs
  unfolding find
  find-agree p q [] h = refl
  find-agree p q (x ∷ xs) h = rw (h x, find-agree p q xs h)

  pub find-none : (p : A → Bool) (xs : List A) → any p xs ≡ false → find p xs ≡ none
  unfolding find any
  find-none p [] h = refl
  find-none p (x ∷ xs) h = ground (arith, find-none p xs)

  pub any-find : (p : A → Bool) (xs : List A) (a : A) → find p xs ≡ some a → any p xs ≡ true
  unfolding find any
  any-find p [] a h = absurd (cc h)
  any-find p (x ∷ xs) a h = ground (arith, any-find p xs a)

  pub any-update :
      (p w : A → Bool) (f : A → A) (xs : List A)
      → ((x : A) → p (f x) ≡ p x)
      → any p (update w f xs) ≡ any p xs
  unfolding any update
  any-update p w f [] h = refl
  any-update p w f (x ∷ xs) h = ground (arith, h x, any-update p w f xs h)

  pub length-update : (w : A → Bool) (f : A → A) (xs : List A) → length (update w f xs) ≡ length xs
  unfolding update
  length-update w f [] = refl
  length-update w f (x ∷ xs) = ap suc (length-update w f xs)

  pub update_none : (w : A → Bool) (f : A → A) (xs : List A) → any w xs ≡ false → update w f xs ≡ xs
  unfolding any update
  update_none w f [] h = refl
  update_none w f (x ∷ xs) h = ground (arith, update_none w f xs)

  -- Two tests that agree on the rows update the same rows.
  pub update-agree :
      (p q : A → Bool) (f : A → A) (xs : List A)
      → All (λ x. p x ≡ q x) xs
      → update p f xs ≡ update q f xs
  unfolding update
  update-agree p q f [] h = refl
  update-agree p q f (x ∷ xs) h = ground (arith, h.0, update-agree p q f xs h.1)

  pub any_of_find-none : (p : A → Bool) (xs : List A) → find p xs ≡ none → any p xs ≡ false
  unfolding find any
  any_of_find-none p [] h = refl
  any_of_find-none p (x ∷ xs) h = ground (arith, any_of_find-none p xs)

  pub any-take : (p : A → Bool) (n : ℕ) (xs : List A) → any p (take n xs) ≡ true → any p xs ≡ true
  unfolding any
  any-take p zero xs h = absurd (cc h)
  any-take p (suc n) [] h = h
  any-take p (suc n) (x ∷ xs) h = ground (arith, any-take p n xs)

  pub keep-keep :
      (p q r : A → Bool) (xs : List A)
      → ((x : A) → r x ≡ (q x && p x))
      → keep p (keep q xs) ≡ keep r xs
  unfolding keep
  keep-keep p q r [] h = refl
  keep-keep p q r (x ∷ xs) h = ground (arith, h x, keep-keep p q r xs h)

  pub keep-append : (p : A → Bool) (xs ys : List A) → keep p (xs ++ ys) ≡ keep p xs ++ keep p ys
  unfolding keep
  keep-append p [] ys = refl
  keep-append p (x ∷ xs) ys = ground (arith, keep-append p xs ys)

  pub keep-All : (p : A → Bool) (xs : List A) → All (λ x. p x ≡ true) xs → keep p xs ≡ xs
  unfolding keep
  keep-All p [] h = refl
  keep-All p (x ∷ xs) h = ground (arith, h.0, keep-All p xs h.1)

  pub keep_nothing : (p : A → Bool) (xs : List A) → All (λ x. p x ≡ false) xs → keep p xs ≡ []
  unfolding keep
  keep_nothing p [] h = refl
  keep_nothing p (x ∷ xs) h = ground (arith, h.0, keep_nothing p xs h.1)

  pub All-always {κ} : (P : A → Type κ) (xs : List A) → ((x : A) → P x) → All P xs
  All-always P [] f = tt
  All-always P (x ∷ xs) f = (f x, All-always P xs f)

  pub All-append_right {κ} : (P : A → Type κ) (xs ys : List A) → All P (xs ++ ys) → All P ys
  All-append_right P [] ys h = h
  All-append_right P (x ∷ xs) ys h = All-append_right P xs ys h.1

  pub All-both {κ μ} :
      (P : A → Type κ) (Q : A → Type μ) (xs : List A)
      → All P xs
      → All Q xs
      → All (λ x. P x × Q x) xs
  All-both P Q [] h k = tt
  All-both P Q (x ∷ xs) h k = ((h.0, k.0), All-both P Q xs h.1 k.1)

  -- A predicate of the rows that a test keeps.
  pub All-of_keep {κ} :
      (P : A → Type κ) (p : A → Bool) (xs : List A)
      → All P (keep p xs)
      → All (λ x. p x ≡ true → P x) xs
  unfolding keep
  All-of_keep P p [] h = tt
  All-of_keep P p (x ∷ xs) h = elim (Bool-cases (p x)) [
    | inl e ↦ let h' : All P (x ∷ keep p xs) = rw e at h in ((λ t. h'.0), All-of_keep P p xs h'.1)
    | inr e ↦
        let h' : All P (keep p xs) = rw e at h in ((λ t. absurd (cc (e, t))), All-of_keep P p xs h')
  ]

  pub All-to_keep {κ} :
      (P : A → Type κ) (p : A → Bool) (xs : List A)
      → All (λ x. p x ≡ true → P x) xs
      → All P (keep p xs)
  unfolding keep
  All-to_keep P p [] h = tt
  All-to_keep P p (x ∷ xs) h = elim (Bool-cases (p x)) [
    | inl e ↦ rw e (h.0 e, All-to_keep P p xs h.1)
    | inr e ↦ rw e (All-to_keep P p xs h.1)
  ]

  pub keep_passes : (p : A → Bool) (xs : List A) → All (λ x. p x ≡ true) (keep p xs)
  keep_passes p xs = All-to_keep (λ x. p x ≡ true) p xs (All-always _ xs (λ x h. h))

  -- What a search that succeeds points at.
  pub any-pick {κ} :
      (P : A → Type κ) (p : A → Bool) (xs : List A)
      → All P xs
      → any p xs ≡ true
      → (x : A) × (p x ≡ true) × P x
  unfolding any
  any-pick P p [] h e = absurd (cc e)
  any-pick P p (x ∷ xs) h e = elim (Bool-cases (p x)) [
    | inl t ↦ (x, t, h.0)
    | inr t ↦ any-pick P p xs h.1 (ground arith)
  ]

  pub any-append : (p : A → Bool) (xs ys : List A) → any p (xs ++ ys) ≡ (any p xs || any p ys)
  unfolding any
  any-append p [] ys = refl
  any-append p (x ∷ xs) ys = ground (arith, any-append p xs ys)

  pub All-append_left {κ} : (P : A → Type κ) (xs ys : List A) → All P (xs ++ ys) → All P xs
  All-append_left P [] ys h = tt
  All-append_left P (x ∷ xs) ys h = (h.0, All-append_left P xs ys h.1)

  pub All-append {κ} : (P : A → Type κ) (xs ys : List A) → All P xs → All P ys → All P (xs ++ ys)
  All-append P [] ys h k = k
  All-append P (x ∷ xs) ys h k = (h.0, All-append P xs ys h.1 k)

  pub any-imp :
      (p q : A → Bool) (xs : List A)
      → All (λ x. p x ≡ true → q x ≡ true) xs
      → any p xs ≡ true
      → any q xs ≡ true
  unfolding any
  any-imp p q [] f h = h
  any-imp p q (x ∷ xs) f h = elim (Bool-cases (p x)) [
    | inl e ↦ rw (f.0 e)
    | inr e ↦ ground (arith, any-imp p q xs f.1)
  ]

  -- A row that one test finds and another passes.
  pub any_of_find :
      (p q : A → Bool) (xs : List A) (a : A) → find p xs ≡ some a → q a ≡ true → any q xs ≡ true
  unfolding find any
  any_of_find p q [] a h k = absurd (cc h)
  any_of_find p q (x ∷ xs) a h k = elim (Bool-cases (p x)) [
    | inl e ↦ let it : x ≡ a = ground arith in rw (it, k) refl
    | inr e ↦ ground (arith, any_of_find p q xs a (rw e at h) k)
  ]
