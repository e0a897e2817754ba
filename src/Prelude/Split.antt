-- ===== src/Prelude/Split.antt =====
-- strings.Split and strings.Join with a separator of one byte.
use Prim.Native.Nat.{ℕ}
use mathlib.Core.Path.{◌≡◌, refl, ap, sym, ◌∙◌}
use mathlib.Core.Bool.{false}
use mathlib.Core.Logic.{inl, inr}
use mathlib.Core.List.{List, [], ◌∷◌, ◌++◌}
use executr.Prelude.Tests.{◌==◌, ==_iff, if◌then◌else◌, Bool-cases}
use executr.Prelude.Lists.{All}
use executr.Prelude.Text.{Bytes}

abbrev pub extend : ℕ → List Bytes → List Bytes
extend c [] = (c ∷ []) ∷ []
extend c (l ∷ ls) = (c ∷ l) ∷ ls

module _ (sep : ℕ) where
  -- Always at least one piece.
  unfoldable pub split_on : Bytes → List Bytes
  split_on [] = [] ∷ []
  split_on (c ∷ s) = let rest = split_on s in if c == sep then [] ∷ rest else extend c rest

  unfoldable pub join_with : List Bytes → Bytes
  join_with [] = []
  join_with (l ∷ []) = l
  join_with (l ∷ m ∷ ls) = l ++ (sep ∷ join_with (m ∷ ls))

  pub split_on-cons : (s : Bytes) → (l : Bytes) × (ls : List Bytes) × (split_on s ≡ l ∷ ls)
  unfolding split_on
  split_on-cons [] = ([], [], refl)
  split_on-cons (c ∷ s) =
      let (l, ls, e) = split_on-cons s in
      elim (Bool-cases (c == sep)) [
        | inl n ↦ ([], split_on s, rw n)
        | inr n ↦ (c ∷ l, ls, rw (n, e))
      ]

  join_with-extend :
      (c : ℕ) (l : Bytes) (ls : List Bytes) → join_with (extend c (l ∷ ls)) ≡ c ∷ join_with (l ∷ ls)
  unfolding join_with
  join_with-extend c l [] = refl
  join_with-extend c l (m ∷ ls) = refl

  -- One more byte in front.
  join-split_cons :
      (c : ℕ) (s l : Bytes) (ls : List Bytes)
      → split_on s ≡ l ∷ ls
      → join_with (split_on s) ≡ s
      → join_with (split_on (c ∷ s)) ≡ c ∷ s
  unfolding join_with split_on
  join-split_cons c s l ls e ih =
      let joined : join_with (l ∷ ls) ≡ s = ap join_with (sym e) ∙ ih in
      elim (Bool-cases (c == sep)) [
        | inl n ↦ rw (n, e) (ap (◌∷◌ sep) joined ∙ ap (λ x. x ∷ s) (sym ((==_iff c sep).0 n)))
        | inr n ↦ rw (n, e) (join_with-extend c l ls ∙ ap (◌∷◌ c) joined)
      ]

  -- The pieces of a text, joined again, are the text.
  pub join-split : (s : Bytes) → join_with (split_on s) ≡ s
  join-split [] = unfold join_with split_on in refl
  join-split (c ∷ s) = let (l, ls, e) = split_on-cons s in join-split_cons c s l ls e (join-split s)

  -- No byte is the separator.
  abbrev pub IsPiece : Bytes → Type 0
  IsPiece l = All (λ c. (c == sep) ≡ false) l

  extend-IsPiece :
      (c : ℕ) (ls : List Bytes) → (c == sep) ≡ false → All IsPiece ls → All IsPiece (extend c ls)
  extend-IsPiece c [] n h = ((n, tt), tt)
  extend-IsPiece c (l ∷ ls) n h = ((n, h.0), h.1)

  pub split_on-IsPiece : (s : Bytes) → All IsPiece (split_on s)
  unfolding split_on
  split_on-IsPiece [] = (tt, tt)
  split_on-IsPiece (c ∷ s) = elim (Bool-cases (c == sep)) [
    | inl n ↦ rw n (tt, split_on-IsPiece s)
    | inr n ↦ rw n (extend-IsPiece c (split_on s) n (split_on-IsPiece s))
  ]

  split_on-piece : (l : Bytes) → IsPiece l → split_on l ≡ l ∷ []
  unfolding split_on
  split_on-piece [] h = refl
  split_on-piece (c ∷ l) h = rw (h.0, split_on-piece l h.1) refl

  split_on-append : (l s : Bytes) → IsPiece l → split_on (l ++ (sep ∷ s)) ≡ l ∷ split_on s
  unfolding split_on
  split_on-append [] s h = rw ((==_iff sep sep).1 refl) refl
  split_on-append (c ∷ l) s h = rw (h.0, split_on-append l s h.1) refl

  -- Pieces that are joined are split again.
  pub split-join :
      (l : Bytes) (ls : List Bytes) → All IsPiece (l ∷ ls) → split_on (join_with (l ∷ ls)) ≡ l ∷ ls
  unfolding join_with
  split-join l [] h = split_on-piece l h.0
  split-join l (m ∷ ls) h =
      split_on-append l (join_with (m ∷ ls)) h.0 ∙ ap (◌∷◌ l) (split-join m ls h.1)
