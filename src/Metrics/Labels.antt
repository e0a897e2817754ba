-- ===== src/Metrics/Labels.antt =====
-- What the labels that internal/metrics/middleware.go gives to paths look like.
use executr.Prelude.{
  ◌≡◌, ◌<◌, ◌≤◌, ◌==◌, ◌⊎◌, true, length, keep, ascii, arith, ◌∙◌, ap, refl, false, List, [], ◌∷◌,
  map, Bytes, split_on, join_with, split_on-cons, IsPiece, split_on-IsPiece, split-join, All,
  Bool-cases, inl, inr,
}
use mathlib.Core.Path.{subst}
use executr.Metrics.Endpoint.{is_id, all_digits, placeholder, normalize_part, normalize_endpoint}

placeholder-kept : is_id placeholder ≡ false
unfolding is_id
placeholder-kept = refl

part-kept : (part : Bytes) → is_id (normalize_part part) ≡ false
part-kept part = elim (Bool-cases (is_id part)) [ inl e ↦ rw e placeholder-kept | inr e ↦ rw e e ]

part-IsPiece : (part : Bytes) → IsPiece b'/' part → IsPiece b'/' (normalize_part part)
part-IsPiece part h = elim (Bool-cases (is_id part)) [
  | inl e ↦ rw e (refl, (refl, (refl, (refl, tt))))
  | inr e ↦ rw e h
]

parts-IsPiece :
    (parts : List Bytes) → All (IsPiece b'/') parts → All (IsPiece b'/') (map normalize_part parts)
parts-IsPiece [] h = tt
parts-IsPiece (p ∷ ps) h = (part-IsPiece p h.0, parts-IsPiece ps h.1)

parts-kept : (parts : List Bytes) → All (λ p. is_id p ≡ false) (map normalize_part parts)
parts-kept [] = tt
parts-kept (p ∷ ps) = (part-kept p, parts-kept ps)

twice :
    (parts : List Bytes) → map normalize_part (map normalize_part parts) ≡ map normalize_part parts
twice [] = refl
twice (p ∷ ps) = rw (part-kept p) (ap (◌∷◌ (normalize_part p)) (twice ps))

-- The pieces of a label.
label-pieces :
    (path : Bytes)
    → split_on b'/' (normalize_endpoint path) ≡ map normalize_part (split_on b'/' path)
unfolding normalize_endpoint
label-pieces path =
    let (l, ls, e) = split_on-cons b'/' path in
    let pieces : All (IsPiece b'/') (map normalize_part (l ∷ ls)) =
      parts-IsPiece (l ∷ ls) (subst (All (IsPiece b'/')) e (split_on-IsPiece b'/' path)) in
    rw e (split-join b'/' (normalize_part l) (map normalize_part ls) pieces)

-- The label of a path has the path's pieces between slashes, those that look like identifiers
-- replaced by "{id}"; no piece of it looks like an identifier; and it is its own label.
pub normalize_endpoint_lem :
    (path : Bytes)
    → (split_on b'/' (normalize_endpoint path) ≡ map normalize_part (split_on b'/' path))
      × All (λ p. is_id p ≡ false) (split_on b'/' (normalize_endpoint path))
      × (normalize_endpoint (normalize_endpoint path) ≡ normalize_endpoint path)
normalize_endpoint_lem path =
    let pieces = label-pieces path in
    (
      pieces,
      rw pieces (parts-kept (split_on b'/' path)),
      unfold normalize_endpoint in
          ap (λ ps. join_with b'/' (map normalize_part ps)) pieces
          ∙ ap (join_with b'/') (twice (split_on b'/' path)),
    )

-- A piece of a path that stands for an object: 36 bytes with four dashes, or digits only.
pub record LooksLikeId (p : Bytes) : Type 0 where
  pub there : 0 < length p
  pub shape :
      ((length p ≡ 36) × (length (keep (λ c. c == b'-') p) ≡ 4))
      ⊎ All (λ c. (b'0' ≤ c) × (c ≤ b'9')) p

-- The piece of a label for a piece of a path.
abbrev pub Labels : Bytes → Bytes → Type 0
Labels p q = (LooksLikeId p × (q ≡ ascii "{id}")) ⊎ ((¬ LooksLikeId p) × (q ≡ p))

-- Two lists of pieces, one by one.
abbrev pub AllLabels : List Bytes → List Bytes → Type 0
AllLabels [] [] = Unit
AllLabels [] (q ∷ qs) = ⊥
AllLabels (p ∷ ps) [] = ⊥
AllLabels (p ∷ ps) (q ∷ qs) = Labels p q × AllLabels ps qs

digits-All : (s : Bytes) → all_digits s ≡ true → All (λ c. (b'0' ≤ c) × (c ≤ b'9')) s
digits-All [] h = tt
digits-All (c ∷ s) h = ((ground (arith, h), ground (arith, h)), digits-All s (ground (arith, h)))

All-digits : (s : Bytes) → All (λ c. (b'0' ≤ c) × (c ≤ b'9')) s → all_digits s ≡ true
All-digits [] h = refl
All-digits (c ∷ s) h = ground (arith, h.0.0, h.0.1, All-digits s h.1)

id-LooksLikeId : (p : Bytes) → is_id p ≡ true → LooksLikeId p
unfolding is_id
id-LooksLikeId [] h = absurd (cc h)
id-LooksLikeId (c ∷ s) h = record {
  there = omega arith;
  shape = elim (Bool-cases (all_digits (c ∷ s))) [
    | inl e ↦ inr (digits-All (c ∷ s) e)
    | inr e ↦ inl (ground (arith, h, e), ground (arith, h, e))
  ];
}

LooksLikeId-id : (p : Bytes) → LooksLikeId p → is_id p ≡ true
unfolding is_id
LooksLikeId-id [] h = absurd (omega (arith, h.there))
LooksLikeId-id (c ∷ s) h = elim h.shape [
  | inl (size, dashes) ↦ ground (arith, size, dashes)
  | inr digits ↦ ground (arith, All-digits (c ∷ s) digits)
]

part-Labels : (p : Bytes) → Labels p (normalize_part p)
part-Labels p = elim (Bool-cases (is_id p)) [
  | inl e ↦ rw e (inl (id-LooksLikeId p e, refl))
  | inr e ↦ rw e (inr (λ h. cc (LooksLikeId-id p h, e), refl))
]

parts-AllLabels : (ps : List Bytes) → AllLabels ps (map normalize_part ps)
parts-AllLabels [] = tt
parts-AllLabels (p ∷ ps) = (part-Labels p, parts-AllLabels ps)

pub normalize_endpoint-AllLabels :
    (path : Bytes) → AllLabels (split_on b'/' path) (split_on b'/' (normalize_endpoint path))
normalize_endpoint-AllLabels path = rw (label-pieces path) (parts-AllLabels (split_on b'/' path))
