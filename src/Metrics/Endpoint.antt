-- ===== src/Metrics/Endpoint.antt =====
-- `normalizeEndpoint` and `isID` of internal/metrics/middleware.go. A path is its bytes; a byte of a
-- character beyond ASCII is no digit, as its rune is none.
use executr.Prelude.{
  ℕ, ◌==◌, ltb, Bool, true, false, not, ◌&&◌, ◌||◌, [], ◌∷◌, map, length, Bytes, ascii, split_on,
  join_with, if◌then◌else◌, keep,
}

abbrev pub is_digit : ℕ → Bool
is_digit c = not (ltb c b'0' || ltb b'9' c)

-- The loop over the characters.
abbrev pub all_digits : Bytes → Bool
all_digits [] = true
all_digits (c ∷ s) = is_digit c && all_digits s

-- strings.Count(s, "-").
abbrev pub count_dashes : Bytes → ℕ
count_dashes s = length (keep (λ c. c == b'-') s)

unfoldable pub is_id : Bytes → Bool
is_id [] = false
is_id (c ∷ s) = (length (c ∷ s) == 36 && count_dashes (c ∷ s) == 4) || all_digits (c ∷ s)

abbrev pub placeholder : Bytes
placeholder = ascii "{id}"

abbrev pub normalize_part : Bytes → Bytes
normalize_part part = if is_id part then placeholder else part

unfoldable pub normalize_endpoint : Bytes → Bytes
normalize_endpoint path = join_with b'/' (map normalize_part (split_on b'/' path))
