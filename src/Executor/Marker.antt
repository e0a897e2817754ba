-- ===== src/Executor/Marker.antt =====
-- The marker that `truncateOutput` of internal/executor/runner.go puts in, and the digits in it.
use executr.Prelude.{
  ℕ, zero, suc, ◌+◌, ◌-◌, ◌*◌, ◌/◌, ◌%◌, ◌<◌, ◌≡◌, ◌∙◌, refl, ap, arith, ltb, [], ◌∷◌, ◌++◌, Bytes,
  ascii, Bool-cases, inl, inr,
}
use executr.Executor.Output.{decimal, decimal_loop, trunc_marker}

-- The number that decimal digits stand for, after those that stand for `n`.
unfoldable pub value : ℕ → Bytes → ℕ
value n [] = n
value n (d ∷ ds) = value (n * 10 + (d - b'0')) ds

decimal_loop-value :
    (fuel n : ℕ) (digits : Bytes) → n < fuel → value 0 (decimal_loop fuel n digits) ≡ value n digits
unfolding value decimal_loop
decimal_loop-value zero n digits h = absurd (omega (arith, h))
decimal_loop-value (suc fuel) n digits h = elim (Bool-cases (ltb n 10)) [
  | inl e ↦ rw e (ap (λ m. value m digits) (omega arith))
  | inr e ↦
      let more : n / 10 < fuel = ground (arith, e, h) in
      let whole : n / 10 * 10 + (48 + n % 10 - 48) ≡ n = omega arith in
      rw e (
        decimal_loop-value fuel (n / 10) ((48 + n % 10) ∷ digits) more
        ∙ ap (λ m. value m digits) whole)
]

pub decimal-value : (n : ℕ) → value 0 (decimal n) ≡ n
unfolding decimal value
decimal-value n = decimal_loop-value (suc n) n [] (omega arith)

-- A marker for so many bytes and lines.
abbrev pub IsMarker : ℕ → ℕ → Bytes → Type 0
IsMarker bytes lines marker =
    (d : Bytes) × (e : Bytes) × (value 0 d ≡ bytes)
    × (value 0 e ≡ lines)
    × (marker
        ≡ ascii "\n... [OUTPUT TRUNCATED - Total "
          ++ (d ++ (ascii " bytes, " ++ (e ++ ascii " lines] ...\n"))))

pub trunc_marker-IsMarker : (bytes lines : ℕ) → IsMarker bytes lines (trunc_marker bytes lines)
unfolding trunc_marker
trunc_marker-IsMarker bytes lines =
    (decimal bytes, decimal lines, decimal-value bytes, decimal-value lines, refl)
