-- ===== src/Executor/Truncation.antt =====
-- What `truncateOutput` promises: short output is kept, long output is cut to the limit, and what
-- is kept of it are its first and last lines.
use executr.Prelude.{
  Bytes, join_with, ℕ, ◌+◌, ◌-◌, ◌≤◌, ◌<◌, ◌≡◌, ◌∙◌, ap, refl, sym, ltb, leb, ◌⊎◌, List, [], ◌∷◌,
  ◌++◌, arith, length, take, drop, if◌then◌else◌, length-append, length-take-le, Bool-cases, inl,
  inr,
}
use mathlib.Core.List.{reverse, append_assoc, append-nil, reverse-cons, reverse-reverse}
use mathlib.Core.Path.{subst}
use executr.Executor.Marker.{IsMarker, trunc_marker-IsMarker}
use executr.Executor.Output.{
  trunc_marker, split_lines, join_lines, tail_lines, head_part, tail_part, truncate,
  truncate_output, max_output_size, max_head_lines,
}

-- The size that the loop counts: each line with a newline.
abbrev pub lines_size : List Bytes → ℕ
lines_size [] = 0
lines_size (l ∷ ls) = length l + 1 + lines_size ls

length-join-le : (ls : List Bytes) → length (join_lines ls) ≤ lines_size ls
unfolding join_with
length-join-le [] = omega arith
length-join-le (l ∷ []) = omega arith
length-join-le (l ∷ m ∷ ls) =
    omega (arith, length-append l (b'\n' ∷ join_lines (m ∷ ls)), length-join-le (m ∷ ls))

tail_lines-fits :
    (remaining size : ℕ) (kept ls : List Bytes)
    → size ≡ lines_size kept
    → size ≤ remaining
    → lines_size (tail_lines remaining size kept ls) ≤ remaining
unfolding tail_lines
tail_lines-fits remaining size kept [] e h = omega arith
tail_lines-fits remaining size kept (l ∷ ls) e h =
    elim (Bool-cases (ltb remaining (size + (length l + 1)))) [
      | inl stop ↦ rw stop (omega arith)
      | inr go ↦ rw go (
          tail_lines-fits remaining (size + (length l + 1)) (l ∷ kept) ls (omega arith)
            (ground arith))
    ]

-- The last lines `tail` of `lines` are all that fit: there is none before them, or with the one before
-- them they are too long.
abbrev pub LastThatFit : ℕ → List Bytes → List Bytes → Type 0
LastThatFit room lines tail =
    (lines ≡ tail)
    ⊎ ((init : List Bytes) × (l : Bytes) × (lines ≡ init ++ (l ∷ tail))
        × (room < length l + 1 + lines_size tail))

tail_lines-LastThatFit :
    (remaining size : ℕ) (kept ls : List Bytes)
    → size ≡ lines_size kept
    → LastThatFit remaining (reverse ls ++ kept) (tail_lines remaining size kept ls)
unfolding tail_lines
tail_lines-LastThatFit remaining size kept [] h = inl refl
tail_lines-LastThatFit remaining size kept (l ∷ ls) h =
    let again : reverse (l ∷ ls) ++ kept ≡ reverse ls ++ (l ∷ kept) =
      ap (λ x. x ++ kept) (reverse-cons l ls) ∙ append_assoc (reverse ls) (l ∷ []) kept in
    elim (Bool-cases (ltb remaining (size + (length l + 1)))) [
      | inl stop ↦ rw stop (inr (reverse ls, l, again, ground (arith, stop, h)))
      | inr go ↦ rw go (
          subst
            (λ x.
              LastThatFit remaining x (tail_lines remaining (size + (length l + 1)) (l ∷ kept) ls))
            (sym again)
            (tail_lines-LastThatFit remaining (size + (length l + 1)) (l ∷ kept) ls
              (omega (arith, h))))
    ]

with_tail :
    (front : Bytes) (tail : List Bytes)
    → (if ltb 0 (length tail) then front ++ join_lines tail else front) ≡ front ++ join_lines tail
unfolding join_with
with_tail front [] = sym (append-nil front)
with_tail front (l ∷ ls) = ground arith

module _ (max_size max_head : ℕ) (output : Bytes) where
  tail_part-fits :
      lines_size (tail_part max_size max_head output)
      ≤ max_size - length (head_part max_size max_head output)
  tail_part-fits =
      tail_lines-fits (max_size - length (head_part max_size max_head output)) 0 []
        (reverse (drop max_head (split_lines output))) refl (omega arith)

  -- The result is never longer than the limit.
  pub length-truncate-le : length (truncate max_size max_head output) ≤ max_size
  unfolding truncate
  length-truncate-le = ground (
    arith,
    length-take-le max_size output,
    length-take-le max_size (head_part max_size max_head output),
    length-append (head_part max_size max_head output)
        (join_lines (tail_part max_size max_head output)),
    length-join-le (tail_part max_size max_head output),
    tail_part-fits,
  )

  pub truncate_short : length output ≤ max_size → truncate max_size max_head output ≡ output
  unfolding truncate
  truncate_short h = ground arith

  -- Output longer than the size limit, of more lines than the limit of head lines, whose first lines
  -- and truncation marker leave room, becomes those first lines, a marker with the number of its bytes
  -- and lines, and the whole of the last lines, of those that are left, that fit into the room: all
  -- of them, or so many that one more would not fit. (The limits are 1048576 bytes and 500 lines in the
  -- executor, and any here.)
  pub truncate_long :
      max_size < length output
      → max_head < length (split_lines output)
      → length (head_part max_size max_head output) < max_size
      → (marker : Bytes) × (tail : List Bytes) × IsMarker
          (length output)
          (length (split_lines output))
          marker
        × LastThatFit
            (max_size - length (join_lines (take max_head (split_lines output)) ++ marker))
            (drop max_head (split_lines output))
            tail
        × (truncate max_size max_head output
            ≡ (join_lines (take max_head (split_lines output)) ++ marker) ++ join_lines tail)
  unfolding truncate
  truncate_long h k l =
      let rest : List Bytes = drop max_head (split_lines output) in
      let room : ℕ = max_size - length (head_part max_size max_head output) in
      (
        trunc_marker (length output) (length (split_lines output)),
        tail_part max_size max_head output,
        trunc_marker-IsMarker (length output) (length (split_lines output)),
        subst (λ x. LastThatFit room x (tail_part max_size max_head output))
            (append-nil (reverse (reverse rest)) ∙ reverse-reverse rest)
            (tail_lines-LastThatFit room 0 [] (reverse rest) refl),
        ground (
          arith,
          with_tail (head_part max_size max_head output) (tail_part max_size max_head output),
        ),
      )

-- The output that is reported never exceeds 1 MB, and is the job's output wherever that does not.
pub truncate_output_lem :
    (output : Bytes)
    → (length (truncate_output output) ≤ max_output_size)
      × ((max_output_size < length output) ⊎ (truncate_output output ≡ output))
unfolding truncate_output
truncate_output_lem output = (
  length-truncate-le max_output_size max_head_lines output,
  elim (Bool-cases (leb (length output) max_output_size)) [
    | inl h ↦ inr (truncate_short max_output_size max_head_lines output (ground arith))
    | inr h ↦ inl (ground arith)
  ],
)
