-- ===== src/Executor/Output.antt =====
-- `truncateOutput` of internal/executor/runner.go. A string is the list of its bytes.
use executr.Prelude.{
  ℕ, zero, suc, ◌+◌, ◌-◌, ◌/◌, ◌%◌, ltb, leb, List, [], ◌∷◌, ◌++◌, length, take, drop,
  if◌then◌else◌, Bytes, ascii, split_on, join_with,
}
use mathlib.Core.List.{reverse}

-- strings.Split(s, "\n").
abbrev pub split_lines : Bytes → List Bytes
split_lines s = split_on b'\n' s

-- strings.Join(lines, "\n").
abbrev pub join_lines : List Bytes → Bytes
join_lines ls = join_with b'\n' ls

-- %d of a number: each round takes one digit off, so `n + 1` rounds are enough.
unfoldable pub decimal_loop : ℕ → ℕ → Bytes → Bytes
decimal_loop zero n digits = digits
decimal_loop (suc fuel) n digits =
    let rest = decimal_loop fuel (n / 10) ((48 + n % 10) ∷ digits) in
    if ltb n 10 then (48 + n) ∷ digits else rest

unfoldable pub decimal : ℕ → Bytes
unfolding decimal_loop
decimal n = decimal_loop (suc n) n []

unfoldable pub trunc_marker : ℕ → ℕ → Bytes
trunc_marker bytes lines =
    ascii "\n... [OUTPUT TRUNCATED - Total "
    ++ (decimal bytes ++ (ascii " bytes, " ++ (decimal lines ++ ascii " lines] ...\n")))

-- The loop over the last lines: the lines left, last first, those kept and their size.
unfoldable pub tail_lines : ℕ → ℕ → List Bytes → List Bytes → List Bytes
tail_lines remaining size kept [] = kept
tail_lines remaining size kept (l ∷ ls) =
    let rest = tail_lines remaining (size + (length l + 1)) (l ∷ kept) ls in
    if ltb remaining (size + (length l + 1)) then kept else rest

-- `maxOutputSize` and `maxHeadLines` are parameters here.
module _ (max_size max_head : ℕ) where
  abbrev pub head_part : Bytes → Bytes
  head_part output =
      join_lines (take max_head (split_lines output))
      ++ trunc_marker (length output) (length (split_lines output))

  abbrev pub tail_part : Bytes → List Bytes
  tail_part output =
      tail_lines (max_size - length (head_part output)) 0 []
        (reverse (drop max_head (split_lines output)))

  unfoldable pub truncate : Bytes → Bytes
  truncate output =
      if leb (length output) max_size
      then output
      else if leb (length (split_lines output)) max_head
      then take max_size output
      else if leb max_size (length (head_part output))
      then take max_size (head_part output)
      else if ltb 0 (length (tail_part output))
      then head_part output ++ join_lines (tail_part output)
      else head_part output

abbrev pub max_output_size : ℕ
max_output_size = 1048576

abbrev pub max_head_lines : ℕ
max_head_lines = 500

unfoldable pub truncate_output : Bytes → Bytes
truncate_output output = truncate max_output_size max_head_lines output
