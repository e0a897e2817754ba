-- ===== src/Tests/Outside.antt =====
-- The theorems on the output of jobs, the retries of requests, the labels of paths and the command
-- line at concrete data.
use executr.Metrics.Endpoint.{normalize_endpoint, is_id}
use executr.Metrics.Middleware.{Act, write_header, write, Labels}
use executr.Cli.Submit.{Flags, sent, submission, submit_job, parse_env, split_env}
use executr.Cli.Submissions.{IsSound, submit_job-IsSound}
use executr.Prelude.{
  Option, none, String, keep, All, split_on, join_with, Bytes, ascii, ◌≡◌, ◌-◌, ◌≤◌, ◌<◌, ◌⊎◌, refl,
  ℕ, zero, suc, List, [], ◌∷◌, ◌++◌, false, arith, length, take, drop,
}
use executr.Executor.Output.{
  split_lines, join_lines, head_part, truncate, truncate_output, max_output_size,
}
use executr.Executor.Truncation.{LastThatFit, truncate_output_lem, truncate_long}
use executr.Executor.Marker.{IsMarker}
use executr.Utils.Http.{
  Answer, response, answered, new_retryable_http_client, do_with_context, second,
}
use executr.Utils.Backoff.{Tries, doublings, do_with_context-Tries, do_with_context-Waits}

-- Two failures, then success.
abbrev answers : ℕ → Answer
answers zero = response 503
answers (suc zero) = response 429
answers _ = response 200

third_time :
    do_with_context new_retryable_http_client answers (λ n. false)
    ≡ record { outcome = answered 200; requests = 3; waits = second ∷ 2000000000 ∷ [] }
unfolding do_with_context executr.Utils.Http.attempts_from
third_time = refl

do_with_context-Tries_example :
    (last : ℕ) × Tries answers
      (λ n. false)
      0
      3
      last
      (do_with_context new_retryable_http_client answers (λ n. false))
do_with_context-Tries_example = do_with_context-Tries new_retryable_http_client answers (λ n. false)

do_with_context-Waits_example :
    let waits = (do_with_context new_retryable_http_client answers (λ n. false)).waits in
    (length waits ≤ 3)
    × All (λ w. w ≤ 10000000000) waits
    × (waits ≡ take (length waits) (doublings 10000000000 3 1000000000))
do_with_context-Waits_example =
    do_with_context-Waits new_retryable_http_client answers (λ n. false) (omega arith)

truncate_output_lem_example :
    (length (truncate_output (ascii "done\n")) ≤ max_output_size)
    × ((max_output_size < length (ascii "done\n"))
        ⊎ (truncate_output (ascii "done\n") ≡ ascii "done\n"))
truncate_output_lem_example = truncate_output_lem (ascii "done\n")

-- Lines of 9 bytes.
abbrev lines : ℕ → Bytes
lines zero = []
lines (suc n) = ascii "compiled\n" ++ lines n

long_output : 80 < length (lines 10)
long_output = omega arith

many_lines : 1 < length (split_lines (lines 10))
unfolding split_on
many_lines = omega arith

room_left : length (head_part 80 1 (lines 10)) < 80
unfolding join_with split_on executr.Executor.Output.trunc_marker executr.Executor.Output.decimal
room_left = omega arith

truncate_long_example :
    (marker : Bytes) × (tail : List Bytes) × IsMarker
      (length (lines 10))
      (length (split_lines (lines 10)))
      marker
    × LastThatFit
        (80 - length (join_lines (take 1 (split_lines (lines 10))) ++ marker))
        (drop 1 (split_lines (lines 10)))
        tail
    × (truncate 80 1 (lines 10)
        ≡ (join_lines (take 1 (split_lines (lines 10))) ++ marker) ++ join_lines tail)
truncate_long_example = truncate_long 80 1 (lines 10) long_output many_lines room_left

-- The heartbeat of job 17.
abbrev path : Bytes
path = ascii "/api/v1/jobs/17/heartbeat"

path_label : normalize_endpoint path ≡ ascii "/api/v1/jobs/{id}/heartbeat"
unfolding normalize_endpoint is_id split_on join_with keep
path_label = refl

-- The status is written once, after it a second one in vain, and then the body.
abbrev answer : List Act
answer = write_header 404 ∷ write_header 500 ∷ write (ascii "{}") ∷ []

-- HOME is set twice.
abbrev flags : Flags
flags = record {
  job_type = "build";
  binary_url = "https://bin.example/build";
  binary_sha256 = "aa";
  priority = "background";
  args = "-v" ∷ [];
  env = "HOME=/root" ∷ "MODE=a=b" ∷ "HOME=/tmp" ∷ [];
}

abbrev no_network : String → Option String
no_network url = none

is_sent :
    submit_job no_network flags
    ≡ sent (submission flags (("HOME", "/tmp") ∷ ("MODE", "a=b") ∷ []) "aa")
unfolding submit_job parse_env split_env keep
is_sent = refl

submit_job-IsSound_example :
    IsSound flags (submission flags (("HOME", "/tmp") ∷ ("MODE", "a=b") ∷ []) "aa")
submit_job-IsSound_example =
    submit_job-IsSound no_network flags
      (submission flags (("HOME", "/tmp") ∷ ("MODE", "a=b") ∷ []) "aa") is_sent
