-- ===== src/Tests/Commands.antt =====
-- The theorem on the commands `submit` and `status` at concrete data.
use executr.Store.Row.{Context}
use executr.Prelude.{List, ℕ, ◌+◌, Bool, ◌≡◌, refl, false, String, [], ◌∷◌, keep, any, some}
use executr.Models.{JobSubmission}
use executr.Store.Row.{has_id}
use executr.Server.Routing.{Codec}
use executr.Cli.Submit.{Flags, sent, submission, submit_job, parse_env, split_env}
use executr.Cli.Inspect.{
  Got, Line, no_response, calculate_sha256_from_url, submitted, shown, submit_command,
  status_command,
}
use executr.Cli.Table.{ShowsFlags}
use executr.Cli.Roundtrip.{submit-status}
use executr.Tests.Cache.{hash}
use executr.Tests.Remote.{codec, encoder, decoder, render}
use executr.Tests.Data.{at, queue}

abbrev flags : Flags
flags = record {
  job_type = "test";
  binary_url = "https://bin.example/test";
  binary_sha256 = "cc";
  priority = "best_effort";
  args = "-race" ∷ [];
  env = "MODE=ci" ∷ [];
}

abbrev job : JobSubmission
job = submission flags (("MODE", "ci") ∷ []) "cc"

-- Every submission that the server reads is this one.
abbrev reading : Codec
reading = record codec { decode_submission = λ b. some job }

abbrev offline : String → Got
offline url = no_response

made : submit_job (λ url. calculate_sha256_from_url hash (offline url)) flags ≡ sent job
unfolding submit_job parse_env split_env keep
made = refl

not_taken : any (has_id 7) queue.jobs ≡ false
unfolding any
not_taken = refl

-- The contexts of the attempts, of which the first is enough.
abbrev submitting : ℕ → Context × Context
submitting n = (at (3000 + n) 7, at (3000 + n) 8)

abbrev asking : ℕ → Context × Context
asking n = (at (3001 + n) 8, at (3001 + n) 9)

abbrev going : ℕ → Bool
going n = false

submit-status_example :
    let (t', e) =
      submit_command reading encoder decoder hash offline flags submitting going queue in
    let (t'', e') = status_command reading encoder decoder (render 7 ∷ []) asking going t' in
    (e ≡ submitted 7) × (t'' ≡ t') × ((ls : List Line) × (e' ≡ shown ls) × ShowsFlags 7 flags ls)
submit-status_example =
    submit-status reading encoder decoder (record { one = λ j. refl; many = λ js. refl }) hash
      offline flags job submitting asking going going queue made refl refl refl (refl, refl)
      not_taken refl refl
