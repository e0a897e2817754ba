-- ===== src/Tests/Starting.antt =====
-- The theorems on claims that follow one another, and on the start of an executor, at concrete data.
use executr.Prelude.{
  Bytes, ascii, ◌≡◌, ◌++◌, refl, String, true, false, none, some, List, [], ◌∷◌, arith, ◌||◌, ltb,
  length, pos,
}
use executr.Models.{running}
use executr.Store.Row.{Job, Context, get}
use executr.Lifecycle.Draining.{claim_all, claim_all-runs}
use executr.Executor.Start.{Machine}
use executr.Cli.Config.{ExecutorFlags, default_executor_flags, executor_command}
use executr.Cli.Starting.{PanicsIf, is_negative, is_short, executor_command-PanicsIf}
use executr.Tests.Data.{at, queue, queue-IsValid, background_job}

abbrev claims : List (String × Context)
claims = ("runner-1", at 3000 3) ∷ ("runner-2", at 3001 4) ∷ []

claim_all-runs_example :
    (j : Job) × (get 1 (claim_all claims queue) ≡ some j) × (j.status ≡ running)
unfolding executr.Prelude.keep executr.Prelude.find
claim_all-runs_example =
    claim_all-runs claims queue 1 background_job queue-IsValid
      ((refl, λ i. refl), ((refl, λ i. refl), tt)) (omega arith) refl refl

abbrev machine : Machine
machine = record {
  home = some (ascii "/root");
  join = λ a b. a ++ b;
  mkdir = λ d. true;
  short_id = "0a1b2c3d";
  cached = some [];
  cache_path = λ s. s;
  disk = λ p. none;
  work_entries = some [];
  removable = λ d. true;
}

-- Half a second between polls.
abbrev hasty : ExecutorFlags
hasty = record (default_executor_flags "http://localhost:8080" "runner") {
  poll_interval = pos 500000000;
}

executor_command-PanicsIf_example :
    PanicsIf
      ((ltb (length hasty.cache_dir) 2 || is_negative hasty.max_jobs)
        || is_short hasty.poll_interval)
      (executor_command machine hasty)
executor_command-PanicsIf_example =
    executor_command-PanicsIf machine hasty ((ascii "/root", refl), λ d. refl)
