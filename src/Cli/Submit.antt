-- ===== src/Cli/Submit.antt =====
-- `submitJob` of cmd/executr/main.go up to the submission that it sends. The flags are read, and
-- `calculate` is calculateSHA256FromURL, `none` where it fails.
use executr.Prelude.{
  pos, ◌==◌, Bool, false, not, ◌||◌, Option, none, some, List, [], ◌∷◌, str_eq, is_empty, keep,
  if◌then◌else◌,
}
use Prim.Native.String.{String}
use Prim.Native.Char.{Char, code}
use executr.Models.{EnvMap, JobSubmission}

pub record Flags : Type 0 where
  pub job_type : String
  pub binary_url : String
  pub binary_sha256 : String
  pub priority : String
  pub args : List String
  pub env : List String

pub data Refusal : Type 0 where
  spaced_type invalid_priority invalid_env no_sha256 : Refusal

pub data Submitted : Type 0 where
  sent : JobSubmission → Submitted
  refused : Refusal → Submitted

-- strings.Contains(s, " ").
abbrev pub has_space : String → Bool
has_space String.[] = false
has_space (String.◌∷◌ c s) = code c == 32 || has_space s

abbrev pub known_priority : String → Bool
known_priority p = str_eq p "foreground" || (str_eq p "background" || str_eq p "best_effort")

-- strings.SplitN(env, "=", 2), where it gives two parts.
abbrev pub behind : Char → Option (String × String) → Option (String × String)
behind c none = none
behind c (some (k, v)) = some (String.◌∷◌ c k, v)

unfoldable pub split_env : String → Option (String × String)
split_env String.[] = none
split_env (String.◌∷◌ c s) =
    let rest = behind c (split_env s) in if code c == 61 then some ("", s) else rest

-- `envVars[key] = value`.
abbrev pub assign : String → String → EnvMap → EnvMap
assign key value m = (key, value) ∷ keep (λ e. not (str_eq e.0 key)) m

-- One variable of the loop.
abbrev pub assign_part : Option (String × String) → EnvMap → Option EnvMap
assign_part none m = none
assign_part (some (k, v)) m = some (assign k v m)

unfoldable pub parse_env : List String → Option EnvMap → Option EnvMap
parse_env es none = none
parse_env [] (some m) = some m
parse_env (e ∷ es) (some m) = parse_env es (assign_part (split_env e) m)

abbrev pub submission : Flags → EnvMap → String → JobSubmission
submission f env sha = record {
  job_type = f.job_type;
  binary_url = f.binary_url;
  binary_sha256 = sha;
  arguments = f.args;
  env_variables = env;
  priority = f.priority;
  max_retries = pos 0;
}

abbrev pub with_sha : Flags → EnvMap → Option String → Submitted
with_sha f env none = refused no_sha256
with_sha f env (some sha) = sent (submission f env sha)

module _ (calculate : String → Option String) where
  abbrev pub with_env : Flags → Option EnvMap → Submitted
  with_env f none = refused invalid_env
  with_env f (some env) =
      with_sha f env
        (if is_empty f.binary_sha256 then calculate f.binary_url else some f.binary_sha256)

  unfoldable pub submit_job : Flags → Submitted
  submit_job f =
      if has_space f.job_type
      then refused spaced_type
      else if not (known_priority f.priority)
      then refused invalid_priority
      else with_env f (parse_env f.env (some []))
