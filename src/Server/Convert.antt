-- ===== src/Server/Convert.antt =====
-- `dbJobToModel`, and the JSON of the environment variables, which encoding/json provides.
use executr.Prelude.{String, Option, none, some, ◌≡◌, find, str_eq, DistinctNames}
use executr.Models
use executr.Models.{EnvMap}
use executr.Store.Row

-- json.Marshal of a map of strings and json.Unmarshal into one, whose error the server ignores
-- (the map then stays empty). A map that is marshalled is unmarshalled with the same entries.
abbrev pub variable : String → EnvMap → Option (String × String)
variable k m = find (λ e. str_eq e.0 k) m

abbrev pub IsMap : EnvMap → Type 0
IsMap m = DistinctNames (λ (e : String × String). e.0) m

pub record EnvJson : Type 0 where
  pub marshal : EnvMap → String
  pub unmarshal : String → EnvMap
  pub unmarshal-marshal :
      (m : EnvMap) (k : String) → IsMap m → variable k (unmarshal (marshal m)) ≡ variable k m

abbrev pub text_or_empty : Option String → String
text_or_empty none = ""
text_or_empty (some s) = s

unfoldable pub db_job_to_model : EnvJson → Row.Job → Models.Job
db_job_to_model json j = record {
  id = j.id;
  job_type = j.job_type;
  binary_url = j.binary_url;
  binary_sha256 = j.binary_sha256;
  arguments = j.arguments;
  env_variables = json.unmarshal j.env_variables;
  priority = j.priority;
  status = j.status;
  executor_id = text_or_empty j.executor_id;
  stdout = text_or_empty j.stdout;
  stderr = text_or_empty j.stderr;
  exit_code = j.exit_code;
  error_message = text_or_empty j.error_message;
  created_at = j.created_at;
  started_at = j.started_at;
  completed_at = j.completed_at;
  last_heartbeat = j.last_heartbeat;
}
