-- ===== src/Cli/Inspect.antt =====
-- The commands of cmd/executr/main.go that call the server: `submit` with the download that computes
-- a missing hash, `status` and `cancel`, and the table that `status` prints. tabwriter, encoding/json
-- and the texts of times and numbers are left out: the cells of the table are the values.
use executr.Prelude.{
  Bytes, ℕ, ◌==◌, ℤ, Bool, true, false, Option, none, some, List, [], ◌∷◌, ◌++◌, String, is_empty,
  if◌then◌else◌,
}
use executr.Models
use executr.Models.{UuidNumber, Instant, Status, Priority, EnvMap, priority_text, status_text}
use executr.Store.Row.{Tables, Context}
use executr.Server.Routing.{Codec}
use executr.Client.Calls.{
  Call, submit_job, get_job, cancel_job, Encoder, Decoder, Outcome, got, done,
}
use executr.Client.Sending
use executr.Client.Sending.{Sent, answered, send_from}
use executr.Utils.Http.{new_retryable_http_client}
use executr.Cli.Submit
use executr.Cli.Submit.{Flags, Submitted, sent, refused, Refusal}

-- What `http.Get` gives, without retries: no response, or a status and a body of which `none` breaks
-- off.
pub data Got : Type 0 where
  no_response : Got
  response : ℕ → Option Bytes → Got

abbrev pub hashed : (Bytes → String) → Option Bytes → Option String
hashed hash none = none
hashed hash (some b) = some (hash b)

unfoldable pub calculate_sha256_from_url : (Bytes → String) → Got → Option String
calculate_sha256_from_url hash no_response = none
calculate_sha256_from_url hash (response status body) =
    if status == 200 then hashed hash body else none

pub data Cell : Type 0 where
  id : UuidNumber → Cell
  text : String → Cell
  joined : List String → Cell
  time : Instant → Cell
  number : ℤ → Cell

-- `heading` is a line without a value, `variable` one of the environment, and `section` an output.
pub data Line : Type 0 where
  field : String → Cell → Line
  heading : String → Line
  variable : String → String → Line
  section : String → String → Line

abbrev pub variables : EnvMap → List Line
variables [] = []
variables ((k, v) ∷ m) = variable k v ∷ variables m

abbrev pub arguments_line : List String → List Line
arguments_line [] = []
arguments_line (a ∷ rest) = field "Arguments" (joined (a ∷ rest)) ∷ []

abbrev pub environment_lines : EnvMap → List Line
environment_lines [] = []
environment_lines (e ∷ m) = heading "Environment" ∷ variables (e ∷ m)

abbrev pub text_line : String → String → List Line
text_line label s = if is_empty s then [] else field label (text s) ∷ []

abbrev pub time_line : String → Option Instant → List Line
time_line label none = []
time_line label (some i) = field label (time i) ∷ []

abbrev pub code_line : Option ℤ → List Line
code_line none = []
code_line (some n) = field "Exit Code" (number n) ∷ []

abbrev pub section_line : String → String → List Line
section_line title s = if is_empty s then [] else section title s ∷ []

abbrev pub has_output : Status → Bool
has_output Models.completed = true
has_output Models.failed = true
has_output _ = false

abbrev pub output_lines : Models.Job → List Line
output_lines j =
    if has_output j.status
    then section_line "=== STDOUT ===" j.stdout ++ section_line "=== STDERR ===" j.stderr
    else []

unfoldable pub print_job_table : Models.Job → List Line
print_job_table j =
    field "Job ID" (id j.id)
    ∷ field "Type" (text j.job_type)
    ∷ field "Status" (text (status_text j.status))
    ∷ field "Priority" (text (priority_text j.priority))
    ∷ field "Binary URL" (text j.binary_url)
    ∷ field "Binary SHA256" (text j.binary_sha256)
    ∷ (arguments_line j.arguments
        ++ (environment_lines j.env_variables
            ++ (text_line "Executor ID" j.executor_id
                ++ (field "Created At" (time j.created_at)
                    ∷ (time_line "Started At" j.started_at
                        ++ (time_line "Completed At" j.completed_at
                            ++ (time_line "Last Heartbeat" j.last_heartbeat
                                ++ (text_line "Error" j.error_message
                                    ++ (code_line j.exit_code ++ output_lines j)))))))))

-- How a command ends.
pub data Ended : Type 0 where
  submitted : UuidNumber → Ended
  shown : List Line → Ended
  cancelled : UuidNumber → Ended
  not_submitted : Refusal → Ended
  no_job_id invalid_job_id : Ended
  call_failed : Outcome → Ended
  request_failed : Ended

abbrev pub called : (Outcome → Ended) → Tables × Sent → Tables × Ended
called finish (t, answered o) = (t, finish o)
called finish (t, Sending.request_failed) = (t, request_failed)

abbrev pub after_submit : Outcome → Ended
after_submit (got j) = submitted j.id
after_submit o = call_failed o

abbrev pub after_status : Outcome → Ended
after_status (got j) = shown (print_job_table j)
after_status o = call_failed o

abbrev pub after_cancel : UuidNumber → Outcome → Ended
after_cancel i done = cancelled i
after_cancel i o = call_failed o

-- The commands are given the contexts of the attempts of their call, and when the context of the
-- program ends; `NewClient` retries three times.
module _ (codec : Codec) (encoder : Encoder) (decoder : Decoder) where
  abbrev pub send_call : Call → (ℕ → Context × Context) → (ℕ → Bool) → Tables → Tables × Sent
  send_call call cs ends t =
      send_from call cs ends codec encoder decoder new_retryable_http_client.max_retries 0 t

  abbrev pub send : Submitted → (ℕ → Context × Context) → (ℕ → Bool) → Tables → Tables × Ended
  send (refused why) cs ends t = (t, not_submitted why)
  send (sent s) cs ends t = called after_submit (send_call (submit_job s) cs ends t)

  unfoldable pub submit_command :
      (Bytes → String)
      → (String → Got)
      → Flags
      → (ℕ → Context × Context)
      → (ℕ → Bool)
      → Tables
      → Tables × Ended
  submit_command hash download f cs ends t =
      send (Submit.submit_job (λ url. calculate_sha256_from_url hash (download url)) f) cs ends t

  abbrev pub with_job_id :
      (UuidNumber → Call)
      → (UuidNumber → Outcome → Ended)
      → Option UuidNumber
      → (ℕ → Context × Context)
      → (ℕ → Bool)
      → Tables
      → Tables × Ended
  with_job_id call finish none cs ends t = (t, invalid_job_id)
  with_job_id call finish (some i) cs ends t = called (finish i) (send_call (call i) cs ends t)

  -- The arguments of the command line.
  unfoldable pub status_command :
      List Bytes → (ℕ → Context × Context) → (ℕ → Bool) → Tables → Tables × Ended
  status_command [] cs ends t = (t, no_job_id)
  status_command (a ∷ rest) cs ends t =
      with_job_id get_job (λ i. after_status) (codec.parse_uuid a) cs ends t

  unfoldable pub cancel_command :
      List Bytes → (ℕ → Context × Context) → (ℕ → Bool) → Tables → Tables × Ended
  cancel_command [] cs ends t = (t, no_job_id)
  cancel_command (a ∷ rest) cs ends t =
      with_job_id cancel_job after_cancel (codec.parse_uuid a) cs ends t
