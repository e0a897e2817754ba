-- ===== src/Executor/Runner.antt =====
-- `JobRunner.Execute` of internal/executor/runner.go, `executeJob` and `failJob` of
-- internal/executor/executor.go. What a command does, the file system and the texts of errors are
-- arguments; `text` is the text that a string of bytes is sent as.
use executr.Prelude.{
  ℤ, pos, negsuc, String, Option, none, some, List, [], ◌∷◌, ◌++◌, Bytes, ascii, Bool, false, ◌==◌,
  if◌then◌else◌,
}
use Prim.Native.String.{◌++◌ as append}
use executr.Models.{UuidNumber, EnvMap, Job}
use executr.Executor.Output.{truncate_output}
use executr.Executor.Cache.{BinaryCache, World, Fault, Binary, ready, fault, get_binary}
use executr.Client.Calls.{Call, complete_job, fail_job}

-- `cmd.Env` is the job's environment and nothing else.
pub record Command : Type 0 where
  pub path : String
  pub arguments : List String
  pub dir : String
  pub env : List String

-- What `cmd.Run` returns: nil, an ExitError with its code, or another error with its text.
pub data Exit : Type 0 where
  success : Exit
  exit_error : ℤ → Exit
  other_error : Bytes → Exit

pub record CommandRun : Type 0 where
  pub exit : Exit
  pub stdout : Bytes
  pub stderr : Bytes

pub record JobRunner : Type 0 where
  pub binary_path : String
  pub arguments : List String
  pub env_vars : EnvMap
  pub work_dir : String

pub record JobResult : Type 0 where
  pub stdout : String
  pub stderr : String
  pub exit_code : ℤ

abbrev pub env_entries : EnvMap → List String
env_entries [] = []
env_entries ((key, value) ∷ m) = append key (append "=" value) ∷ env_entries m

abbrev pub command : JobRunner → Command
command r = record {
  path = r.binary_path;
  arguments = r.arguments;
  dir = r.work_dir;
  env = env_entries r.env_vars;
}

abbrev pub is_zero : ℤ → Bool
is_zero (pos n) = n == 0
is_zero (negsuc n) = false

-- The exit code, and what is written to stderr after the command.
abbrev pub exit_code_of : Exit → ℤ
exit_code_of success = pos 0
exit_code_of (exit_error n) = n
exit_code_of (other_error e) = negsuc 0

abbrev pub error_note : Exit → Bytes
error_note success = []
error_note (exit_error n) = []
error_note (other_error e) = ascii "\nExecution error: " ++ e

-- The file system's error on a directory, if there is one.
pub record Host : Type 0 where
  pub executor_id : String
  pub job_dir : UuidNumber → String
  pub mkdir : String → Option String
  pub fault_text : Fault → String
  pub render : UuidNumber → String
  pub parse : String → Option UuidNumber
  pub run : Command → CommandRun
  pub text : Bytes → String

module _ (host : Host) where
  abbrev pub execute : JobRunner → JobResult
  execute r =
      let c : CommandRun = host.run (command r) in
      record {
        stdout = host.text (truncate_output c.stdout);
        stderr = host.text (truncate_output (c.stderr ++ error_note c.exit));
        exit_code = exit_code_of c.exit;
      }

  -- `failJob`, which gives up on an identifier that it cannot parse.
  abbrev pub failure_report : JobResult → Option UuidNumber → Option Call
  failure_report result none = none
  failure_report result (some i) = some (
      fail_job i (record {
        executor_id = host.executor_id;
        error_message = result.stderr;
        stdout = result.stdout;
        stderr = result.stderr;
        exit_code = result.exit_code;
      }))

  abbrev pub fail : String → JobResult → Option Call
  fail job_id result = failure_report result (host.parse job_id)

  abbrev pub not_run : String → JobResult
  not_run stderr = record { stdout = ""; stderr = stderr; exit_code = negsuc 0 }

  -- The report on a job that ran.
  abbrev pub report : UuidNumber → JobResult → Call
  report i result =
      if is_zero result.exit_code
      then complete_job i (record {
        executor_id = host.executor_id;
        stdout = result.stdout;
        stderr = result.stderr;
        exit_code = result.exit_code;
      })
      else fail_job i (record {
        executor_id = host.executor_id;
        error_message = "Job failed with non-zero exit code";
        stdout = result.stdout;
        stderr = result.stderr;
        exit_code = result.exit_code;
      })

  abbrev pub runner : Job → String → JobRunner
  runner j path = record {
    binary_path = path;
    arguments = j.arguments;
    env_vars = j.env_variables;
    work_dir = host.job_dir j.id;
  }

  abbrev pub with_binary : Job → BinaryCache × Binary → BinaryCache × Option Call
  with_binary j (c, fault f) =
      (c, fail (host.render j.id) (not_run (append "Failed to get binary: " (host.fault_text f))))
  with_binary j (c, ready path) = (c, some (report j.id (execute (runner j path))))

  abbrev pub in_directory :
      (Bytes → String)
      → (String → String)
      → World
      → Job
      → BinaryCache
      → Option String
      → BinaryCache × Option Call
  in_directory hash join w j c (some e) =
      (c, fail (host.render j.id) (not_run (append "Failed to create job directory: " e)))
  in_directory hash join w j c none = with_binary j (get_binary hash join w j.binary_sha256 c)

  -- The cache after the job, and the report that is sent, if one is.
  unfoldable pub execute_job :
      (Bytes → String) → (String → String) → World → Job → BinaryCache → BinaryCache × Option Call
  execute_job hash join w j c = in_directory hash join w j c (host.mkdir (host.job_dir j.id))
