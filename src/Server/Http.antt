-- ===== src/Server/Http.antt =====
-- What the handlers of internal/server/server.go are given and answer: methods, status codes and
-- bodies. A request's body is already decoded; `none` is a body that json.Decode refuses.
use executr.Prelude.{ℕ, String, Option, List, Bool}
use executr.Models.{UuidNumber, Instant, Priority, Status, Job}

pub data Method : Type 0 where
  get post put delete other : Method

-- The `context` of an error body.
pub data Detail : Type 0 where
  nothing : Detail
  id_text : List ℕ → Detail
  job_id : UuidNumber → Detail

pub record BulkResult : Type 0 where
  pub index : ℕ
  pub success : Bool
  pub job_id : Option UuidNumber
  pub error : String

pub record ExecutorInfo : Type 0 where
  pub executor_id : String
  pub current_job_id : Option UuidNumber
  pub job_type : Option String
  pub last_heartbeat : Option Instant
  pub jobs_completed : ℕ

-- What the health check finds.
pub record Health : Type 0 where
  pub status : String
  pub database : String

pub data Body : Type 0 where
  empty : Body
  text : String → Body
  error : String → Detail → Body
  job : Job → Body
  jobs : List Job → Body
  bulk : ℕ → ℕ → ℕ → List BulkResult → Body
  bulk_cancel : ℕ → ℕ → ℕ → Body
  stats : List (Status × ℕ) → List (Priority × ℕ) → ℕ → Instant → Body
  executors : List ExecutorInfo → Body
  health : Health → Body

pub record Response : Type 0 where
  pub status : ℕ
  pub body : Body

abbrev pub respond : ℕ → Body → Response
respond status body = record { status = status; body = body }

-- `s.writeError`.
abbrev pub write_error : ℕ → String → Detail → Response
write_error code message detail = respond code (error message detail)

-- `http.Error(w, "Method not allowed", …)`.
abbrev pub method_not_allowed : Response
method_not_allowed = respond 405 (text "Method not allowed")
