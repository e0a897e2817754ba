-- ===== src/Client/Mock/Same.antt =====
-- When a job of the mock of pkg/client/mock.go is a row of the server's table, and the changes of
-- the one that are changes of the other.
use executr.Prelude.{
  ◌≡◌, ◌∙◌, refl, sym, ap, String, ℤ, pos, negsuc, zero, suc, to_int32, is_empty, none, some,
  eq_iff, Bool-cases, inl, inr,
}
use executr.Models
use executr.Models.{
  UuidNumber, Instant, JobSubmission, CompleteRequest, FailRequest, Status, cancelled,
  priority_text,
}
use executr.Store.Row.{Job, Context}
use executr.Store.Jobs.{claimed_job, completed_job, failed_job, new_job, check_priority}
use executr.Lifecycle.Updates.{cancelled_job}
use executr.Server.Convert.{EnvJson, IsMap, variable, text_or_empty}
use executr.Server.Jobs.{create_params}
use executr.Server.Execution.{complete_params, fail_params, text_if_set, int_if_set}
use executr.Server.Answers.{check_priority_text}
use executr.Client.Mock.{MockJob, submitted_job, claim_of, completion_of, failure_of, nonzero_code}

-- What was submitted.
abbrev pub SameSubmission : EnvJson → MockJob → Job → Type 0
SameSubmission env j r =
    (j.id ≡ r.id)
    × (j.job_type ≡ r.job_type)
    × (j.binary_url ≡ r.binary_url)
    × (j.binary_sha256 ≡ r.binary_sha256)
    × (j.arguments ≡ r.arguments)
    × ((k : String) → variable k j.env_variables ≡ variable k (env.unmarshal r.env_variables))
    × (j.priority ≡ priority_text r.priority)

-- What has become of it. Times, and what concerns retries, the mock does not keep.
abbrev pub SameState : MockJob → Job → Type 0
SameState j r =
    (j.status ≡ r.status)
    × (j.executor_id ≡ text_or_empty r.executor_id)
    × (j.stdout ≡ text_or_empty r.stdout)
    × (j.stderr ≡ text_or_empty r.stderr)
    × (j.exit_code ≡ r.exit_code)
    × (j.error_message ≡ text_or_empty r.error_message)

abbrev pub Same : EnvJson → MockJob → Job → Type 0
Same env j r = SameSubmission env j r × SameState j r

text_kept : (s : String) → text_or_empty (text_if_set s) ≡ s
text_kept s = elim (Bool-cases (is_empty s)) [
  | inl e ↦ rw e (sym ((eq_iff s "").0 e))
  | inr e ↦ rw e refl
]

-- An exit code that fits 32 bits, over none.
code_kept : (n : ℤ) → to_int32 n ≡ n → nonzero_code n none ≡ int_if_set n
code_kept (pos zero) fits = refl
code_kept (pos (suc n)) fits = ap some (sym fits)
code_kept (negsuc n) fits = ap some (sym fits)

module _ (env : EnvJson) where
  pub submitted-Same :
      (s : JobSubmission) (p : Models.Priority) (c : Context)
      → check_priority s.priority ≡ some p
      → IsMap s.env_variables
      → Same env (submitted_job c.fresh s) (new_job (create_params env s) p (pos 0) c)
  submitted-Same s p c known map = (
    (
      refl,
      refl,
      refl,
      refl,
      refl,
      λ k. sym (env.unmarshal-marshal s.env_variables k map),
      sym (check_priority_text s.priority p known),
    ),
    (refl, refl, refl, refl, refl, refl),
  )

  pub claim-Same :
      (e : String) (now : Instant) (j : MockJob) (r : Job)
      → Same env j r
      → Same env (claim_of e j) (claimed_job e now r)
  claim-Same e now j r (spec, (status, executor, out, err, code, note)) =
      (spec, (refl, refl, out, err, code, note))

  pub cancel-Same :
      (now : Instant) (j : MockJob) (r : Job)
      → Same env j r
      → Same env (record j { status = cancelled }) (cancelled_job now r)
  cancel-Same now j r (spec, (status, executor, out, err, code, note)) =
      (spec, (refl, executor, out, err, code, note))

  pub completion-Same :
      (i : UuidNumber) (q : CompleteRequest) (now : Instant) (j : MockJob) (r : Job)
      → to_int32 q.exit_code ≡ q.exit_code
      → Same env j r
      → Same env (completion_of q j) (completed_job (complete_params i q) now r)
  completion-Same i q now j r fits (spec, (status, executor, out, err, code, note)) =
      (spec, (refl, executor, refl, refl, ap some (sym fits), note))

  -- A row that runs has no exit code yet.
  pub failure-Same :
      (i : UuidNumber) (q : FailRequest) (now : Instant) (j : MockJob) (r : Job)
      → to_int32 q.exit_code ≡ q.exit_code
      → r.exit_code ≡ none
      → Same env j r
      → Same env (failure_of q j) (failed_job (fail_params i q) now r)
  failure-Same i q now j r fits fresh (spec, (status, executor, out, err, code, note)) = (
    spec,
    (
      refl,
      executor,
      sym (text_kept q.stdout),
      sym (text_kept q.stderr),
      ap (nonzero_code q.exit_code) (code ∙ fresh) ∙ code_kept q.exit_code fits,
      refl,
    ),
  )
