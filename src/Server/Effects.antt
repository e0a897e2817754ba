-- ===== src/Server/Effects.antt =====
-- What a handler of internal/server/server.go may do to the tables, and the answers to a statement.
use executr.Prelude.{
  ◌<◌, ◌≡◌, ◌⊎◌, refl, sym, Bool, true, false, Option, none, some, arith, if◌then◌else◌, Bool-cases,
  inl, inr, String, ℤ, pos, any,
}
use mathlib.Core.Path.{subst}
use executr.Models.{Priority, UuidNumber, ClaimRequest}
use executr.Store.Row.{
  Job, Tables, Context, Result, ok, no_rows, failure, has_id, guarded, guarded_up, guarded_down,
}
use executr.Store.Jobs
use executr.Store.Jobs.{CreateJobParams, insert_with, insert_job, check_priority}
use executr.Store.Attempts
use executr.Store.Attempts.{RecordJobAttemptParams}
use executr.Store.Statement.{Statement, exec}
use executr.Lifecycle.Tables.{IsValid}
use executr.Lifecycle.Reachable.{exec-IsValid}
use executr.Lifecycle.Updates.{UpdatesOne}
use executr.Lifecycle.Claiming.{Claims}
use executr.Server.Http.{Response, Detail, respond, write_error, empty, job}
use executr.Server.Convert.{EnvJson, db_job_to_model}
use executr.Server.Jobs.{submitted, cancel_response}
use executr.Server.Execution.{exec_response, claim_response}

-- What a handler may do to the tables: nothing, or if it answers with success what one or two
-- statements do.
pub data Effect (t : Tables) : Tables × Response → Type 0 where
  nothing : (r : Response) → Effect t (t, r)
  one : (s : Statement) (c : Context) (r : Response) → r.status < 400 → Effect t (exec s c t, r)
  two :
      (s s' : Statement) (c c' : Context) (r : Response)
      → r.status < 400
      → Effect t (exec s' c' (exec s c t), r)

pub Effect-IsValid : {t : Tables} {p : Tables × Response} → Effect t p → IsValid t → IsValid p.0
Effect-IsValid (nothing r) v = v
Effect-IsValid {t} (one s c r h) v = exec-IsValid s c t v
Effect-IsValid {t} (two s s' c c' r h) v = exec-IsValid s' c' (exec s c t) (exec-IsValid s c t v)

pub Effect-error :
    {t : Tables} {p : Tables × Response} → Effect t p → (p.1.status < 400) ⊎ (p.0 ≡ t)
Effect-error (nothing r) = inr refl
Effect-error (one s c r k) = inl k
Effect-error (two s s' c c' r k) = inl k

-- A statement that answers no row or an error has changed nothing.
abbrev pub Keeps : {A : Type 0} → Tables → Tables × Result A → Type 0
Keeps t (t', ok a) = Unit {0}
Keeps t (t', no_rows) = t' ≡ t
Keeps t (t', failure) = t' ≡ t

pub UpdatesOne-Keeps :
    (i : UuidNumber) (w : Job → Bool) (f : Job → Job) (c : Context) (t : Tables)
    (p : Tables × Result Job)
    → UpdatesOne i w f c t p
    → Keeps t p
UpdatesOne-Keeps i w f c t (t', ok j) u = tt
UpdatesOne-Keeps i w f c t (t', no_rows) u = u.0
UpdatesOne-Keeps i w f c t (t', failure) u = u.0

pub Claims-Keeps :
    (e : String) (c : Context) (t : Tables) (p : Tables × Result Job) → Claims e c t p → Keeps t p
Claims-Keeps e c t (t', ok j) u = tt
Claims-Keeps e c t (t', no_rows) u = u.0
Claims-Keeps e c t (t', failure) u = u.0

pub insert_with-Keeps :
    (o : Option Priority) (p : CreateJobParams) (m : ℤ) (c : Context) (t : Tables)
    → Keeps t (insert_with o p m c t)
insert_with-Keeps none p m c t = refl
insert_with-Keeps (some q) p m c t = elim (Bool-cases (any (has_id c.fresh) t.jobs)) [
  | inl e ↦ rw e
  | inr e ↦ rw e tt
]

pub guarded-Keeps :
    {A : Type 0} (c : Context) (t : Tables) (p : Tables × Result A)
    → Keeps t p
    → Keeps t (guarded c t p)
guarded-Keeps c t p h = elim (Bool-cases c.up) [
  | inl u ↦ subst (Keeps t) (sym (guarded_up c t p u)) h
  | inr u ↦ subst (Keeps t) (sym (guarded_down c t p u)) refl
]

pub create_job-Keeps :
    (p : CreateJobParams) (c : Context) (t : Tables) → Keeps t (Jobs.create_job p c t)
unfolding Jobs.create_job
create_job-Keeps p c t =
    guarded-Keeps c t (insert_job p (pos 0) c t)
      (insert_with-Keeps (check_priority p.priority) p (pos 0) c t)

pub heartbeat-Keeps :
    (i : UuidNumber) (e : String) (c : Context) (t : Tables)
    → Keeps t (Jobs.update_heartbeat i e c t)
unfolding Jobs.update_heartbeat
heartbeat-Keeps i e c t = guarded-Keeps c t _ tt

module _ (t : Tables) (s : Statement) (c : Context) where
  -- Of the three answers to a statement, only success has its effect.
  pub exec_response-Effect :
      {A : Type 0} (message : String) (p : Tables × Result A)
      → p.0 ≡ exec s c t
      → Keeps t p
      → Effect t (exec_response message p)
  exec_response-Effect message (t', ok a) e k =
      subst (λ x. Effect t (x, respond 204 empty)) (sym e)
        (one s c (respond 204 empty) (omega arith))
  exec_response-Effect message (t', no_rows) e k =
      subst (λ x. Effect t (x, write_error 500 message Detail.nothing)) (sym k)
        (nothing (write_error 500 message Detail.nothing))
  exec_response-Effect message (t', failure) e k =
      subst (λ x. Effect t (x, write_error 500 message Detail.nothing)) (sym k)
        (nothing (write_error 500 message Detail.nothing))

  pub cancel_response-Effect :
      (p : Tables × Result Job) → p.0 ≡ exec s c t → Keeps t p → Effect t (cancel_response p)
  cancel_response-Effect (t', ok a) e k = exec_response-Effect "Failed to cancel job" (t', ok a) e k
  cancel_response-Effect (t', no_rows) e k =
      exec_response-Effect {A = Job} "Failed to cancel job" (t', no_rows) e k
  cancel_response-Effect (t', failure) e k =
      exec_response-Effect {A = Job} "Failed to cancel job" (t', failure) e k

  pub submitted-Effect :
      (json : EnvJson) (p : Tables × Result Job)
      → p.0 ≡ exec s c t
      → Keeps t p
      → Effect t (submitted json p)
  submitted-Effect json (t', ok j) e k =
      let r : Response = respond 201 (job (db_job_to_model json j)) in
      subst (λ x. Effect t (x, r)) (sym e) (one s c r (omega arith))
  submitted-Effect json (t', no_rows) e k =
      exec_response-Effect {A = Job} "Failed to create job" (t', no_rows) e k
  submitted-Effect json (t', failure) e k =
      exec_response-Effect {A = Job} "Failed to create job" (t', failure) e k

  pub claim_response-Effect :
      (json : EnvJson) (r : ClaimRequest) (c' : Context) (p : Tables × Result Job)
      → p.0 ≡ exec s c t
      → Keeps t p
      → Effect t (claim_response json r c' p)
  claim_response-Effect json r c' (t', no_rows) e k =
      subst (λ x. Effect t (x, respond 204 empty)) (sym k) (nothing (respond 204 empty))
  claim_response-Effect json r c' (t', failure) e k =
      exec_response-Effect {A = Job} "Failed to claim job" (t', failure) e k
  claim_response-Effect json r c' (t', ok j) e k =
      let a : RecordJobAttemptParams = record {
        job_id = j.id;
        executor_id = r.executor_id;
        executor_ip = r.executor_ip;
      } in
      let answer : Response = respond 200 (job (db_job_to_model json j)) in
      unfold exec in
      subst (λ x. Effect t ((Attempts.record_job_attempt a c' x).0, answer)) (sym e)
        (two s (Statement.record_job_attempt a) c c' answer (omega arith))

-- A refused request.
pub refused-Effect :
    (b : Bool) (t : Tables) (r : Response) (p : Tables × Response)
    → Effect t p
    → Effect t (if b then (t, r) else p)
refused-Effect true t r p h = nothing r
refused-Effect false t r p h = h
