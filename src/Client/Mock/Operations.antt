-- ===== src/Client/Mock/Operations.antt =====
-- The operations of `MockClient` of pkg/client/mock.go. The order in which `range` visits the map
-- is an argument. The operations hand out pointers to the jobs that they keep; here an answer shows
-- the job as it is at that moment.
use executr.Prelude.{String, not, Option, none, some, List, [], str_eq, if◌then◌else◌, keep, find}
use executr.Models.{UuidNumber, cancelled, JobSubmission, CompleteRequest, FailRequest}
use executr.Client.Calls.{ListJobsFilter, Call}
use executr.Client.Errors.{sentinel, err_job_not_found, err_bad_request, err_unauthorized}
use executr.Store.Jobs.{is_pending, is_running}
use executr.Client.Mock.{
  MockJob, HealthReply, health_response, Reply, got, got_all, no_job, done, refused, MockClient,
  job_at, put_job, change_job, submitted_job, passes_filter, page, claim_of, completion_of,
  failure_of,
}

-- `if m.XFunc != nil { return m.XFunc(…) }`, and otherwise the mock's own answer.
abbrev pub unless_replaced : Option Reply → MockClient → MockClient × Reply → MockClient × Reply
unless_replaced none m own = own
unless_replaced (some answer) m own = (m, answer)

abbrev pub applied {ℓ} : {A : Type ℓ} → Option (A → Reply) → A → Option Reply
applied none a = none
applied (some f) a = some (f a)

abbrev pub applied_two {ℓ κ} :
    {A : Type ℓ} {B : Type κ} → Option (A → B → Reply) → A → B → Option Reply
applied_two none a b = none
applied_two (some f) a b = some (f a b)

-- `fresh` is what uuid.New gives.
unfoldable pub submit_job : UuidNumber → JobSubmission → MockClient → MockClient × Reply
submit_job fresh s m =
    unless_replaced (applied m.replaced.submit_job_func s) m
      (put_job (submitted_job fresh s) m, got (submitted_job fresh s))

abbrev pub found : Option MockJob → Reply
found none = refused (sentinel err_job_not_found)
found (some j) = got j

unfoldable pub get_job : UuidNumber → MockClient → MockClient × Reply
get_job i m = unless_replaced (applied m.replaced.get_job_func i) m (m, found (job_at i m))

-- The three operations of an executor on a job: the job has to be there, to run, and to be the
-- executor's. `next` is the mock after an operation that may take place.
abbrev pub if_held :
    String → (MockJob → MockClient) → MockClient → Option MockJob → MockClient × Reply
if_held e next m none = (m, refused (sentinel err_job_not_found))
if_held e next m (some j) =
    if not (is_running j.status)
    then (m, refused (sentinel err_bad_request))
    else if not (str_eq j.executor_id e)
    then (m, refused (sentinel err_unauthorized))
    else (next j, done)

unfoldable pub heartbeat : UuidNumber → String → MockClient → MockClient × Reply
heartbeat i e m =
    unless_replaced (applied_two m.replaced.heartbeat_func i e) m
      (if_held e (λ j. m) m (job_at i m))

unfoldable pub complete_job : UuidNumber → CompleteRequest → MockClient → MockClient × Reply
complete_job i r m =
    unless_replaced (applied_two m.replaced.complete_job_func i r) m
      (if_held r.executor_id (λ j. change_job j.id (completion_of r) m) m (job_at i m))

unfoldable pub fail_job : UuidNumber → FailRequest → MockClient → MockClient × Reply
fail_job i r m =
    unless_replaced (applied_two m.replaced.fail_job_func i r) m
      (if_held r.executor_id (λ j. change_job j.id (failure_of r) m) m (job_at i m))

abbrev pub cancel_found : MockClient → Option MockJob → MockClient × Reply
cancel_found m none = (m, refused (sentinel err_job_not_found))
cancel_found m (some j) =
    if not (is_pending j.status)
    then (m, refused (sentinel err_bad_request))
    else (change_job j.id (λ x. record x { status = cancelled }) m, done)

unfoldable pub cancel_job : UuidNumber → MockClient → MockClient × Reply
cancel_job i m =
    unless_replaced (applied m.replaced.cancel_job_func i) m (cancel_found m (job_at i m))

module _ (visit : List MockJob → List MockJob) where
  unfoldable pub list_jobs : ListJobsFilter → MockClient → MockClient × Reply
  list_jobs f m =
      unless_replaced (applied m.replaced.list_jobs_func f) m
        (m, got_all (page f (keep (passes_filter f) (visit m.jobs))))

  abbrev pub claim_found : String → MockClient → Option MockJob → MockClient × Reply
  claim_found e m none = (m, no_job)
  claim_found e m (some j) = (change_job j.id (claim_of e) m, got (claim_of e j))

  unfoldable pub claim_next_job : String → String → MockClient → MockClient × Reply
  claim_next_job e ip m =
      unless_replaced (applied_two m.replaced.claim_next_job_func e ip) m
        (claim_found e m (find (λ j. is_pending j.status) (visit m.jobs)))

  -- The mock as the client of a call.
  unfoldable pub respond : Call → UuidNumber → MockClient → MockClient × Reply
  respond (Call.submit_job s) fresh m = submit_job fresh s m
  respond (Call.get_job i) fresh m = get_job i m
  respond (Call.list_jobs f) fresh m = list_jobs f m
  respond (Call.cancel_job i) fresh m = cancel_job i m
  respond (Call.claim_next_job e ip) fresh m = claim_next_job e ip m
  respond (Call.heartbeat i e) fresh m = heartbeat i e m
  respond (Call.complete_job i r) fresh m = complete_job i r m
  respond (Call.fail_job i r) fresh m = fail_job i r m

unfoldable pub health : MockClient → HealthReply
health m = elim m.replaced.health_func [
  | none ↦ health_response (record { status = "healthy"; database = "connected" })
  | some reply ↦ reply
]

unfoldable pub add_job : MockJob → MockClient → MockClient
add_job j m = put_job j m

unfoldable pub get_all_jobs : MockClient → List MockJob
get_all_jobs m = m.jobs

unfoldable pub clear_jobs : MockClient → MockClient
clear_jobs m = record m { jobs = [] }
