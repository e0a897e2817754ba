-- ===== src/Server/Answers.antt =====
-- What a client sees of the handlers of internal/server/server.go: a submitted job is shown again.
use executr.Prelude.{
  ◌≡◌, ◌∙◌, ap, refl, pos, String, true, false, some, List, ◌∷◌, arith, any, find, eq_iff,
}
use executr.Models
use executr.Models.{
  UuidNumber, JobSubmission, CompleteRequest, FailRequest, Priority, foreground, background,
  best_effort, Status, pending, running, completed, failed, cancelled, status_text, priority_text,
}
use executr.Store.Row.{Job, Tables, Context, ok, has_id, guarded_up}
use executr.Store.Jobs.{CreateJobParams, create_job, insert_job, check_priority, get_job, new_job}
use executr.Server.Http.{respond, job}
use executr.Server.Convert.{EnvJson, IsMap, variable, db_job_to_model}
use executr.Server.Jobs.{
  handle_submit_job, handle_get_job, incomplete, create_params, submitted, get_response,
}

-- The job as it was submitted, waiting.
abbrev pub ShowsSubmission : JobSubmission → Models.Job → Type 0
ShowsSubmission s m =
    (m.job_type ≡ s.job_type)
    × (m.binary_url ≡ s.binary_url)
    × (m.binary_sha256 ≡ s.binary_sha256)
    × (m.arguments ≡ s.arguments)
    × ((k : String) → variable k m.env_variables ≡ variable k s.env_variables)
    × (priority_text m.priority ≡ s.priority)
    × (m.status ≡ pending)

pub check_priority_text :
    (p : String) (q : Priority) → check_priority p ≡ some q → priority_text q ≡ p
check_priority_text p q h =
    ground (arith, eq_iff p "foreground", eq_iff p "background", eq_iff p "best_effort")

pub find-front : (j : Job) (js : List Job) → find (has_id j.id) (j ∷ js) ≡ some j
unfolding find
find-front j js = ground arith

pub created :
    (p : CreateJobParams) (q : Priority) (c : Context) (t : Tables)
    → check_priority p.priority ≡ some q
    → any (has_id c.fresh) t.jobs ≡ false
    → c.up ≡ true
    → let j = new_job p q (pos 0) c in create_job p c t ≡ (record t { jobs = j ∷ t.jobs }, ok j)
unfolding create_job
created p q c t priority new up =
    (guarded_up c t (insert_job p (pos 0) c t) up) ∙ (rw (priority, new))

pub got :
    (i : UuidNumber) (j : Job) (c : Context) (t : Tables)
    → find (has_id i) t.jobs ≡ some j
    → c.up ≡ true
    → get_job i c t ≡ ok j
unfolding get_job
got i j c t found up = ground (arith, found, up)

-- A submission with a type, a binary URL, one of the three priorities and no variable twice, which
-- reaches the database under an id that is not taken, is answered 201 with the job, and asking for
-- that id afterwards, before anything else happens, is answered 200 with the same job: pending,
-- with the type, binary, arguments, value of every variable and priority that were submitted.
pub submit-get :
    (json : EnvJson) (s : JobSubmission) (q : Priority) (c c' c'' : Context) (t : Tables)
    → IsMap s.env_variables
    → incomplete s ≡ false
    → check_priority s.priority ≡ some q
    → any (has_id c.fresh) t.jobs ≡ false
    → c.up ≡ true
    → c'.up ≡ true
    → let (t', r) = handle_submit_job json (some s) c t in
      (m : Models.Job) × (r ≡ respond 201 (job m))
      × (handle_get_job json c.fresh c' c'' t' ≡ respond 200 (job m))
      × ShowsSubmission s m
unfolding handle_submit_job handle_get_job
submit-get json s q c c' c'' t is_map full priority new up up' =
    let j : Job = new_job (create_params json s) q (pos 0) c in
    let shown : ShowsSubmission s (db_job_to_model json j) =
      unfold db_job_to_model in
      (
        refl,
        refl,
        refl,
        refl,
        λ k. json.unmarshal-marshal s.env_variables k is_map,
        check_priority_text s.priority q priority,
        refl,
      ) in
    let there = created (create_params json s) q c t priority new up in
    let made : handle_submit_job json (some s) c t
        ≡ submitted json (record t { jobs = j ∷ t.jobs }, ok j) =
      (rw full) ∙ (ap (submitted json) there) in
    let asked : handle_get_job json c.fresh c' c'' (handle_submit_job json (some s) c t).0
        ≡ respond 200 (job (db_job_to_model json j)) =
      (ap (λ r. handle_get_job json c.fresh c' c'' r.0) made)
      ∙ (ap (get_response json c.fresh)
          (got c.fresh j c' (record t { jobs = j ∷ t.jobs }) (find-front j t.jobs) up')) in
    (db_job_to_model json j, ap (λ r. r.1) made, asked, shown)
