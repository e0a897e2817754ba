-- ===== src/Client/Remote.antt =====
-- The client of pkg/client/client.go and the server of internal/server/server.go together keep
-- the contract.
use executr.Prelude.{
  ℕ, ℤ, pos, negsuc, zero, suc, to_int32-pos, lt→ltb, ◌≡◌, ◌∙◌, ap, sym, refl, ◌++◌, ◌+◌, ◌<◌, Bool,
  false, String, some, List, [], map, length, take, drop, Bytes, ascii, bytes_eq, bytes_eq-length,
  take-front, drop-front, arith, Bool-cases, inl, inr, ltb, leb, length-append,
}
use executr.Models.{UuidNumber, JobSubmission}
use executr.Store.Row.{Job, Tables, Context, Result, ok, no_rows, failure}
use executr.Store.Jobs
use executr.Server.Http.{Method, Response}
use executr.Server.Convert.{db_job_to_model}
use executr.Server.Jobs.{
  create_params, limit_of, offset_of, handle_submit_job, handle_list_jobs, handle_get_job,
  handle_cancel_job, submitted, list_response, get_response, cancel_response,
}
use executr.Server.Execution.{
  complete_params, fail_params, handle_claim_job, handle_heartbeat, handle_complete_job,
  handle_fail_job, claim_response, exec_response,
}
use executr.Server.Routing.{
  Codec, Request, Endpoint, serve, handle_jobs, handle_job_by_id, parsed, sub_path, jobs_prefix,
}
use executr.Client.Calls.{
  ListJobsFilter, Call, submit_job, get_job, list_jobs, cancel_job, claim_next_job, heartbeat,
  complete_job, fail_job, Encoder, Decoder, request, interpret, endpoint, job_path, Outcome,
  parse_error, no_content, if_positive,
}
use executr.Utils.Http.{Answer, should_retry}
use executr.Client.Contract.{
  perform, is_server_error, ReadsJobs, IsReadId, IsRead, IsFull, acknowledged, created, fetched,
  listed, claimed, on_store,
}

not_claim : (id_str : Bytes) → 5 < length id_str → bytes_eq id_str (ascii "claim") ≡ false
not_claim id_str h = elim (Bool-cases (bytes_eq id_str (ascii "claim"))) [
  | inl e ↦ absurd (omega (arith, bytes_eq-length id_str (ascii "claim") e))
  | inr e ↦ e
]

positive : (n : ℕ) → if_positive (pos (suc n)) ≡ some (pos (suc n))
positive n = rw (lt→ltb 0 (suc n) (omega arith)) refl

limit_sent : (n : ℤ) → limit_of (if_positive n) ≡ limit_of (some n)
limit_sent (pos zero) = refl
limit_sent (pos (suc n)) = ap limit_of (positive n)
limit_sent (negsuc n) = refl

offset_sent : (n : ℤ) → offset_of (if_positive n) ≡ offset_of (some n)
offset_sent (pos zero) = sym (to_int32-pos 0 (omega arith))
offset_sent (pos (suc n)) = ap offset_of (positive n)
offset_sent (negsuc n) = refl

-- Tables, an outcome, and whether it is worth a retry: as the store has it, and as a response has it.
abbrev pub Graded : Type 0
Graded = Tables × (Outcome × Bool)

abbrev pub graded : Tables × Outcome → Graded
graded q = (q.0, (q.1, is_server_error q.1))

abbrev pub read_as : Outcome → Tables × Response → Graded
read_as o p = (p.0, (o, should_retry (Answer.response p.1.status)))

module _ (codec : Codec) (encoder : Encoder) (decoder : Decoder) (a : ReadsJobs decoder) where
  -- A path of a job leads to the switch over what follows its identifier.
  to_job :
      (i : UuidNumber) (sub : Bytes) (r : Request) (c c' : Context) (t : Tables)
      → IsReadId codec encoder i
      → r.path ≡ job_path encoder i sub
      → handle_job_by_id codec r c c' t ≡ some (sub_path codec i sub r c c' t)
  unfolding handle_job_by_id
  to_job i sub r c c' t (size_36, read) path =
      let id : Bytes = encoder.render_uuid i in
      let size : length (id ++ sub) ≡ 36 + length sub =
        length-append id sub ∙ ap (λ n. n + length sub) (size_36) in
      let longer : length r.path ≡ 13 + length (id ++ sub) =
        rw path (length-append jobs_prefix (id ++ sub)) in
      let after : drop (length jobs_prefix) r.path ≡ id ++ sub =
        rw path (drop-front jobs_prefix (id ++ sub)) in
      let front : take 36 (id ++ sub) ≡ id =
        ap (λ n. take n (id ++ sub)) (sym (size_36)) ∙ take-front id sub in
      let back : drop 36 (id ++ sub) ≡ sub =
        ap (λ n. drop n (id ++ sub)) (sym (size_36)) ∙ drop-front id sub in
      let known : codec.parse_uuid (take 36 (id ++ sub)) ≡ some i =
        ap codec.parse_uuid front ∙ read in
      let elsewhere : bytes_eq (id ++ sub) (ascii "claim") ≡ false =
        not_claim (id ++ sub) (omega (arith, size)) in
      let long : ltb (length (id ++ sub)) 36 ≡ false = ground (arith, size) in
      let below : leb (length r.path) (length jobs_prefix) ≡ false = ground (arith, longer, size) in
      rw (below, after, elsewhere, long)
        (ap (λ o. some (parsed codec o (id ++ sub) r c c' t)) known
          ∙ ap (λ rest. some (sub_path codec i rest r c c' t)) back)

  -- One request and its response, for what the call is to do.
  pub record Exchanges (call : Call) (c c' : Context) (t : Tables) (q : Tables × Outcome)
      : Type 0 where
    pub reply : Tables × Response
    pub sent : serve codec (endpoint call) (request encoder call) c c' t ≡ some reply
    pub same : read_as (interpret decoder call reply.1) reply ≡ graded q

  acknowledges :
      {A : Type 0} (text : String) (p : Tables × Result A)
      → let r = exec_response text p in
        read_as (no_content decoder r.1) r ≡ graded (acknowledged text p)
  unfolding parse_error
  acknowledges text (t, ok x) = refl
  acknowledges text (t, no_rows) = refl
  acknowledges text (t, failure) = refl

  cancels :
      (p : Tables × Result Job)
      → let r = cancel_response p in
        read_as (no_content decoder r.1) r ≡ graded (acknowledged "Failed to cancel job" p)
  unfolding parse_error
  cancels (t, ok x) = refl
  cancels (t, no_rows) = refl
  cancels (t, failure) = refl

  creates :
      (s : JobSubmission) (p : Tables × Result Job)
      → let r = submitted codec.env p in
        read_as (interpret decoder (submit_job s) r.1) r ≡ graded (created codec.env p)
  unfolding parse_error interpret
  creates s (t, ok j) = rw (a.one (db_job_to_model codec.env j)) refl
  creates s (t, no_rows) = refl
  creates s (t, failure) = refl

  fetches :
      (i : UuidNumber) (t : Tables) (o : Result Job)
      → let r = get_response codec.env i o in
        read_as (interpret decoder (get_job i) r) (t, r) ≡ graded (t, fetched codec.env i o)
  unfolding parse_error interpret
  fetches i t (ok j) = rw (a.one (db_job_to_model codec.env j)) refl
  fetches i t no_rows = refl
  fetches i t failure = refl

  lists :
      (f : ListJobsFilter) (t : Tables) (o : Result (List Job))
      → let r = list_response codec.env o in
        read_as (interpret decoder (list_jobs f) r) (t, r) ≡ graded (t, listed codec.env o)
  unfolding parse_error interpret
  lists f t (ok js) = rw (a.many (map (db_job_to_model codec.env) js)) refl
  lists f t no_rows = refl
  lists f t failure = refl

  claims :
      (e ip : String) (c : Context) (p : Tables × Result Job)
      → let r = claim_response codec.env (record { executor_id = e; executor_ip = ip }) c p in
        read_as (interpret decoder (claim_next_job e ip) r.1) r
        ≡ graded (claimed codec.env e ip c p)
  unfolding parse_error interpret
  claims e ip c (t, ok j) = rw (a.one (db_job_to_model codec.env j)) refl
  claims e ip c (t, no_rows) = refl
  claims e ip c (t, failure) = refl

  on_job :
      (i : UuidNumber) (sub : Bytes) (call : Call) (c c' : Context) (t : Tables)
      → IsReadId codec encoder i
      → endpoint call ≡ Endpoint.job_by_id
      → (request encoder call).path ≡ job_path encoder i sub
      → serve codec (endpoint call) (request encoder call) c c' t
        ≡ some (sub_path codec i sub (request encoder call) c c' t)
  unfolding serve
  on_job i sub call c c' t read e path = rw e (to_job i sub (request encoder call) c c' t read path)

  -- Each call, whose parts the server reads as the client wrote them.
  pub exchanges :
      (call : Call) (c c' : Context) (t : Tables)
      → IsRead codec encoder call
      → IsFull call
      → Exchanges call c c' t (on_store codec.env call c c' t)
  unfolding on_store serve request interpret handle_jobs handle_submit_job handle_list_jobs
      handle_get_job handle_cancel_job handle_claim_job handle_heartbeat handle_complete_job
      handle_fail_job
  exchanges (submit_job s) c c' t read full = record {
    reply = submitted codec.env (Jobs.create_job (create_params codec.env s) c t);
    sent = ap (λ o. some (handle_submit_job codec.env o c t)) read ∙ rw full refl;
    same = creates s (Jobs.create_job (create_params codec.env s) c t);
  }
  exchanges (get_job i) c c' t read full = record {
    reply = (t, get_response codec.env i (Jobs.get_job i c t));
    sent = on_job i [] (get_job i) c c' t read refl refl;
    same = fetches i t (Jobs.get_job i c t);
  }
  exchanges (list_jobs f) c c' t read full =
      let query : ℤ → ℤ → Jobs.ListJobsParams = λ limit offset. record {
        status = f.status;
        job_type = f.job_type;
        priority = f.priority;
        limit = limit;
        offset = offset;
      } in
      let answer : ℤ → ℤ → Graded =
        λ limit offset. graded (t, listed codec.env (Jobs.list_jobs (query limit offset) c t)) in
      let limit : ℤ = limit_of (if_positive f.limit) in
      let offset : ℤ = offset_of (if_positive f.offset) in
      record {
        reply = (t, list_response codec.env (Jobs.list_jobs (query limit offset) c t));
        sent = refl;
        same =
            lists f t (Jobs.list_jobs (query limit offset) c t)
            ∙ (ap (λ l. answer l offset) (limit_sent f.limit)
                ∙ ap (answer (limit_of (some f.limit))) (offset_sent f.offset));
      }
  exchanges (cancel_job i) c c' t read full = record {
    reply = cancel_response (Jobs.cancel_job i c t);
    sent = on_job i [] (cancel_job i) c c' t read refl refl;
    same = cancels (Jobs.cancel_job i c t);
  }
  exchanges (claim_next_job e ip) c c' t read full = record {
    reply =
        claim_response codec.env (record { executor_id = e; executor_ip = ip }) c'
          (Jobs.claim_next_job e c t);
    sent =
        ap (λ o. some (handle_claim_job codec.env Method.post o c c' t)) read
        ∙ rw (full.0, full.1) refl;
    same = claims e ip c' (Jobs.claim_next_job e c t);
  }
  exchanges (heartbeat i e) c c' t read full = record {
    reply = exec_response "Failed to update heartbeat" (Jobs.update_heartbeat i e c t);
    sent =
        on_job i (ascii "/heartbeat") (heartbeat i e) c c' t read.0 refl refl
        ∙ (ap (λ o. some (handle_heartbeat i o c t)) read.1 ∙ rw full refl);
    same = acknowledges "Failed to update heartbeat" (Jobs.update_heartbeat i e c t);
  }
  exchanges (complete_job i r) c c' t read full = record {
    reply = exec_response "Failed to complete job" (Jobs.complete_job (complete_params i r) c t);
    sent =
        on_job i (ascii "/complete") (complete_job i r) c c' t read.0 refl refl
        ∙ (ap (λ o. some (handle_complete_job i o c t)) read.1 ∙ rw full refl);
    same = acknowledges "Failed to complete job" (Jobs.complete_job (complete_params i r) c t);
  }
  exchanges (fail_job i r) c c' t read full = record {
    reply = exec_response "Failed to mark job as failed" (Jobs.fail_job (fail_params i r) c t);
    sent =
        on_job i (ascii "/fail") (fail_job i r) c c' t read.0 refl refl
        ∙ (ap (λ o. some (handle_fail_job i o c t)) read.1 ∙ rw (full.0, full.1) refl);
    same = acknowledges "Failed to mark job as failed" (Jobs.fail_job (fail_params i r) c t);
  }

  -- A call with the fields that the server requires, whose parts the server reads as the client wrote
  -- them, is answered by its first request, with the effect of its operation on the job store, and
  -- with a response that stands for the outcome; a claim that gets a job also records the attempt.
  pub perform-on_store :
      (call : Call) (c c' : Context) (t : Tables)
      → IsRead codec encoder call
      → IsFull call
      → perform codec encoder decoder call c c' t ≡ some (on_store codec.env call c c' t)
  perform-on_store call c c' t read full =
      let e = exchanges call c c' t read full in
      rw (e.sent, perform) (ap (λ (x : Graded). some (x.0, x.1.0)) e.same)
