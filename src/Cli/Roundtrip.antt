-- ===== src/Cli/Roundtrip.antt =====
-- From the flags of `submit` to the table of `status`, through the client, the server and the tables.
use executr.Prelude.{
  Bytes, ℕ, Bool, if◌then◌else◌, ◌≡◌, ◌∙◌, refl, sym, ap, true, false, some, List, [], ◌∷◌, String,
  is_empty, pos, any,
}
use mathlib.Core.Path.{subst}
use executr.Models
use executr.Models.{UuidNumber, Priority, pending, priority_text, JobSubmission, EnvMap}
use executr.Store.Row.{Job, Tables, Context, has_id, get}
use executr.Store.Jobs.{check_priority, new_job}
use executr.Server.Convert.{db_job_to_model}
use executr.Server.Jobs.{create_params, incomplete}
use executr.Server.Answers.{created, got, find-front, check_priority_text}
use executr.Server.Routing.{Codec}
use executr.Client.Calls.{Call, submit_job, get_job, Encoder, Decoder, Outcome}
use executr.Client.Contract
use executr.Client.Contract.{ReadsJobs, IsRead, IsReadId, IsFull, on_store, is_server_error}
use executr.Client.Sending
use executr.Client.Sending.{answered, has_body, on_store_from}
use executr.Client.Resending.{send_from-on_store}
use executr.Cli.Submit
use executr.Cli.Submit.{
  Flags, Submitted, sent, refused, submission, with_sha, with_env, parse_env, has_space,
  known_priority,
}
use executr.Cli.Submissions.{submit_job-IsSound}
use executr.Cli.Table.{HasFlags, ShowsFlags, table-ShowsFlags}
use executr.Cli.Inspect.{
  Got, Line, calculate_sha256_from_url, Ended, submitted, shown, print_job_table, submit_command,
  status_command, send, send_call, called, after_submit, after_status, with_job_id,
}

module _ (codec : Codec) (encoder : Encoder) (decoder : Decoder) (a : ReadsJobs decoder) where
  -- A call whose operation succeeds is not sent again.
  sent_once :
      (call : Call) (cs : ℕ → Context × Context) (ends : ℕ → Bool) (t t' : Tables) (m : Models.Job)
      → IsRead codec encoder call
      → IsFull call
      → on_store codec.env call (cs 0).0 (cs 0).1 t ≡ (t', Outcome.got m)
      → send_call codec encoder decoder call cs ends t ≡ (t', answered (Outcome.got m))
  unfolding on_store_from
  sent_once call cs ends t t' m read full does =
      send_from-on_store codec encoder decoder call cs ends 3 0 t a read full
      ∙ ap
          (λ (q : Tables × Outcome).
            if is_server_error q.1
            then (if ends 0
                then (q.0, Sending.request_failed)
                else if has_body call
                then (q.0, Sending.request_failed)
                else on_store_from call cs ends codec.env 2 1 q.0)
            else (q.0, answered q.1))
          does

  submits :
      (s : JobSubmission) (q : Priority) (cs : ℕ → Context × Context) (ends : ℕ → Bool) (t : Tables)
      → IsRead codec encoder (submit_job s)
      → incomplete s ≡ false
      → check_priority s.priority ≡ some q
      → any (has_id (cs 0).0.fresh) t.jobs ≡ false
      → (cs 0).0.up ≡ true
      → let j : Job = new_job (create_params codec.env s) q (pos 0) (cs 0).0 in
        send_call codec encoder decoder (submit_job s) cs ends t
        ≡ (record t { jobs = j ∷ t.jobs }, answered (Outcome.got (db_job_to_model codec.env j)))
  unfolding on_store
  submits s q cs ends t read full known new up = sent_once (submit_job s) cs ends t _ _ read full (
      ap (Contract.created codec.env)
        (created (create_params codec.env s) q (cs 0).0 t known new up))

  asks :
      (i : UuidNumber) (j : Job) (cs : ℕ → Context × Context) (ends : ℕ → Bool) (t : Tables)
      → IsReadId codec encoder i
      → get i t ≡ some j
      → (cs 0).0.up ≡ true
      → send_call codec encoder decoder (get_job i) cs ends t
        ≡ (t, answered (Outcome.got (db_job_to_model codec.env j)))
  unfolding on_store
  asks i j cs ends t read there up =
      sent_once (get_job i) cs ends t _ _ read tt
        (ap (λ r. (t, Contract.fetched codec.env i r)) (got i j (cs 0).0 t there up))

module _ (codec : Codec) (encoder : Encoder) (decoder : Decoder) (a : ReadsJobs decoder)
    (hash : Bytes → String) (download : String → Got) (f : Flags) (s : JobSubmission) where
  -- Flags that make a submission with a type and a binary URL, which the server reads as it was
  -- written, under an id that is not taken: `submit` says that the job is submitted, and `status` of
  -- its id, before anything else happens, changes nothing and prints a table with the id, the
  -- status "pending", and the type, the priority, the binary URL, the arguments and each variable of
  -- the flags.
  pub submit-status :
      (cs ds : ℕ → Context × Context) (ends ends' : ℕ → Bool) (t : Tables)
      → Submit.submit_job (λ url. calculate_sha256_from_url hash (download url)) f ≡ sent s
      → is_empty f.job_type ≡ false
      → is_empty f.binary_url ≡ false
      → IsRead codec encoder (submit_job s)
      → IsReadId codec encoder (cs 0).0.fresh
      → any (has_id (cs 0).0.fresh) t.jobs ≡ false
      → (cs 0).0.up ≡ true
      → (ds 0).0.up ≡ true
      → let (t', e) = submit_command codec encoder decoder hash download f cs ends t in
        let (t'', e') =
          status_command codec encoder decoder
            (encoder.render_uuid (cs 0).0.fresh ∷ [])
            ds
            ends'
            t' in
        (e ≡ submitted (cs 0).0.fresh)
        × (t'' ≡ t')
        × ((ls : List Line) × (e' ≡ shown ls) × ShowsFlags (cs 0).0.fresh f ls)
  unfolding submit_command status_command db_job_to_model
  submit-status cs ds ends ends' t made typed linked read readable new up up' =
      let (spaced, (q, known), is_map, settled, job_type, url, arguments, priority) =
        submit_job-IsSound (λ u. calculate_sha256_from_url hash (download u)) f s made in
      let j : Job = new_job (create_params codec.env s) q (pos 0) (cs 0).0 in
      let t1 : Tables = record t { jobs = j ∷ t.jobs } in
      let full : incomplete s ≡ false = rw (job_type, url, typed, linked) refl in
      let first : submit_command codec encoder decoder hash download f cs ends t
          ≡ (t1, submitted (cs 0).0.fresh) =
        ap (λ x. send codec encoder decoder x cs ends t) made
        ∙ ap (called after_submit)
            (submits codec encoder decoder a s q cs ends t read full known new up) in
      let asked : status_command codec encoder decoder (encoder.render_uuid (cs 0).0.fresh ∷ []) ds
            ends' t1
          ≡ (t1, shown (print_job_table (db_job_to_model codec.env j))) =
        ap (λ o. with_job_id codec encoder decoder get_job (λ i. after_status) o ds ends' t1)
          readable.1
        ∙ ap (called after_status) (
            asks codec encoder decoder a (cs 0).0.fresh j ds ends' t1 readable (find-front j t.jobs)
              up') in
      let shows : HasFlags f (db_job_to_model codec.env j) = (
        job_type,
        url,
        arguments,
        check_priority_text s.priority q known ∙ priority,
        λ k. codec.env.unmarshal-marshal s.env_variables k is_map ∙ settled k,
        refl,
      ) in
      subst
        (λ (p : Tables × Ended).
          let r =
            status_command codec encoder decoder (encoder.render_uuid (cs 0).0.fresh ∷ []) ds ends'
              p.0 in
          (p.1 ≡ submitted (cs 0).0.fresh)
          × (r.0 ≡ p.0)
          × ((ls : List Line) × (r.1 ≡ shown ls) × ShowsFlags (cs 0).0.fresh f ls))
        (sym first)
        (
          refl,
          ap (λ (r : Tables × Ended). r.0) asked,
          (
            print_job_table (db_job_to_model codec.env j),
            ap (λ (r : Tables × Ended). r.1) asked,
            table-ShowsFlags f (db_job_to_model codec.env j) shows,
          ),
        )
