-- ===== src/Executor/Delivery.antt =====
-- From the executor of internal/executor/executor.go through the client and the handlers to the
-- tables: what becomes of the row of a job that an executor runs.
use executr.Prelude.{
  ◌≡◌, ◌↔◌, ◌⊎◌, ◌∙◌, refl, sym, ap, inl, inr, Bool, true, false, String, some, Bytes, arith,
  is_empty, ◌==◌, if◌then◌else◌, ℕ,
}
use executr.Models
use executr.Models.{UuidNumber, completed, failed, Instant}
use executr.Store.Row.{Job, Tables, Context, Result, ok, no_rows, failure, get}
use executr.Store.Jobs.{is_running, completed_job, failed_job}
use executr.Store.Jobs
use executr.Lifecycle.Tables.{IsValid}
use executr.Lifecycle.Updates.{UpdatesOne, complete_job-UpdatesOne, fail_job-UpdatesOne}
use executr.Server.Execution.{complete_params, fail_params}
use executr.Server.Routing.{Codec}
use executr.Client.Calls.{Call, complete_job, fail_job, Encoder, Decoder, done}
use executr.Client.Contract.{ReadsJobs, IsRead, IsFull, acknowledged, on_store, perform}
use executr.Client.Remote.{perform-on_store}
use executr.Executor.Cache.{BinaryCache, World}
use executr.Executor.Runner.{Host, execute_job}
use executr.Executor.Reports.{IsReportOn, is_completion, Succeeds, execute_job-Reported}

-- The row as the report leaves it.
abbrev pub reported_row : Call → Instant → Job → Job
reported_row (complete_job i r) now j = completed_job (complete_params i r) now j
reported_row (fail_job i r) now j = failed_job (fail_params i r) now j
reported_row _ now j = j

same_key : (i : ℕ) → (i == i) ≡ true
same_key i = ground arith

-- An update that finds its row is acknowledged.
finds_row :
    (i : UuidNumber) (w : Job → Bool) (f : Job → Job) (c : Context) (t : Tables) (text : String)
    (p : Tables × Result Job) (j : Job)
    → UpdatesOne i w f c t p
    → c.up ≡ true
    → get i t ≡ some j
    → w j ≡ true
    → (t' : Tables) × (acknowledged text p ≡ (t', done)) × (get i t' ≡ some (f j))
finds_row i w f c t text (t', ok j') j (k, there, pass, eq, rows) up got runs =
    let same : k ≡ j = cc in (t', refl, rows i ∙ rw (same_key i) (ap some (eq ∙ ap f same)))
finds_row i w f c t text (t', no_rows) j (kept, idle, up') up got runs =
    absurd (cc (idle j got, runs))
finds_row i w f c t text (t', failure) j (kept, down) up got runs = absurd (cc (down, up))

module _ (codec : Codec) (encoder : Encoder) (decoder : Decoder) (reads : ReadsJobs decoder) where
  -- The report on a running job reaches its row.
  delivered :
      (i : UuidNumber) (call : Call) (c c' : Context) (t : Tables) (j : Job)
      → IsReportOn i call
      → IsRead codec encoder call
      → IsFull call
      → IsValid t
      → c.up ≡ true
      → get i t ≡ some j
      → is_running j.status ≡ true
      → (t' : Tables) × (perform codec encoder decoder call c c' t ≡ some (t', done))
        × (get i t' ≡ some (reported_row call c.now j))
  unfolding on_store
  delivered i (complete_job k r) c c' t j on read full v up got runs =
      let (t', says, row) =
        finds_row k (λ x. is_running x.status) (completed_job (complete_params k r) c.now) c t
          "Failed to complete job" (Jobs.complete_job (complete_params k r) c t) j
          (complete_job-UpdatesOne (complete_params k r) c t v) up (ap (λ n. get n t) on ∙ got)
          runs in
      (
        t',
        perform-on_store codec encoder decoder reads (complete_job k r) c c' t read full
            ∙ ap some says,
        ap (λ n. get n t') (sym on) ∙ row,
      )
  delivered i (fail_job k r) c c' t j on read full v up got runs =
      let (t', says, row) =
        finds_row k (λ x. is_running x.status) (failed_job (fail_params k r) c.now) c t
          "Failed to mark job as failed" (Jobs.fail_job (fail_params k r) c t) j
          (fail_job-UpdatesOne (fail_params k r) c t v) up (ap (λ n. get n t) on ∙ got) runs in
      (
        t',
        perform-on_store codec encoder decoder reads (fail_job k r) c c' t read full ∙ ap some says,
        ap (λ n. get n t') (sym on) ∙ row,
      )
  delivered i _ c c' t j on read full v up got runs = absurd on

-- The status that a report leaves.
abbrev final : Bool → Models.Status
final b = if b then completed else failed

reported_status :
    (i : UuidNumber) (call : Call) (now : Instant) (j : Job)
    → IsReportOn i call
    → (reported_row call now j).status ≡ final (is_completion call)
reported_status i (complete_job k r) now j on = refl
reported_status i (fail_job k r) now j on = refl
reported_status i _ now j on = absurd on

ends :
    (S : Type 0) (b : Bool) (s : Models.Status)
    → s ≡ final b
    → (b ≡ true) ↔ S
    → ((s ≡ completed) × S) ⊎ ((s ≡ failed) × (S → ⊥))
ends S true s e iff = inl (e, iff.0 refl)
ends S false s e iff = inr (e, λ h. absurd (cc (iff.1 h)))

-- An executor runs a job whose row is running, and its report is read by the server as it was
-- written and reaches the database at the first attempt. The client then reports success, and
-- the row has ended: as completed where the directory was made, the cache answered with a binary and the
-- command exited with 0, and as failed where not.
pub execute_job-ends :
    (host : Host) (hash : Bytes → String) (join : String → String) (w : World) (m : Models.Job)
    (cache : BinaryCache) (codec : Codec) (encoder : Encoder) (decoder : Decoder) (c c' : Context)
    (t : Tables) (j : Job)
    → is_empty host.executor_id ≡ false
    → host.parse (host.render m.id) ≡ some m.id
    → ReadsJobs decoder
    → ((call : Call)
        → (execute_job host hash join w m cache).1 ≡ some call
        → IsRead codec encoder call)
    → IsValid t
    → c.up ≡ true
    → get m.id t ≡ some j
    → is_running j.status ≡ true
    → let S = Succeeds host hash join w m cache (host.mkdir (host.job_dir m.id)) in
      (call : Call) × (t' : Tables) × (row : Job) × ((execute_job host hash join w m cache).1
        ≡ some call)
      × (perform codec encoder decoder call c c' t ≡ some (t', done))
      × (get m.id t' ≡ some row)
      × (((row.status ≡ completed) × S) ⊎ ((row.status ≡ failed) × (S → ⊥)))
execute_job-ends host hash join w m cache codec encoder decoder c c' t j known own reads read v up
      got runs =
    let S : Type 0 = Succeeds host hash join w m cache (host.mkdir (host.job_dir m.id)) in
    let (call, sent, on, full, iff) = execute_job-Reported host hash join w m cache known own in
    let (t', says, row) =
      delivered codec encoder decoder reads m.id call c c' t j on (read call sent) full v up got
        runs in
    (
      call,
      t',
      reported_row call c.now j,
      sent,
      says,
      row,
      ends S (is_completion call) (reported_row call c.now j).status
          (reported_status m.id call c.now j on) iff,
    )
