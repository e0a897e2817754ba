-- ===== src/Server/Admin.antt =====
-- The statistics of internal/server/server.go, and the gauges that internal/metrics/metrics.go sets
-- from them. A gauge is named by its labels, a status and a priority.
use executr.Prelude.{
  ℕ, ◌&&◌, Option, none, some, List, [], ◌∷◌, String, str_eq, length, map, if◌then◌else◌,
}
use executr.Models.{
  Instant, Priority, Status, running, completed, failed, cancelled, status_text, priority_text,
}
use executr.Store.Row.{Tables, Context, Result, ok, no_rows, failure}
use executr.Store.Stats.{
  ActiveExecutor, count_jobs_by_status, count_pending_jobs_by_priority, get_active_executors,
}
use executr.Server.Http.{
  Method, Response, ExecutorInfo, respond, write_error, method_not_allowed, stats, executors,
  nothing,
}
use executr.Server.Convert.{text_or_empty}

-- `JobsInQueue`: the gauges that are set.
abbrev pub Gauges : Type 0
Gauges = String → String → Option ℕ

abbrev pub no_gauges : Gauges
no_gauges s p = none

abbrev pub set : String → String → ℕ → Gauges → Gauges
set status priority n g s p = if str_eq s status && str_eq p priority then some n else g s p

-- The loop over the pending jobs by priority.
abbrev pub set_pending : List (Priority × ℕ) → Gauges → Gauges
set_pending [] g = g
set_pending ((p, n) ∷ rows) g = set_pending rows (set "pending" (priority_text p) n g)

-- Each map holds at most the entry "all".
unfoldable pub update_queue_metrics : List (Priority × ℕ) → (Status → ℕ) → Gauges
update_queue_metrics waiting count = set "cancelled" "all" (count cancelled) (
    set "failed" "all" (count failed) (
      set "completed" "all" (count completed)
        (set "running" "all" (count running) (set_pending waiting no_gauges))))

-- The count of the last row of a status, and 0 where there is none.
abbrev pub last_count : List (Status × ℕ) → Status → ℕ → ℕ
last_count [] s n = n
last_count ((r, k) ∷ rows) s n =
    last_count rows s (if str_eq (status_text r) (status_text s) then k else n)

abbrev pub active_count : Result (List ActiveExecutor) → ℕ
active_count (ok es) = length es
active_count no_rows = 0
active_count failure = 0

abbrev pub stats_answer :
    Result (List (Status × ℕ))
    → Result (List (Priority × ℕ))
    → Result (List ActiveExecutor)
    → Instant
    → Gauges
    → Gauges × Response
stats_answer (ok ss) (ok ps) active now g = (
  update_queue_metrics ps (λ s. last_count ss s 0),
  respond 200 (stats ss ps (active_count active) now),
)
stats_answer (ok ss) no_rows active now g = (g, write_error 500 "Failed to get statistics" nothing)
stats_answer (ok ss) failure active now g = (g, write_error 500 "Failed to get statistics" nothing)
stats_answer no_rows _ active now g = (g, write_error 500 "Failed to get statistics" nothing)
stats_answer failure _ active now g = (g, write_error 500 "Failed to get statistics" nothing)

-- Each of the three queries has its own context, and sees the tables at its own time.
unfoldable pub handle_admin_stats :
    Method → (ℕ → Context) → (ℕ → Tables) → Instant → Gauges → Gauges × Response
handle_admin_stats Method.get cs ts now g =
    stats_answer (count_jobs_by_status (cs 0) (ts 0)) (count_pending_jobs_by_priority (cs 1) (ts 1))
      (get_active_executors (cs 2) (ts 2)) now g
handle_admin_stats _ cs ts now g = (g, method_not_allowed)

abbrev pub executor_info : ActiveExecutor → ExecutorInfo
executor_info e = record {
  executor_id = text_or_empty e.executor_id;
  current_job_id = some e.job_id;
  job_type = some e.job_type;
  last_heartbeat = e.last_heartbeat;
  jobs_completed = e.jobs_completed;
}

abbrev pub executors_answer : Result (List ActiveExecutor) → Response
executors_answer (ok es) = respond 200 (executors (map executor_info es))
executors_answer no_rows = write_error 500 "Failed to get executors" nothing
executors_answer failure = write_error 500 "Failed to get executors" nothing

unfoldable pub handle_admin_executors : Method → Context → Tables → Response
handle_admin_executors Method.get c t = executors_answer (get_active_executors c t)
handle_admin_executors _ c t = method_not_allowed
