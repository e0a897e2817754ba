-- ===== src/Server/Gauges.antt =====
-- What the gauges of internal/metrics/metrics.go say after the statistics of
-- internal/server/server.go have been asked for.
use executr.Prelude.{
  ℕ, ◌+◌, ◌≡◌, ◌∙◌, refl, ap, Bool, true, false, ◌&&◌, Option, none, some, List, [], ◌∷◌, str_eq,
  length, keep, ltb, arith, Bool-cases, inl, inr, if◌then◌else◌,
}
use executr.Models.{
  Instant, Priority, foreground, background, best_effort, Status, pending, running, completed,
  failed, cancelled, status_text, priority_text,
}
use executr.Store.Row.{Job, Tables, Context}
use executr.Store.Stats.{
  number, in_status, waits_with, groups, statuses, priorities, count_jobs_by_status,
  count_pending_jobs_by_priority,
}
use executr.Store.Jobs.{is_pending}
use executr.Server.Http.{Method}
use executr.Server.Admin.{
  Gauges, no_gauges, set_pending, last_count, update_queue_metrics, handle_admin_stats,
}

-- The count of a status is found among the groups.
last_count-groups : (f : Status → ℕ) (s : Status) → last_count (groups f statuses) s 0 ≡ f s
last_count-groups f pending = ground arith
last_count-groups f running = ground arith
last_count-groups f completed = ground arith
last_count-groups f failed = ground arith
last_count-groups f cancelled = ground arith

abbrev pub if_any : ℕ → Option ℕ
if_any n = if ltb 0 n then some n else none

set_pending-groups :
    (f : Priority → ℕ) (p : Priority)
    → set_pending (groups f priorities) no_gauges "pending" (priority_text p) ≡ if_any (f p)
set_pending-groups f foreground = ground arith
set_pending-groups f background = ground arith
set_pending-groups f best_effort = ground arith

-- The value of a gauge, 0 where it is not set.
abbrev pub value : Option ℕ → ℕ
value none = 0
value (some n) = n

value-if_any : (n : ℕ) → value (if_any n) ≡ n
value-if_any n = ground arith

-- Each row is in one status, and where it waits in one priority.
abbrev counted : List Job → ℕ
counted js =
    number (waits_with foreground) js
    + number (waits_with background) js
    + number (waits_with best_effort) js
    + number (in_status running) js
    + number (in_status completed) js
    + number (in_status failed) js
    + number (in_status cancelled) js

abbrev one : Bool → ℕ
one true = 1
one false = 0

one_place :
    (s : Status) (p : Priority)
    → one (is_pending s && str_eq (priority_text p) "foreground")
        + one (is_pending s && str_eq (priority_text p) "background")
        + one (is_pending s && str_eq (priority_text p) "best_effort")
        + one (str_eq (status_text s) "running")
        + one (str_eq (status_text s) "completed")
        + one (str_eq (status_text s) "failed")
        + one (str_eq (status_text s) "cancelled")
      ≡ 1
one_place pending foreground = refl
one_place pending background = refl
one_place pending best_effort = refl
one_place running p = refl
one_place completed p = refl
one_place failed p = refl
one_place cancelled p = refl

number-one :
    (p : Job → Bool) (j : Job) (js : List Job) → number p (j ∷ js) ≡ one (p j) + number p js
unfolding keep
number-one p j js = elim (Bool-cases (p j)) [
  | inl e ↦ rw e (omega arith)
  | inr e ↦ rw e (omega arith)
]

counted_all : (js : List Job) → counted js ≡ length js
unfolding keep
counted_all [] = refl
counted_all (j ∷ js) = omega (
  arith,
  counted_all js,
  one_place j.status j.priority,
  number-one (waits_with foreground) j js,
  number-one (waits_with background) j js,
  number-one (waits_with best_effort) j js,
  number-one (in_status running) j js,
  number-one (in_status completed) j js,
  number-one (in_status failed) j js,
  number-one (in_status cancelled) j js,
)

-- The sum of the gauges that statistics set.
abbrev pub gauge_sum : Gauges → ℕ
gauge_sum g =
    value (g "pending" "foreground")
    + value (g "pending" "background")
    + value (g "pending" "best_effort")
    + value (g "running" "all")
    + value (g "completed" "all")
    + value (g "failed" "all")
    + value (g "cancelled" "all")

module _ (f : Status → ℕ) (h : Priority → ℕ) where
  abbrev metrics : Gauges
  metrics = update_queue_metrics (groups h priorities) (λ s. last_count (groups f statuses) s 0)

  metrics-pending : (p : Priority) → metrics "pending" (priority_text p) ≡ if_any (h p)
  unfolding update_queue_metrics
  metrics-pending p = set_pending-groups h p

  metrics-all : (s : Status) → is_pending s ≡ false → metrics (status_text s) "all" ≡ some (f s)
  unfolding update_queue_metrics
  metrics-all pending e = cc
  metrics-all running e = ap some (last_count-groups f running)
  metrics-all completed e = ap some (last_count-groups f completed)
  metrics-all failed e = ap some (last_count-groups f failed)
  metrics-all cancelled e = ap some (last_count-groups f cancelled)

  waiting : (p : Priority) → value (metrics "pending" (priority_text p)) ≡ h p
  waiting p = ap value (metrics-pending p) ∙ value-if_any (h p)

  metrics-sum :
      gauge_sum metrics
      ≡ h foreground
        + h background
        + h best_effort
        + f running
        + f completed
        + f failed
        + f cancelled
  metrics-sum = omega (
    arith,
    waiting foreground,
    waiting background,
    waiting best_effort,
    ap value (metrics-all running refl),
    ap value (metrics-all completed refl),
    ap value (metrics-all failed refl),
    ap value (metrics-all cancelled refl),
  )

-- After a request for the statistics whose two counts reach the database and see the same tables,
-- whatever the gauges were before: the gauge of the waiting jobs of a priority is their number, and
-- is not set where there are none; the gauge of each other status is the number of its jobs; and
-- the gauges add up to the number of all jobs.
pub gauges_lem :
    (cs : ℕ → Context) (t : Tables) (now : Instant) (g : Gauges)
    → (cs 0).up ≡ true
    → (cs 1).up ≡ true
    → let g' = (handle_admin_stats Method.get cs (λ n. t) now g).0 in
      ((p : Priority) → g' "pending" (priority_text p) ≡ if_any (number (waits_with p) t.jobs))
      × ((s : Status)
          → is_pending s ≡ false
          → g' (status_text s) "all" ≡ some (number (in_status s) t.jobs))
      × (gauge_sum g' ≡ length t.jobs)
gauges_lem cs t now g up up' =
    let f : Status → ℕ = λ s. number (in_status s) t.jobs in
    let h : Priority → ℕ = λ p. number (waits_with p) t.jobs in
    let made : (handle_admin_stats Method.get cs (λ n. t) now g).0 ≡ metrics f h =
      unfold handle_admin_stats count_jobs_by_status count_pending_jobs_by_priority in
      rw (up, up') refl in
    rw made (metrics-pending f h, metrics-all f h, metrics-sum f h ∙ counted_all t.jobs)
