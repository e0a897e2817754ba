-- ===== src/Lifecycle/Updates.antt =====
-- CancelJob, CompleteJob, FailJob, ResetStaleJob, UpdateHeartbeat and IncrementJobRetry as wholes:
-- the answer and the rows afterwards.
use executr.Prelude.{
  ℕ, ◌≡◌, ◌∙◌, ap, refl, sym, Bool, true, false, ◌&&◌, Option, none, some, List, [], ◌∷◌, ◌==◌,
  ==_iff, arith, All, find, update, if◌then◌else◌, find-update, find-passes, Bool-cases, inl, inr,
  Distinct,
}
use mathlib.Core.Path.{subst}
use mathlib.Core.Option
use executr.Models.{UuidNumber, completed, cancelled}
use executr.Store.Row.{
  Job, Tables, Context, Result, ok, no_rows, failure, has_id, get, guarded, guarded_up,
  guarded_down, update_returning, update_jobs,
}
use executr.Store.Jobs.{
  CompleteJobParams, FailJobParams, cancel_job, complete_job, fail_job, is_pending, is_running,
  completed_job, failed_job,
}
use executr.Lifecycle.Tables.{IsValid, job_key}

-- The answers to an update of the row `i` under a guard `w`, by QueryRow.
abbrev pub UpdatesOne :
    UuidNumber → (Job → Bool) → (Job → Job) → Context → Tables → Tables × Result Job → Type 0
UpdatesOne i w f c t (t', ok j') =
    (j : Job) × (get i t ≡ some j)
    × (w j ≡ true)
    × (j' ≡ f j)
    × ((k : UuidNumber) → get k t' ≡ (if i == k then some j' else get k t))
UpdatesOne i w f c t (t', no_rows) =
    (t' ≡ t) × ((j : Job) → get i t ≡ some j → w j ≡ false) × (c.up ≡ true)
UpdatesOne i w f c t (t', failure) = (t' ≡ t) × (c.up ≡ false)

module _ (i : UuidNumber) (w : Job → Bool) (f : Job → Job) where
  abbrev at_row : Job → Bool
  at_row j = has_id i j && w j

  none-at_row : (js : List Job) → All (λ y. (y.id == i) ≡ false) js → find at_row js ≡ none
  unfolding find
  none-at_row [] h = refl
  none-at_row (x ∷ xs) h = rw h.0 (none-at_row xs h.1)

  -- The guarded search finds the row of the id, if that passes the guard.
  find_row :
      (js : List Job)
      → Distinct job_key js
      → find at_row js
        ≡ elim (find (has_id i) js) [ none ↦ none | some j ↦ if w j then some j else none ]
  unfolding find
  find_row [] d = refl
  find_row (x ∷ xs) d = elim (Bool-cases (x.id == i)) [
    | inr e ↦ ground (arith, find_row xs d.1)
    | inl e ↦
        let same : x.id ≡ i = (==_iff x.id i).0 e in
        let others : find at_row xs ≡ none =
          none-at_row xs (subst (λ (k : ℕ). All (λ y. (y.id == k) ≡ false) xs) same d.0) in
        ground arith
  ]

  -- What the guarded search says of the row of the id.
  picked :
      (o : Option Job) (j : Job)
      → (elim o [ none ↦ none | some x ↦ if w x then some x else none ]) ≡ some j
      → (o ≡ some j) × (w j ≡ true)
  picked none j h = absurd (cc h)
  picked (some x) j h = elim (Bool-cases (w x)) [
    | inl e ↦ let it : x ≡ j = ground arith in (ap some it, subst (λ y. w y ≡ true) it e)
    | inr e ↦ absurd (ground arith)
  ]

  not_picked :
      (o : Option Job) (j : Job)
      → (elim o [ none ↦ none | some x ↦ if w x then some x else none ]) ≡ none
      → o ≡ some j
      → w j ≡ false
  not_picked none j h e = absurd (cc e)
  not_picked (some x) j h e = elim (Bool-cases (w x)) [
    | inl p ↦ absurd (ground arith)
    | inr p ↦ let it : x ≡ j = ground arith in subst (λ y. w y ≡ false) it p
  ]

  no_row : (js : List Job) → find at_row js ≡ none → update at_row f js ≡ js
  unfolding find update
  no_row [] h = refl
  no_row (x ∷ xs) h = ground (arith, no_row xs)

  module _ (same : (x : Job) → (f x).id ≡ x.id) (t : Tables) where
    -- Any row afterwards.
    get-update_at :
        (k : UuidNumber)
        → find (has_id k) (update at_row f t.jobs)
          ≡ Option.map (λ j. if at_row j then f j else j) (get k t)
    get-update_at k = find-update (has_id k) at_row f t.jobs (λ x. rw (same x))

    row_or_same :
        (k : UuidNumber) (j : Job) (o : Option Job)
        → get i t ≡ some j
        → get k t ≡ o
        → w j ≡ true
        → Option.map (λ x. if at_row x then f x else x) o ≡ (if i == k then some (f j) else o)
    row_or_same k j none h e p = elim (Bool-cases (i == k)) [
      | inl q ↦
          let here : get k t ≡ some j = subst (λ (n : ℕ). get n t ≡ some j) ((==_iff i k).0 q) h in
          absurd (cc (here, e))
      | inr q ↦ rw q
    ]
    row_or_same k j (some x) h e p =
        let at_k : has_id k x ≡ true = find-passes (has_id k) t.jobs x e in
        elim (Bool-cases (i == k)) [
          | inl q ↦
              let here : get k t ≡ some j =
                subst (λ (n : ℕ). get n t ≡ some j) ((==_iff i k).0 q) h in
              let it : x ≡ j = ground arith in rw (q, it, p, find-passes (has_id i) t.jobs j h)
          | inr q ↦ ground arith
        ]

    answer :
        (c : Context) (o : Option Job)
        → find at_row t.jobs ≡ o
        → Distinct job_key t.jobs
        → c.up ≡ true
        → UpdatesOne i w f c t (
          record t { jobs = update at_row f t.jobs },
          elim o [ none ↦ no_rows | some j ↦ ok (f j) ],
        )
    answer c none h d u = (
      ap (λ js. record t { jobs = js }) (no_row t.jobs h),
      λ j e. not_picked (get i t) j (sym (find_row t.jobs d) ∙ h) e,
      u,
    )
    answer c (some j) h d u =
        let (row, passes) = picked (get i t) j (sym (find_row t.jobs d) ∙ h) in
        (j, row, passes, refl, λ k. get-update_at k ∙ row_or_same k j (get k t) row refl passes)

    pub updates_one :
        (c : Context) → IsValid t → UpdatesOne i w f c t (guarded c t (update_returning at_row f t))
    updates_one c v =
        let q : Tables × Result Job = update_returning at_row f t in
        elim (Bool-cases c.up) [
          | inl u ↦
              subst (UpdatesOne i w f c t) (sym (guarded_up c t q u))
                (answer c (find at_row t.jobs) refl v.keys u)
          | inr u ↦ subst (UpdatesOne i w f c t) (sym (guarded_down c t q u)) (refl, u)
        ]

    -- By Exec: every row, where the database is reached.
    pub get-exec :
        (c : Context) (k : UuidNumber)
        → get k (guarded c t (update_jobs at_row f t)).0
          ≡ (if c.up then Option.map (λ j. if at_row j then f j else j) (get k t) else get k t)
    get-exec c k = elim (Bool-cases c.up) [ inl u ↦ rw u (get-update_at k) | inr u ↦ rw u ]

    pub get-exec_up :
        (c : Context) (k : UuidNumber)
        → c.up ≡ true
        → get k (guarded c t (update_jobs at_row f t)).0
          ≡ Option.map (λ j. if at_row j then f j else j) (get k t)
    get-exec_up c k u = rw u (get-update_at k)

-- In tables that satisfy the invariant, CompleteJob answers with the row of the id marked
-- completed, with the reported output and exit code and the time, exactly when that row is
-- running, whoever runs it; it changes no other row. Otherwise it answers "no rows" with nothing
-- changed, or another error with nothing changed when the database is unreachable.
pub complete_job-UpdatesOne :
    (p : CompleteJobParams) (c : Context) (t : Tables)
    → IsValid t
    → UpdatesOne p.id
        (λ j. is_running j.status)
        (λ j. record j {
          status = completed;
          stdout = p.stdout;
          stderr = p.stderr;
          exit_code = p.exit_code;
          completed_at = some c.now;
        })
        c
        t
        (complete_job p c t)
unfolding complete_job
complete_job-UpdatesOne p c t v =
    updates_one p.id (λ j. is_running j.status) (completed_job p c.now) (λ j. refl) t c v

-- In tables that satisfy the invariant, FailJob answers with the row of the id marked failed, with
-- the reported output, exit code and error message and the time, exactly when that row is running,
-- whoever runs it; it changes no other row. Otherwise it answers "no rows" with nothing changed, or
-- another error with nothing changed when the database is unreachable.
pub fail_job-UpdatesOne :
    (p : FailJobParams) (c : Context) (t : Tables)
    → IsValid t
    → UpdatesOne p.id (λ j. is_running j.status) (failed_job p c.now) c t (fail_job p c t)
unfolding fail_job
fail_job-UpdatesOne p c t v =
    updates_one p.id (λ j. is_running j.status) (failed_job p c.now) (λ j. refl) t c v

abbrev pub cancelled_job : ℕ → Job → Job
cancelled_job now j = record j { status = cancelled; completed_at = some now }

-- In tables that satisfy the invariant, CancelJob marks the row of the id cancelled, at the time
-- of the statement, exactly when the row is pending, and changes no other; otherwise it answers
-- "no rows", or another error when the database is unreachable, and changes nothing.
pub cancel_job-UpdatesOne :
    (i : UuidNumber) (c : Context) (t : Tables)
    → IsValid t
    → UpdatesOne i (λ j. is_pending j.status) (cancelled_job c.now) c t (cancel_job i c t)
unfolding cancel_job
cancel_job-UpdatesOne i c t v =
    updates_one i (λ j. is_pending j.status) (cancelled_job c.now) (λ j. refl) t c v
