-- ===== src/Lifecycle/Tables.antt =====
-- The invariant of the two tables, kept by every statement that the server issues.
use executr.Prelude.{
  ℕ, ◌≡◌, Bool, true, false, not, List, [], ◌∷◌, arith, All, keep, any, update, Distinct, ◌∙◌,
  Bool-cases, inl, inr, All-update, All-keep, All-imp, any-update, Distinct-update, Distinct-keep,
  All-ne_of_any, any-keep_split,
}
use executr.Store.Row.{Job, JobAttempt, Tables, has_id}
use executr.Store.Jobs.{delete_jobs}
use executr.Lifecycle.Rows.{IsValidJob}

abbrev pub job_key : Job → ℕ
job_key j = j.id

abbrev pub attempt_key : JobAttempt → ℕ
attempt_key a = a.id

-- The job of an attempt is in the table.
abbrev pub Refers : List Job → JobAttempt → Type 0
Refers js a = any (has_id a.job_id) js ≡ true

pub record IsValid (t : Tables) : Type 0 where
  pub rows : All IsValidJob t.jobs
  pub keys : Distinct job_key t.jobs
  pub attempt_keys : Distinct attempt_key t.attempts
  pub references : All (Refers t.jobs) t.attempts

-- An update that keeps the ids and the validity of the rows it takes keeps the invariant.
pub update-IsValid :
    (w : Job → Bool) (f : Job → Job) (t : Tables)
    → ((j : Job) → (f j).id ≡ j.id)
    → ((j : Job) → w j ≡ true → IsValidJob j → IsValidJob (f j))
    → IsValid t
    → IsValid (record t { jobs = update w f t.jobs })
update-IsValid w f t same ok v = record {
  rows = All-update IsValidJob w f t.jobs ok v.rows;
  keys = Distinct-update job_key w f same t.jobs v.keys;
  attempt_keys = v.attempt_keys;
  references =
      All-imp (Refers t.jobs) (Refers (update w f t.jobs)) t.attempts
        (λ a h. any-update (has_id a.job_id) w f t.jobs (λ j. rw (same j)) ∙ h) v.references;
}

pub insert-IsValid :
    (j : Job) (t : Tables)
    → IsValidJob j
    → any (has_id j.id) t.jobs ≡ false
    → IsValid t
    → IsValid (record t { jobs = j ∷ t.jobs })
insert-IsValid j t ok new v = record {
  rows = (ok, v.rows);
  keys = (All-ne_of_any job_key j.id t.jobs new, v.keys);
  attempt_keys = v.attempt_keys;
  references =
      All-imp (Refers t.jobs) (Refers (j ∷ t.jobs)) t.attempts (λ a h. unfold any in ground arith)
        v.references;
}

-- The attempts that a deletion leaves belong to jobs that it leaves.
references-delete :
    (w : Job → Bool) (js : List Job) (xs : List JobAttempt)
    → All (Refers js) xs
    → All
        (Refers (keep (λ j. not (w j)) js))
        (keep (λ (a : JobAttempt). not (any (has_id a.job_id) (keep w js))) xs)
unfolding keep
references-delete w js [] h = tt
references-delete w js (a ∷ xs) h = elim (Bool-cases (any (has_id a.job_id) (keep w js))) [
  | inl e ↦ rw e (references-delete w js xs h.1)
  | inr e ↦ rw e (
    ground (arith, h.0, any-keep_split job_key (has_id a.job_id) w js),
    references-delete w js xs h.1,
  )
]

pub delete-IsValid : (w : Job → Bool) (t : Tables) → IsValid t → IsValid (delete_jobs w t)
delete-IsValid w t v = record {
  rows = All-keep IsValidJob (λ j. not (w j)) t.jobs v.rows;
  keys = Distinct-keep job_key (λ j. not (w j)) t.jobs v.keys;
  attempt_keys =
      Distinct-keep attempt_key (λ (a : JobAttempt). not (any (has_id a.job_id) (keep w t.jobs)))
        t.attempts v.attempt_keys;
  references = references-delete w t.jobs t.attempts v.references;
}
