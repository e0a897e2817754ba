-- ===== src/Lifecycle/Arrows.antt =====
-- The arrows of the life cycle of one job, and how parts of a statement can change the row of an id.
use executr.Prelude.{
  ◌+◌, ℤ, ◌≡◌, ◌⊎◌, refl, Bool, true, false, not, ◌&&◌, Option, none, some, List, ◌∷◌, ◌==◌, arith,
  any, find, update, Bool-cases, inl, inr, &&-right, ltb_ℤ, String, if◌then◌else◌, find-update,
  find-none, ==_iff,
}
use mathlib.Core.Option
use executr.Models.{UuidNumber, Priority, Status, pending, running, completed, failed, cancelled}
use executr.Store.Row.{Job, JobAttempt, Tables, Context, Result, guarded, has_id, get}
use executr.Store.Jobs.{
  CreateJobParams, new_job, insert_with, claim_row, claimed_job, next_job, is_pending, is_running,
  is_terminal,
}
use executr.Store.Retry.{is_failed}
use executr.Store.Attempts
use executr.Store.Attempts.{RecordJobAttemptParams}
use executr.Store.Statement.{Statement, reset_stale_job, increment_job_retry, cleanup_old_jobs}
use executr.Lifecycle.Tables.{IsValid}
use executr.Lifecycle.Claim.{claim_guard}

-- The arrows of the life cycle.
pub data Edge : Status → Status → Type 0 where
  claimed : Edge pending running
  cancel : Edge pending cancelled
  complete : Edge running completed
  fail : Edge running failed
  reset : Edge running pending
  retry : Edge failed pending

-- An arrow from a status that a WHERE clause names.
from_pending : {u : Status} (x : Status) → is_pending x ≡ true → Edge pending u → Edge x u
from_pending pending h e = e
from_pending running h e = absurd (cc h)
from_pending completed h e = absurd (cc h)
from_pending failed h e = absurd (cc h)
from_pending cancelled h e = absurd (cc h)

from_running : {u : Status} (x : Status) → is_running x ≡ true → Edge running u → Edge x u
from_running running h e = e
from_running pending h e = absurd (cc h)
from_running completed h e = absurd (cc h)
from_running failed h e = absurd (cc h)
from_running cancelled h e = absurd (cc h)

from_failed : {u : Status} (x : Status) → is_failed x ≡ true → Edge failed u → Edge x u
from_failed failed h e = e
from_failed pending h e = absurd (cc h)
from_failed running h e = absurd (cc h)
from_failed completed h e = absurd (cc h)
from_failed cancelled h e = absurd (cc h)

-- What was submitted, which no statement changes.
abbrev pub SameSpec : Job → Job → Type 0
SameSpec j j' =
    (j'.id ≡ j.id)
    × (j'.job_type ≡ j.job_type)
    × (j'.binary_url ≡ j.binary_url)
    × (j'.binary_sha256 ≡ j.binary_sha256)
    × (j'.arguments ≡ j.arguments)
    × (j'.env_variables ≡ j.env_variables)
    × (j'.priority ≡ j.priority)
    × (j'.created_at ≡ j.created_at)
    × (j'.max_retries ≡ j.max_retries)

-- `r` says whether the statement may put a job back among the pending ones.
pub record Moves (r : Bool) (j j' : Job) : Type 0 where
  pub spec : SameSpec j j'
  pub step : ((j.status ≡ running) × (j'.status ≡ running)) ⊎ Edge j.status j'.status
  pub counted : j'.retry_count ≡ (if is_failed j.status then j.retry_count + 1 else j.retry_count)
  pub allowed : is_failed j.status ≡ true → ltb_ℤ j.retry_count j.max_retries ≡ true
  pub back : is_pending j'.status ≡ true → r ≡ true

-- The statement that deletes rows.
abbrev pub deletes : Statement → Bool
deletes (cleanup_old_jobs r) = true
deletes _ = false

-- The statements that put a job back among the pending ones.
abbrev pub returns : Statement → Bool
returns (reset_stale_job i) = true
returns (increment_job_retry i) = true
returns _ = false

-- The row of an id before and after: created pending, deleted when finished by a statement that
-- deletes, moved along an arrow or kept running, or not changed.
abbrev pub Change : Bool → Bool → Option Job → Option Job → Type 0
Change d r none none = Unit
Change d r none (some j') = j'.status ≡ pending
Change d r (some j) none = (d ≡ true) × (is_terminal j.status ≡ true)
Change d r (some j) (some j') = (j ≡ j') ⊎ Moves r j j'

Change-same : (d r : Bool) (o : Option Job) → Change d r o o
Change-same d r none = tt
Change-same d r (some j) = inl refl

module _ (r : Bool) (j j' : Job) (same : SameSpec j j') where
  pub Moves-pending :
      is_pending j.status ≡ true
      → j'.retry_count ≡ j.retry_count
      → Edge pending j'.status
      → (is_pending j'.status ≡ true → r ≡ true)
      → Moves r j j'
  Moves-pending w n e b = record {
    spec = same;
    step = inr (from_pending j.status w e);
    counted = ground arith;
    allowed = ground arith;
    back = b;
  }

  pub Moves-running :
      is_running j.status ≡ true
      → j'.retry_count ≡ j.retry_count
      → Edge running j'.status
      → (is_pending j'.status ≡ true → r ≡ true)
      → Moves r j j'
  Moves-running w n e b = record {
    spec = same;
    step = inr (from_running j.status w e);
    counted = ground arith;
    allowed = ground arith;
    back = b;
  }

  pub Moves-failed :
      is_failed j.status ≡ true
      → ltb_ℤ j.retry_count j.max_retries ≡ true
      → j'.retry_count ≡ j.retry_count + 1
      → Edge failed j'.status
      → (is_pending j'.status ≡ true → r ≡ true)
      → Moves r j j'
  Moves-failed w lt n e b = record {
    spec = same;
    step = inr (from_failed j.status w e);
    counted = ground arith;
    allowed = λ _. lt;
    back = b;
  }

  pub Moves-on :
      is_running j.status ≡ true
      → is_running j'.status ≡ true
      → j'.retry_count ≡ j.retry_count
      → (is_pending j'.status ≡ true → r ≡ true)
      → Moves r j j'
  Moves-on w w' n b = record {
    spec = same;
    step = inl (ground arith, ground arith);
    counted = ground arith;
    allowed = ground arith;
    back = b;
  }

pub guarded-Change :
    {A : Type 0} (d r : Bool) (i : UuidNumber) (c : Context) (t : Tables) (q : Tables × Result A)
    → Change d r (get i t) (get i q.0)
    → Change d r (get i t) (get i (guarded c t q).0)
guarded-Change d r i c t q h = elim (Bool-cases c.up) [
  | inl e ↦ rw e h
  | inr e ↦ rw e (Change-same d r (get i t))
]

Change-row :
    (d r : Bool) (w : Job → Bool) (f : Job → Job) (o : Option Job)
    → ((j : Job) → w j ≡ true → Change d r (some j) (some (f j)))
    → Change d r o (Option.map (λ j. if w j then f j else j) o)
Change-row d r w f none step = tt
Change-row d r w f (some j) step = elim (Bool-cases (w j)) [
  | inl e ↦ rw e (step j e)
  | inr e ↦ rw e (inl refl)
]

pub update-Change :
    (d r : Bool) (i : UuidNumber) (w : Job → Bool) (f : Job → Job) (t : Tables)
    → ((j : Job) → (f j).id ≡ j.id)
    → ((j : Job) → w j ≡ true → Change d r (some j) (some (f j)))
    → Change d r (get i t) (get i (record t { jobs = update w f t.jobs }))
update-Change d r i w f t same step =
    rw (find-update (has_id i) w f t.jobs (λ j. rw (same j))) (Change-row d r w f (get i t) step)

-- A new row in front of a table that lacks its id.
cons-Change :
    (d r : Bool) (i : UuidNumber) (j : Job) (js : List Job)
    → j.status ≡ pending
    → any (has_id j.id) js ≡ false
    → Change d r (find (has_id i) js) (find (has_id i) (j ∷ js))
unfolding find
cons-Change d r i j js h new = elim (Bool-cases (j.id == i)) [
  | inl e ↦
      let same : j.id ≡ i = (==_iff j.id i).0 e in
      let absent : find (has_id i) js ≡ none = rw same at (find-none (has_id j.id) js new) in
      rw (e, absent) h
  | inr e ↦ rw e (Change-same d r (find (has_id i) js))
]

pub insert_with-Change :
    (d r : Bool) (i : UuidNumber) (o : Option Priority) (p : CreateJobParams) (m : ℤ) (c : Context)
    (t : Tables)
    → Change d r (get i t) (get i (insert_with o p m c t).0)
insert_with-Change d r i none p m c t = Change-same d r (get i t)
insert_with-Change d r i (some q) p m c t = elim (Bool-cases (any (has_id c.fresh) t.jobs)) [
  | inl taken ↦ rw taken (Change-same d r (get i t))
  | inr new ↦ rw new (cons-Change d r i (new_job p q m c) t.jobs refl new)
]

pub deleted-Change :
    (r : Bool) (w : Job → Bool) (o : Option Job)
    → ((j : Job) → w j ≡ true → is_terminal j.status ≡ true)
    → Change true r o (elim o [ none ↦ none | some a ↦ if not (w a) then some a else none ])
deleted-Change r w none step = tt
deleted-Change r w (some j) step = elim (Bool-cases (w j)) [
  | inl e ↦ rw e (refl, step j e)
  | inr e ↦ rw e (inl refl)
]

pub claim_row-Change :
    (d r : Bool) (i : UuidNumber) (o : Option Job) (e : String) (c : Context) (t : Tables)
    → next_job c.locked t.jobs ≡ o
    → IsValid t
    → Change d r (get i t) (get i (claim_row o e c t).0)
claim_row-Change d r i none e c t h v = Change-same d r (get i t)
claim_row-Change d r i (some k) e c t h v =
    rw (claim_guard c.locked t.jobs k (claimed_job e c.now) v.keys h) (
      update-Change d r i (λ j. has_id k.id j && is_pending j.status) (claimed_job e c.now) t
        (λ j. refl)
        (λ j w. inr (
          Moves-pending r j _ (refl, refl, refl, refl, refl, refl, refl, refl, refl)
            (&&-right (has_id k.id j) _ w) refl claimed (λ x. absurd (cc x)))))

pub attempt_keeps :
    (d r : Bool) (i : UuidNumber) (p : RecordJobAttemptParams) (c : Context) (t : Tables)
    → Change d r (get i t) (get i (Attempts.record_job_attempt p c t).0)
unfolding Attempts.record_job_attempt
attempt_keeps d r i p c t =
    guarded-Change d r i c t _
      (elim (Bool-cases (any (λ (a : JobAttempt). a.id == c.fresh) t.attempts)) [
        | inl taken ↦ rw taken (Change-same d r (get i t))
        | inr new ↦ elim (Bool-cases (any (has_id p.job_id) t.jobs)) [
          | inl there ↦ rw (new, there) (Change-same d r (get i t))
          | inr gone ↦ rw (new, gone) (Change-same d r (get i t))
        ]
      ])
