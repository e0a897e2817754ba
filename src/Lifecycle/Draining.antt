-- ===== src/Lifecycle/Draining.antt =====
-- Claims that follow one another: each job that waits is handed out.
use executr.Prelude.{
  ℕ, ◌≡◌, ◌≢◌, ◌≤◌, ◌-◌, ◌⊎◌, refl, sym, ap, Bool, true, false, Option, none, some, List, [], ◌∷◌,
  ◌==◌, arith, All, any, find, keep, length, length-keep-update, String, Bool-cases, inl, inr,
  any_of_find, &&-left,
}
use mathlib.Core.Path.{subst}
use executr.Models.{UuidNumber, pending, running}
use executr.Store.Row.{Job, Tables, Context, Result, ok, no_rows, failure, has_id, get, guarded_up}
use executr.Store.Jobs.{next_job, claim_row, claim_next_job, claimable, claimed_job, is_pending}
use executr.Store.Statement.{Statement, exec}
use executr.Lifecycle.Tables.{IsValid, job_key}
use executr.Lifecycle.Reachable.{exec-IsValid}
use executr.Lifecycle.Claim.{next_job-find, next_job-none, next_job-claimable}
use executr.Lifecycle.Claiming.{Claims, claim_next_job-Claims}

-- The rows after one claim for each executor, in that order.
unfoldable pub claim_all : List (String × Context) → Tables → Tables
claim_all [] t = t
claim_all ((e, c) ∷ rest) t = claim_all rest (claim_next_job e c t).0

abbrev pub waits : Job → Bool
waits j = is_pending j.status

abbrev pub waiting : Tables → ℕ
waiting t = length (keep waits t.jobs)

-- The database is reached, and nobody else holds a row.
abbrev pub Free : Context → Type 0
Free c = (c.up ≡ true) × ((i : UuidNumber) → c.locked i ≡ false)

-- The row of a job that waited: it waits, or has been handed out.
abbrev pub WaitsOrRuns : Option Job → Type 0
WaitsOrRuns none = ⊥
WaitsOrRuns (some j) = (j.status ≡ pending) ⊎ (j.status ≡ running)

-- With nobody else holding a row, a claim hands out a job wherever one waits.
none_left :
    (c : Context) (js : List Job)
    → ((i : UuidNumber) → c.locked i ≡ false)
    → any (claimable c.locked) js ≡ false
    → length (keep waits js) ≡ 0
unfolding any keep
none_left c [] free h = refl
none_left c (j ∷ js) free h = ground (arith, free j.id, none_left c js free)

module _ (e : String) (c : Context) (t : Tables) (v : IsValid t) where
  claim_row-waiting :
      (o : Option Job)
      → ((i : UuidNumber) → c.locked i ≡ false)
      → next_job c.locked t.jobs ≡ o
      → waiting (claim_row o e c t).0 ≡ waiting t - 1
  claim_row-waiting none free h =
      omega (arith, none_left c t.jobs free (next_job-none c.locked t.jobs h))
  claim_row-waiting (some k) free h = omega (
    arith,
    length-keep-update job_key k.id waits (claimed_job e c.now) t.jobs k v.keys
        (next_job-find c.locked t.jobs k v.keys h)
        (&&-left (waits k) _ (next_job-claimable c.locked t.jobs k h)) refl,
  )

  claim-waiting : Free c → waiting (claim_next_job e c t).0 ≡ waiting t - 1
  unfolding claim_next_job
  claim-waiting (up, free) =
      subst (λ (q : Tables × Result Job). waiting q.0 ≡ waiting t - 1)
        (sym (guarded_up c t (claim_row (next_job c.locked t.jobs) e c t) up))
        (claim_row-waiting (next_job c.locked t.jobs) free refl)

  handed_out :
      (q : Tables × Result Job) (i : UuidNumber)
      → Claims e c t q
      → WaitsOrRuns (get i t)
      → WaitsOrRuns (get i q.0)
  handed_out (t', ok j') i (j, there, free, first, it, rows) h = elim (Bool-cases (j.id == i)) [
    | inl same ↦ rw (rows i, same, it) (inr refl)
    | inr other ↦ rw (rows i, other) h
  ]
  handed_out (t', no_rows) i (kept, idle, up) h = rw kept h
  handed_out (t', failure) i (kept, down) h = rw kept h

claim-IsValid :
    (e : String) (c : Context) (t : Tables) → IsValid t → IsValid (claim_next_job e c t).0
unfolding exec
claim-IsValid e c t v = exec-IsValid (Statement.claim_next_job e) c t v

claim_all-waiting :
    (cs : List (String × Context)) (t : Tables) (i : UuidNumber)
    → IsValid t
    → All (λ (p : String × Context). Free p.1) cs
    → WaitsOrRuns (get i t)
    → (waiting (claim_all cs t) ≡ waiting t - length cs) × WaitsOrRuns (get i (claim_all cs t))
unfolding claim_all
claim_all-waiting [] t i v free h = (omega arith, h)
claim_all-waiting ((e, c) ∷ cs) t i v free h =
    let q : Tables × Result Job = claim_next_job e c t in
    let (fewer, here) =
      claim_all-waiting cs q.0 i (claim-IsValid e c t v) free.1
        (handed_out e c t v q i (claim_next_job-Claims e c t v) h) in
    (omega (arith, fewer, claim-waiting e c t v free.0), here)

counted : (js : List Job) → any waits js ≡ true → length (keep waits js) ≢ 0
unfolding any keep
counted [] a = λ e. cc
counted (j ∷ js) a = ground (arith, counted js)

-- No row waits where none is counted.
busy :
    (o : Option Job) (js : List Job) (i : UuidNumber)
    → find (has_id i) js ≡ o
    → length (keep waits js) ≡ 0
    → WaitsOrRuns o
    → (j : Job) × (o ≡ some j) × (j.status ≡ running)
busy none js i h none_wait w = absurd w
busy (some j) js i h none_wait (inr runs) = (j, refl, runs)
busy (some j) js i h none_wait (inl idle) =
    absurd (counted js (any_of_find (has_id i) waits js j h (ap is_pending idle)) none_wait)

-- Where as many claims follow one another as jobs wait, whoever makes them, and each reaches the
-- database while nobody else holds a row, every job that waited runs in the end.
pub claim_all-runs :
    (cs : List (String × Context)) (t : Tables) (i : UuidNumber) (j : Job)
    → IsValid t
    → All (λ (p : String × Context). Free p.1) cs
    → waiting t ≤ length cs
    → get i t ≡ some j
    → j.status ≡ pending
    → (j' : Job) × (get i (claim_all cs t) ≡ some j') × (j'.status ≡ running)
claim_all-runs cs t i j v free enough there idle =
    let (none_wait, here) = claim_all-waiting cs t i v free (rw there (inl idle)) in
    busy (get i (claim_all cs t)) (claim_all cs t).jobs i refl (omega (arith, none_wait, enough))
      here
