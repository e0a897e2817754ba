-- ===== src/Lifecycle/Handing.antt =====
-- What ClaimNextJob of internal/db/jobs.sql.go hands out, said without the query's own functions.
use executr.Prelude.{
  ◌<◌, ◌≡◌, ◌⊎◌, refl, inl, inr, true, false, some, List, [], ◌∷◌, ◌==◌, arith, All, All-imp, any,
  String, if◌then◌else◌, Bool-cases,
}
use executr.Models.{UuidNumber, Priority, foreground, background, best_effort, pending, running}
use executr.Store.Row.{Job, Tables, Context, Result, ok, no_rows, failure, get}
use executr.Store.Jobs.{claim_next_job, claimable, claimed_first}
use executr.Lifecycle.Tables.{IsValid}
use executr.Lifecycle.Claim.{NoneBefore}
use executr.Lifecycle.Claiming.{Claims, claim_next_job-Claims}

-- Which priority is served before which.
pub data Sooner : Priority → Priority → Type 0 where
  foreground_background : Sooner foreground background
  foreground_best_effort : Sooner foreground best_effort
  background_best_effort : Sooner background best_effort

abbrev pub Before : Job → Job → Type 0
Before k j =
    Sooner k.priority j.priority ⊎ ((k.priority ≡ j.priority) × (k.created_at < j.created_at))

-- The three answers to a claim.
abbrev pub HandsOut : String → Context → Tables → Tables × Result Job → Type 0
HandsOut e c t (t', ok j') =
    (j : Job) × (get j.id t ≡ some j)
    × (j.status ≡ pending)
    × (c.locked j.id ≡ false)
    × All (λ k. k.status ≡ pending → c.locked k.id ≡ false → ¬ Before k j) t.jobs
    × (j' ≡ record j {
      status = running;
      executor_id = some e;
      started_at = some c.now;
      last_heartbeat = some c.now;
    })
    × ((i : UuidNumber) → get i t' ≡ (if j.id == i then some j' else get i t))
HandsOut e c t (t', no_rows) =
    (t' ≡ t) × All (λ k. k.status ≡ pending → c.locked k.id ≡ true) t.jobs × (c.up ≡ true)
HandsOut e c t (t', failure) = (t' ≡ t) × (c.up ≡ false)

Sooner-first : (k j : Job) → Sooner k.priority j.priority → claimed_first k j ≡ true
Sooner-first k j s = by_priority k.priority j.priority refl refl s
  where
    by_priority :
        (p q : Priority) → k.priority ≡ p → j.priority ≡ q → Sooner p q → claimed_first k j ≡ true
    by_priority p q e f foreground_background = rw (e, f) refl
    by_priority p q e f foreground_best_effort = rw (e, f) refl
    by_priority p q e f background_best_effort = rw (e, f) refl

Before-first : (k j : Job) → Before k j → claimed_first k j ≡ true
Before-first k j (inl s) = Sooner-first k j s
Before-first k j (inr (same, sooner)) = rw same (ground (arith, sooner))

waiting :
    (c : Context) (k : Job)
    → k.status ≡ pending
    → c.locked k.id ≡ false
    → claimable c.locked k ≡ true
waiting c k w free = rw (w, free) refl

none_waits :
    (c : Context) (js : List Job)
    → any (claimable c.locked) js ≡ false
    → All (λ k. k.status ≡ pending → c.locked k.id ≡ true) js
unfolding any
none_waits c [] h = tt
none_waits c (k ∷ js) h = (
  λ w. elim (Bool-cases (c.locked k.id)) [
    | inl e ↦ e
    | inr e ↦ absurd (ground (arith, h, waiting c k w e))
  ],
  none_waits c js (ground (arith, h)),
)

Claims-HandsOut :
    (e : String) (c : Context) (t : Tables) (p : Tables × Result Job)
    → Claims e c t p
    → HandsOut e c t p
Claims-HandsOut e c t (t', ok j') (j, there, free, first, made, rows) = (
  j,
  there,
  ground (arith, free),
  ground (arith, free),
  All-imp (NoneBefore c.locked j) _ t.jobs
      (λ k h w f b. cc (h (waiting c k w f), Before-first k j b)) first,
  made,
  rows,
)
Claims-HandsOut e c t (t', no_rows) (same, nobody, up) = (same, none_waits c t.jobs nobody, up)
Claims-HandsOut e c t (t', failure) h = h

-- In tables that satisfy the invariant, ClaimNextJob answers with a pending job that no other
-- transaction has locked and before which no such job comes (first by priority: foreground,
-- background, best effort; then by time of creation). It marks exactly that row running for the
-- executor, started and heard of now. It answers "no rows", with nothing changed, only when there is
-- no such job, and any other error, with nothing changed, only when the database is unreachable.
pub claim_next_job-HandsOut :
    (e : String) (c : Context) (t : Tables) → IsValid t → HandsOut e c t (claim_next_job e c t)
claim_next_job-HandsOut e c t v =
    Claims-HandsOut e c t (claim_next_job e c t) (claim_next_job-Claims e c t v)
