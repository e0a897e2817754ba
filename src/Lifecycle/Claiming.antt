-- ===== src/Lifecycle/Claiming.antt =====
-- ClaimNextJob as a whole: what it answers and what it changes, and that a claimed job is not
-- handed out twice.
use executr.Prelude.{
  ℕ, ◌≡◌, ◌≢◌, ◌∙◌, refl, sym, true, false, Option, none, some, List, [], ◌∷◌, ◌==◌, ==_iff, arith,
  All, any, find, update, String, if◌then◌else◌, find-update, find-passes, Bool-cases, inl, inr,
  &&-left,
}
use mathlib.Core.Path.{subst}
use mathlib.Core.Option
use executr.Models.{UuidNumber}
use executr.Store.Row.{
  Job, Tables, Context, Result, ok, no_rows, failure, has_id, get, guarded_up, guarded_down,
}
use executr.Store.Jobs.{next_job, claim_row, claim_next_job, claimable, claimed_job, is_pending}
use executr.Store.Statement.{Statement, exec, run}
use executr.Lifecycle.Tables.{IsValid}
use executr.Lifecycle.Reachable.{exec-IsValid}
use executr.Lifecycle.Claim.{
  NoneBefore, next_job-find, next_job-claimable, next_job-first, next_job-none,
}
use executr.Lifecycle.Arrows.{Change, deletes, returns}
use executr.Lifecycle.History.{changed}

-- The three answers to a claim.
abbrev pub Claims : String → Context → Tables → Tables × Result Job → Type 0
Claims e c t (t', ok j') =
    (j : Job) × (get j.id t ≡ some j)
    × (claimable c.locked j ≡ true)
    × All (NoneBefore c.locked j) t.jobs
    × (j' ≡ claimed_job e c.now j)
    × ((i : UuidNumber) → get i t' ≡ (if j.id == i then some j' else get i t))
Claims e c t (t', no_rows) = (t' ≡ t) × (any (claimable c.locked) t.jobs ≡ false) × (c.up ≡ true)
Claims e c t (t', failure) = (t' ≡ t) × (c.up ≡ false)

-- The rows after an update of the row `j`.
get-update :
    (f : Job → Job) (t : Tables) (j : Job) (i : UuidNumber)
    → ((x : Job) → (f x).id ≡ x.id)
    → get j.id t ≡ some j
    → find (has_id i) (update (has_id j.id) f t.jobs) ≡ (if j.id == i then some (f j) else get i t)
get-update f t j i same h =
    find-update (has_id i) (has_id j.id) f t.jobs (λ x. rw (same x))
    ∙ elim (Bool-cases (j.id == i)) [
      | inl e ↦ let it : j.id ≡ i = (==_iff j.id i).0 e in rw (← it, h, (==_iff j.id j.id).1 refl)
      | inr e ↦ rw e (untouched (get i t) (λ x p. find-passes (has_id i) t.jobs x p) e)
    ]
  where
    untouched :
        (o : Option Job)
        → ((x : Job) → o ≡ some x → has_id i x ≡ true)
        → (j.id == i) ≡ false
        → Option.map (λ x. if has_id j.id x then f x else x) o ≡ o
    untouched none p e = refl
    untouched (some x) p e = ground (arith, p x refl)

claim_row-Claims :
    (o : Option Job) (e : String) (c : Context) (t : Tables)
    → next_job c.locked t.jobs ≡ o
    → IsValid t
    → c.up ≡ true
    → Claims e c t (claim_row o e c t)
claim_row-Claims none e c t h v u = (refl, next_job-none c.locked t.jobs h, u)
claim_row-Claims (some j) e c t h v u =
    let there : get j.id t ≡ some j = next_job-find c.locked t.jobs j v.keys h in
    rw there (
      j,
      there,
      next_job-claimable c.locked t.jobs j h,
      next_job-first c.locked t.jobs j h,
      refl,
      λ i. get-update (claimed_job e c.now) t j i (λ x. refl) there,
    )

-- In tables that satisfy the invariant, ClaimNextJob answers with a pending job that no other
-- transaction has locked and before which no such job comes (first by priority: foreground,
-- background, best effort; then by time of creation). It marks exactly that row running for the
-- executor, started and heard of now. It answers "no rows", with nothing changed, exactly when
-- there is no such job, and any other error, with nothing changed, when the database is
-- unreachable.
pub claim_next_job-Claims :
    (e : String) (c : Context) (t : Tables) → IsValid t → Claims e c t (claim_next_job e c t)
unfolding claim_next_job
claim_next_job-Claims e c t v =
    let q : Tables × Result Job = claim_row (next_job c.locked t.jobs) e c t in
    elim (Bool-cases c.up) [
      | inl u ↦
          subst (Claims e c t) (sym (guarded_up c t q u))
            (claim_row-Claims (next_job c.locked t.jobs) e c t refl v u)
      | inr u ↦ subst (Claims e c t) (sym (guarded_down c t q u)) (refl, u)
    ]

-- A run that neither deletes rows nor puts jobs back among the pending ones.
abbrev pub Holds : List (Statement × Context) → Type 0
Holds = All (λ p. (deletes p.0 ≡ false) × (returns p.0 ≡ false))

-- Claimed, or beyond.
abbrev pub NotPending : Option Job → Type 0
NotPending none = ⊥
NotPending (some j) = is_pending j.status ≡ false

NotPending-Change :
    (j : Job) (o : Option Job)
    → is_pending j.status ≡ false
    → Change false false (some j) o
    → NotPending o
NotPending-Change j none h c = cc c.0
NotPending-Change j (some j') h (inl e) = rw (← e) h
NotPending-Change j (some j') h (inr m) = elim (Bool-cases (is_pending j'.status)) [
  | inl e ↦ absurd (cc (m.back e))
  | inr e ↦ e
]

NotPending-exec :
    (s : Statement) (c : Context) (t : Tables) (i : UuidNumber) (o : Option Job)
    → IsValid t
    → (deletes s ≡ false) × (returns s ≡ false)
    → get i t ≡ o
    → NotPending o
    → NotPending (get i (exec s c t))
NotPending-exec s c t i none v k h n = absurd n
NotPending-exec s c t i (some j) v k h n =
    NotPending-Change j (get i (exec s c t)) n
      (subst (λ r. Change false r (some j) (get i (exec s c t))) k.1 (changed s c t i j v k.0 h))

NotPending-run :
    (ss : List (Statement × Context)) (t : Tables) (i : UuidNumber)
    → IsValid t
    → Holds ss
    → NotPending (get i t)
    → NotPending (get i (run ss t)) × IsValid (run ss t)
unfolding run
NotPending-run [] t i v k n = (n, v)
NotPending-run ((s, c) ∷ ss) t i v k n =
    NotPending-run ss (exec s c t) i (exec-IsValid s c t v) k.1
      (NotPending-exec s c t i (get i t) v k.0 refl n)

-- Two answers to claims, with what they say of the job.
Claims-NotPending :
    (e : String) (c : Context) (t t' : Tables) (j : Job)
    → Claims e c t (t', ok j)
    → NotPending (get j.id t')
Claims-NotPending e c t t' j (k, there, free, first, same, rows) =
    let there' : get k.id t' ≡ some j = rows k.id ∙ rw ((==_iff k.id k.id).1 refl) in
    let ids : k.id ≡ j.id = rw same in
    let row : get j.id t' ≡ some j = subst (λ (i : ℕ). get i t' ≡ some j) ids there' in
    rw (row, same)

Claims-pending :
    (e : String) (c : Context) (t t' : Tables) (j : Job)
    → Claims e c t (t', ok j)
    → ¬ NotPending (get j.id t)
Claims-pending e c t t' j (k, there, free, first, same, rows) n =
    let ids : k.id ≡ j.id = rw same in
    let row : get j.id t ≡ some k = subst (λ (i : ℕ). get i t ≡ some k) ids there in
    let busy : is_pending k.status ≡ false = rw row at n in
    cc (busy, &&-left (is_pending k.status) _ free)

claim-IsValid :
    (e : String) (c : Context) (t : Tables) → IsValid t → IsValid (claim_next_job e c t).0
unfolding exec
claim-IsValid e c t v = exec-IsValid (Statement.claim_next_job e) c t v

-- While no statement of the run resets, retries or deletes jobs, a job that one claim has handed
-- out is not handed out by a later one, whoever asks and whatever happens in between.
pub claimed-once :
    (e e' : String) (c c' : Context) (t t' t'' : Tables) (ss : List (Statement × Context))
    (j j' : Job)
    → IsValid t
    → Holds ss
    → claim_next_job e c t ≡ (t', ok j)
    → claim_next_job e' c' (run ss t') ≡ (t'', ok j')
    → j'.id ≢ j.id
claimed-once e e' c c' t t' t'' ss j j' v k p q same =
    let first : Claims e c t (t', ok j) = rw p at (claim_next_job-Claims e c t v) in
    let v' : IsValid t' =
      subst (λ (r : Tables × Result Job). IsValid r.0) p (claim-IsValid e c t v) in
    let (n, w) = NotPending-run ss t' j.id v' k (Claims-NotPending e c t t' j first) in
    let second : Claims e' c' (run ss t') (t'', ok j') =
      rw q at (claim_next_job-Claims e' c' (run ss t') w) in
    Claims-pending e' c' (run ss t') t'' j' second (rw same n)
