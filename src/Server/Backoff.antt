-- ===== src/Server/Backoff.antt =====
-- What a claim does right after the retry worker of internal/server/server.go has put a job back.
use executr.Prelude.{
  ℕ, ◌+◌, ◌*◌, ◌^◌, ◌≡◌, ◌∙◌, ap, sym, refl, Bool, true, false, some, List, [], ◌∷◌, ◌==◌, ==_iff,
  arith, All, All-find, any, find, find-passes, String, Bool-cases, inl, inr,
}
use mathlib.Core.Path.{subst}
use executr.Models.{UuidNumber}
use executr.Store.Row.{Job, Tables, Context, Result, ok, no_rows, failure, get, has_id}
use executr.Store.Jobs.{claim_next_job, claimable, is_pending}
use executr.Store.Retry.{increment_job_retry, retried_job}
use executr.Store.Statement.{Statement, exec}
use executr.Lifecycle.Tables.{IsValid}
use executr.Lifecycle.Reachable.{exec-IsValid}
use executr.Lifecycle.Claiming.{Claims, claim_next_job-Claims}
use executr.Server.Rounds.{may_retry, increment_job_retry-IsRowStatement}

any-find :
    (p q : Job → Bool) (js : List Job) (j : Job)
    → any p js ≡ false
    → find q js ≡ some j
    → p j ≡ false
unfolding any find
any-find p q [] j h e = absurd (cc e)
any-find p q (x ∷ xs) j h e = elim (Bool-cases (q x)) [
  | inl t ↦ let same : x ≡ j = ground arith in subst (λ y. p y ≡ false) same (ground arith)
  | inr t ↦ any-find p q xs j (ground arith) (ground arith)
]

-- In tables where one row is pending and not locked, and no other is pending, a claim that reaches
-- the database gets this row.
claimed_row :
    (e : String) (c : Context) (t : Tables) (i : UuidNumber) (j : Job) (p : Tables × Result Job)
    → Claims e c t p
    → c.up ≡ true
    → get i t ≡ some j
    → claimable c.locked j ≡ true
    → ((k : UuidNumber) (x : Job) → get k t ≡ some x → is_pending x.status ≡ true → k ≡ i)
    → (t' : Tables) × (row : Job) × (p ≡ (t', ok row))
      × (row.id ≡ i)
      × (row.retry_after ≡ j.retry_after)
claimed_row e c t i j (t', ok row) (x, there, free, first, made, rows) up got ready only =
    let id_of : x.id ≡ i = only x.id x there (ground (arith, free)) in
    let same : x ≡ j = cc (subst (λ (k : ℕ). get k t ≡ some x) id_of there, got) in
    (
      t',
      row,
      refl,
      ap (λ (y : Job). y.id) made ∙ id_of,
      ap (λ (y : Job). y.retry_after) made ∙ ap (λ (y : Job). y.retry_after) same,
    )
claimed_row e c t i j (t', no_rows) (kept, nobody, u) up got ready only =
    absurd (cc (any-find (claimable c.locked) (has_id i) t.jobs j nobody got, ready))
claimed_row e c t i j (t', failure) (kept, down) up got ready only = absurd (cc (down, up))

-- A failed job with retries left is put back, in tables without pending jobs. The next claim that
-- reaches the database and finds the job's row unlocked gets it, at whatever time, though the
-- row says that it is to be retried after 1 minute times 2 to the power of the old retry count.
pub claimed_at_once :
    (i : UuidNumber) (e : String) (c c' : Context) (t : Tables) (j : Job)
    → IsValid t
    → c.up ≡ true
    → c'.up ≡ true
    → c'.locked i ≡ false
    → get i t ≡ some j
    → may_retry j ≡ true
    → All (λ x. is_pending x.status ≡ false) t.jobs
    → (t' : Tables) × (row : Job) × (claim_next_job e c' (increment_job_retry i c t).0
        ≡ (t', ok row))
      × (row.id ≡ i)
      × (row.retry_after ≡ some (c.now + 60 * 1000000 * 2 ^ j.retry_count))
claimed_at_once i e c c' t j v up up' unlocked got budget idle =
    let t1 : Tables = (increment_job_retry i c t).0 in
    let valid : IsValid t1 = unfold exec in exec-IsValid (Statement.increment_job_retry i) c t v in
    let same : (i == i) ≡ true = (==_iff i i).1 refl in
    let there : get i t1 ≡ some (retried_job c.now j) =
      increment_job_retry-IsRowStatement.effect i c t i up ∙ rw (same, got, budget) refl in
    let id_of : j.id ≡ i = (==_iff j.id i).0 (find-passes (has_id i) t.jobs j got) in
    claimed_row e c' t1 i (retried_job c.now j) (claim_next_job e c' t1)
      (claim_next_job-Claims e c' t1 valid) up' there (ground (arith, id_of, unlocked))
      (λ k x at waits. only k x at waits)
  where
    only :
        (k : UuidNumber) (x : Job)
        → get k (increment_job_retry i c t).0 ≡ some x
        → is_pending x.status ≡ true
        → k ≡ i
    only k x at waits = elim (Bool-cases (i == k)) [
      | inl h ↦ sym ((==_iff i k).0 h)
      | inr h ↦
          let before : get k t ≡ some x =
            sym (increment_job_retry-IsRowStatement.effect i c t k up ∙ rw h refl) ∙ at in
          absurd (
            cc (All-find (λ y. is_pending y.status ≡ false) (has_id k) t.jobs x idle before, waits))
    ]
