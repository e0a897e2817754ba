-- ===== src/Lifecycle/Claim.antt =====
-- The choice that ClaimNextJob makes among the pending jobs.
use executr.Prelude.{
  update, update-agree, find_unique, &&-left, ◌≡◌, ◌⊎◌, refl, Bool, true, false, not, ◌&&◌, none,
  some, List, [], ◌∷◌, ◌==◌, arith, All, find, any, Distinct, Bool-cases, Option-cases, inl, inr,
  All-find, All-imp, if◌then◌else◌, lex_before-chain, lex_before-asym, lex_before_irrefl,
}
use mathlib.Core.Path.{subst}
use executr.Models.{UuidNumber}
use executr.Store.Row.{Job, has_id}
use executr.Store.Jobs.{next_job, is_pending, claimable, claimed_first, prefer, priority_rank}
use executr.Lifecycle.Tables.{job_key}

-- The chosen row is the row of its id.
pub next_job-find :
    (locked : UuidNumber → Bool) (js : List Job) (j : Job)
    → Distinct job_key js
    → next_job locked js ≡ some j
    → find (has_id j.id) js ≡ some j
unfolding next_job find
next_job-find locked [] j d h = absurd (cc h)
next_job-find locked (x ∷ xs) j d h = elim (Option-cases (next_job locked xs)) [
  | inl e ↦ ground arith
  | inr (k, e) ↦
      let there : find (has_id k.id) xs ≡ some k = next_job-find locked xs k d.1 e in
      let apart : (k.id == x.id) ≡ false =
        All-find (λ y. (y.id == x.id) ≡ false) (has_id k.id) xs k d.0 there in
      ground arith
]

pub next_job-claimable :
    (locked : UuidNumber → Bool) (js : List Job) (j : Job)
    → next_job locked js ≡ some j
    → claimable locked j ≡ true
unfolding next_job
next_job-claimable locked [] j h = absurd (cc h)
next_job-claimable locked (x ∷ xs) j h = elim (Option-cases (next_job locked xs)) [
  | inl e ↦ ground arith
  | inr (k, e) ↦ ground (arith, next_job-claimable locked xs k e)
]

-- No claimable job comes before the chosen one.
abbrev pub NoneBefore : (UuidNumber → Bool) → Job → Job → Type 0
NoneBefore locked j k = claimable locked k ≡ true → claimed_first k j ≡ false

-- `b` is not before `a`, so what is not before `b` is not before `a`.
NoneBefore-chain :
    (locked : UuidNumber → Bool) (a b : Job) (js : List Job)
    → claimed_first b a ≡ false
    → All (NoneBefore locked b) js
    → All (NoneBefore locked a) js
NoneBefore-chain locked a b [] h t = tt
NoneBefore-chain locked a b (k ∷ js) h t = (
  λ c.
      lex_before-chain (priority_rank a.priority) a.created_at (priority_rank b.priority)
        b.created_at (priority_rank k.priority) k.created_at h (t.0 c),
  NoneBefore-chain locked a b js h t.1,
)

none_claimable :
    (locked : UuidNumber → Bool) (j : Job) (js : List Job)
    → any (claimable locked) js ≡ false
    → All (NoneBefore locked j) js
unfolding any
none_claimable locked j [] h = tt
none_claimable locked j (k ∷ js) h = (λ c. cc, none_claimable locked j js (ground arith))

pub next_job-none :
    (locked : UuidNumber → Bool) (js : List Job)
    → next_job locked js ≡ none
    → any (claimable locked) js ≡ false
unfolding next_job any
next_job-none locked [] h = refl
next_job-none locked (x ∷ xs) h = ground (arith, next_job-none locked xs)

not_before_itself : (j : Job) → claimed_first j j ≡ false
not_before_itself j = lex_before_irrefl (priority_rank j.priority) j.created_at

not_before_later : (j k : Job) → claimed_first k j ≡ true → claimed_first j k ≡ false
not_before_later j k h =
    lex_before-asym (priority_rank k.priority) k.created_at (priority_rank j.priority) j.created_at
      h

-- Which of two rows a choice `c` with a comparison `b` takes.
chosen :
    (c b : Bool) (x k j : Job)
    → (if c then some (if b then k else x) else some k) ≡ some j
    → ((c ≡ false) × (k ≡ j)) ⊎ ((b ≡ true) × (k ≡ j)) ⊎ ((b ≡ false) × (x ≡ j))
chosen true true x k j h = inr (inl (refl, cc))
chosen true false x k j h = inr (inr (refl, cc))
chosen false b x k j h = inl (refl, cc)

-- One more row: the choice between it and the choice among the others.
prefer-first :
    (locked : UuidNumber → Bool) (x k j : Job) (xs : List Job)
    → (if claimable locked x then some (prefer x (some k)) else some k) ≡ some j
    → All (NoneBefore locked k) xs
    → All (NoneBefore locked j) (x ∷ xs)
prefer-first locked x k j xs h t = elim (chosen (claimable locked x) (claimed_first k x) x k j h) [
  | inl (no_x, it) ↦ (λ c. absurd (cc (no_x, c)), subst (λ y. All (NoneBefore locked y) xs) it t)
  | inr (inl (e, it)) ↦ (
    λ c. subst (λ y. claimed_first x y ≡ false) it (not_before_later x k e),
    subst (λ y. All (NoneBefore locked y) xs) it t,
  )
  | inr (inr (e, it)) ↦ (
    λ c. subst (λ y. claimed_first x y ≡ false) it (not_before_itself x),
    subst (λ y. All (NoneBefore locked y) xs) it (NoneBefore-chain locked x k xs e t),
  )
]

pub next_job-first :
    (locked : UuidNumber → Bool) (js : List Job) (j : Job)
    → next_job locked js ≡ some j
    → All (NoneBefore locked j) js
unfolding next_job
next_job-first locked [] j h = tt
next_job-first locked (x ∷ xs) j h = elim (Option-cases (next_job locked xs)) [
  | inl e ↦
      let it : x ≡ j = ground arith in
      (λ c. rw it (not_before_itself j), none_claimable locked j xs (next_job-none locked xs e))
  | inr (k, e) ↦ prefer-first locked x k j xs (rw e at h) (next_job-first locked xs k e)
]

-- A claim's update by id is one of pending rows.
pub claim_guard :
    (locked : UuidNumber → Bool) (js : List Job) (k : Job) (f : Job → Job)
    → Distinct job_key js
    → next_job locked js ≡ some k
    → update (has_id k.id) f js ≡ update (λ j. has_id k.id j && is_pending j.status) f js
claim_guard locked js k f d h =
    update-agree (has_id k.id) (λ j. has_id k.id j && is_pending j.status) f js
      (All-imp (λ j. has_id k.id j ≡ true → j ≡ k)
        (λ j. has_id k.id j ≡ (has_id k.id j && is_pending j.status)) js
        (λ j only. guarded_row j only)
        (find_unique job_key k.id js k d (next_job-find locked js k d h)))
  where
    waits : is_pending k.status ≡ true
    waits = &&-left (is_pending k.status) (not (locked k.id)) (next_job-claimable locked js k h)

    guarded_row :
        (j : Job)
        → (has_id k.id j ≡ true → j ≡ k)
        → has_id k.id j ≡ (has_id k.id j && is_pending j.status)
    guarded_row j only = elim (Bool-cases (has_id k.id j)) [
      | inl e ↦ rw (e, only e, waits)
      | inr e ↦ rw e
    ]
