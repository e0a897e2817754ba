-- ===== src/Lifecycle/History.antt =====
-- What a run of statements, in any order, keeps of one job.
use executr.Prelude.{
  ◌≤◌, ◌≡◌, ◌∙◌, refl, Bool, true, false, ◌&&◌, not, Option, none, some, List, [], ◌∷◌, arith, All,
  inl, inr, ltb_ℤ, Bool-cases, &&-left, &&-right,
}
use mathlib.Core.Path.{subst}
use executr.Models.{UuidNumber, Status}
use executr.Store.Row.{Job, Tables, Context, get}
use executr.Store.Jobs.{is_terminal}
use executr.Store.Retry.{is_failed}
use executr.Store.Statement.{Statement, exec, run}
use executr.Lifecycle.Tables.{IsValid}
use executr.Lifecycle.Reachable.{exec-IsValid}
use executr.Lifecycle.Arrows.{Edge, Change, Moves, SameSpec, deletes, returns}
use executr.Lifecycle.Edges.{exec-Change}

-- Nothing can move the job any more: it is completed or cancelled, or has failed with no retry
-- left.
abbrev pub is_finished : Job → Bool
is_finished j =
    is_terminal j.status && not (is_failed j.status && ltb_ℤ j.retry_count j.max_retries)

-- The statements of a run delete nothing.
abbrev pub KeepsAll : List (Statement × Context) → Type 0
KeepsAll = All (λ p. deletes p.0 ≡ false)

no-Edge :
    (j j' : Job)
    → is_terminal j.status ≡ true
    → is_failed j.status ≡ false
    → ¬ Edge j.status j'.status
no-Edge j j' h f e = leave j.status j'.status h f e
  where
    leave : (x y : Status) → is_terminal x ≡ true → is_failed x ≡ false → ¬ Edge x y
    leave x y h f Edge.claimed = cc h
    leave x y h f Edge.cancel = cc h
    leave x y h f Edge.complete = cc h
    leave x y h f Edge.fail = cc h
    leave x y h f Edge.reset = cc h
    leave x y h f Edge.retry = cc f

finished-Moves : {r : Bool} (j j' : Job) → is_finished j ≡ true → ¬ Moves r j j'
finished-Moves j j' h m = elim (Bool-cases (is_failed j.status)) [
  | inl e ↦ cc (rw (e, m.allowed e) at (&&-right (is_terminal j.status) _ h))
  | inr e ↦ elim m.step [
    | inl (at_work, _) ↦ ground arith
    | inr edge ↦ no-Edge j j' (&&-left (is_terminal j.status) _ h) e edge
  ]
]

finished-Change :
    (r : Bool) (j : Job) (o : Option Job)
    → is_finished j ≡ true
    → Change false r (some j) o
    → o ≡ some j
finished-Change r j none h c = absurd (cc c.0)
finished-Change r j (some j') h (inl e) = cc e
finished-Change r j (some j') h (inr m) = absurd (finished-Moves j j' h m)

-- The change that a statement makes to a row known beforehand.
pub changed :
    (s : Statement) (c : Context) (t : Tables) (i : UuidNumber) (j : Job)
    → IsValid t
    → deletes s ≡ false
    → get i t ≡ some j
    → Change false (returns s) (some j) (get i (exec s c t))
changed s c t i j v k h =
    subst (λ o. Change false (returns s) o (get i (exec s c t))) h
      (subst (λ d. Change d (returns s) (get i t) (get i (exec s c t))) k (exec-Change s c t i v))

-- A job that is completed, cancelled, or failed with its retries used up keeps its row, result
-- and all, through every run of the server's statements that contains no cleanup.
pub finished-run :
    (ss : List (Statement × Context)) (t : Tables) (i : UuidNumber) (j : Job)
    → IsValid t
    → KeepsAll ss
    → get i t ≡ some j
    → is_finished j ≡ true
    → get i (run ss t) ≡ some j
unfolding run
finished-run [] t i j v k h f = h
finished-run ((s, c) ∷ ss) t i j v k h f =
    finished-run ss (exec s c t) i j (exec-IsValid s c t v) k.1
      (finished-Change (returns s) j (get i (exec s c t)) f (changed s c t i j v k.0 h)) f

-- The same job, later: the specification it was submitted with, and no smaller a retry count.
abbrev pub Later : Job → Option Job → Type 0
Later j none = ⊥
Later j (some j') = SameSpec j j' × (j.retry_count ≤ j'.retry_count)

SameSpec-refl : (j : Job) → SameSpec j j
SameSpec-refl j = (refl, refl, refl, refl, refl, refl, refl, refl, refl)

SameSpec-trans : (a b c : Job) → SameSpec a b → SameSpec b c → SameSpec a c
SameSpec-trans a b c p q = (
  q.0 ∙ p.0,
  q.1 ∙ p.1,
  q.2 ∙ p.2,
  q.3 ∙ p.3,
  q.4 ∙ p.4,
  q.5 ∙ p.5,
  q.6 ∙ p.6,
  q.7 ∙ p.7,
  q.8 ∙ p.8,
)

Change-Later : (r : Bool) (j : Job) (o : Option Job) → Change false r (some j) o → Later j o
Change-Later r j none c = absurd (cc c.0)
Change-Later r j (some j') (inl e) = (
  subst (SameSpec j) e (SameSpec-refl j),
  subst (λ x. j.retry_count ≤ x.retry_count) e (omega arith),
)
Change-Later r j (some j') (inr m) = (m.spec, ground (arith, m.counted))

Later-trans : (a b : Job) (o : Option Job) → Later a (some b) → Later b o → Later a o
Later-trans a b none p q = q
Later-trans a b (some c) p q = (SameSpec-trans a b c p.0 q.0, omega (arith, p.1, q.1))

Later-row : (j : Job) (o : Option Job) → Later j o → (j' : Job) × (o ≡ some j') × Later j (some j')
Later-row j none l = absurd l
Later-row j (some j') l = (j', refl, l)

-- Without a cleanup no job is lost: after every run it is still in the table, with the type,
-- binary, arguments, environment, priority, time of creation and retry budget that it was created
-- with, and a retry count that has not gone down.
pub run-Later :
    (ss : List (Statement × Context)) (t : Tables) (i : UuidNumber) (j : Job)
    → IsValid t
    → KeepsAll ss
    → get i t ≡ some j
    → Later j (get i (run ss t))
unfolding run
run-Later [] t i j v k h = rw h (SameSpec-refl j, omega arith)
run-Later ((s, c) ∷ ss) t i j v k h =
    let here : Later j (get i (exec s c t)) =
      Change-Later (returns s) j (get i (exec s c t)) (changed s c t i j v k.0 h) in
    let (j', e, l) = Later-row j (get i (exec s c t)) here in
    Later-trans j j' (get i (run ss (exec s c t))) l
      (run-Later ss (exec s c t) i j' (exec-IsValid s c t v) k.1 e)
