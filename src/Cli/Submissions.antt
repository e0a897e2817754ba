-- ===== src/Cli/Submissions.antt =====
-- What reaches the server from a submission by cmd/executr/main.go.
use executr.Prelude.{
  ◌≢◌, ◌≡◌, ◌∙◌, ap, sym, refl, inl, inr, true, false, not, Option, none, some, List, [], ◌∷◌,
  str_eq, eq_iff, keep, find, arith, if◌then◌else◌, Bool-cases, DistinctNames-keep, Unnamed-keep,
  All, ascii,
}
use mathlib.Core.Path.{subst}
use Prim.Native.String.{String}
use executr.Models.{EnvMap, JobSubmission, Priority, foreground, background, best_effort}
use executr.Store.Jobs.{check_priority}
use executr.Server.Convert.{IsMap, variable}
use executr.Cli.Submit.{
  Flags, sent, has_space, known_priority, split_env, assign, assign_part, parse_env, submission,
  with_sha, with_env, submit_job,
}

-- The last setting of a variable among the flags, or what it was before.
abbrev pub set_by :
    String → Option (String × String) → Option (String × String) → Option (String × String)
set_by k none before = before
set_by k (some (a, v)) before = if str_eq a k then some (a, v) else before

abbrev pub last_setting : String → List String → Option (String × String) → Option (String × String)
last_setting k [] before = before
last_setting k (e ∷ es) before = last_setting k es (set_by k (split_env e) before)

-- A variable of another name is found after the removal.
find-others :
    (a k : String) (m : EnvMap)
    → str_eq a k ≡ false
    → variable k (keep (λ e. not (str_eq e.0 a)) m) ≡ variable k m
unfolding find keep
find-others a k [] h = refl
find-others a k ((b, v) ∷ m) h = elim (Bool-cases (str_eq b a)) [
  | inl e ↦ ground (arith, eq_iff b a, eq_iff a k, eq_iff b k, find-others a k m h)
  | inr e ↦ ground (arith, find-others a k m h)
]

variable-assign :
    (a v k : String) (m : EnvMap)
    → variable k (assign a v m) ≡ (if str_eq a k then some (a, v) else variable k m)
unfolding find
variable-assign a v k m = elim (Bool-cases (str_eq a k)) [
  | inl e ↦ rw e refl
  | inr e ↦ rw e (find-others a k m e)
]

IsMap-assign : (a v : String) (m : EnvMap) → IsMap m → IsMap (assign a v m)
IsMap-assign a v m d = (
  Unnamed-keep (λ e. e.0) (λ e. not (str_eq e.0 a)) a m (λ x h. ground arith),
  DistinctNames-keep (λ e. e.0) (λ e. not (str_eq e.0 a)) m d,
)

-- What the loop over the flags makes of a map.
abbrev Settles : List String → EnvMap → EnvMap → Type 0
Settles es m r = IsMap r × ((k : String) → variable k r ≡ last_setting k es (variable k m))

parse_env-Settles :
    (es : List String) (m r : EnvMap) → IsMap m → parse_env es (some m) ≡ some r → Settles es m r
unfolding parse_env
parse_env-Settles [] m r d h =
    let same : m ≡ r = cc in (subst IsMap same d, λ k. ap (variable k) (sym same))
parse_env-Settles (e ∷ es) m r d h =
    part (split_env e) (λ m' d' g. parse_env-Settles es m' r d' g) h
  where
    part :
        (o : Option (String × String))
        → ((m' : EnvMap) → IsMap m' → parse_env es (some m') ≡ some r → Settles es m' r)
        → parse_env es (assign_part o m) ≡ some r
        → IsMap r × ((k : String) → variable k r ≡ last_setting k es (set_by k o (variable k m)))
    part none ih g = absurd (cc g)
    part (some (a, v)) ih g =
        let (is_map, settled) = ih (assign a v m) (IsMap-assign a v m d) g in
        (is_map, λ k. settled k ∙ ap (last_setting k es) (variable-assign a v k m))

-- A priority that the command line knows is one for the server.
known-priority :
    (p : String) → known_priority p ≡ true → (q : Priority) × (check_priority p ≡ some q)
known-priority p h = elim (Bool-cases (str_eq p "foreground")) [
  | inl e ↦ (foreground, rw e refl)
  | inr e ↦ elim (Bool-cases (str_eq p "background")) [
    | inl e' ↦ (background, rw (e, e') refl)
    | inr e' ↦ (best_effort, ground arith)
  ]
]

no_space : (s : String) → has_space s ≡ false → All (λ c. c ≢ b' ') (ascii s)
no_space String.[] h = tt
no_space (String.◌∷◌ c s) h = (λ e. absurd (ground (arith, h, e)), no_space s (ground (arith, h)))

-- What the server finds in a submission.
abbrev pub IsSound : Flags → JobSubmission → Type 0
IsSound f s =
    All (λ c. c ≢ b' ') (ascii s.job_type)
    × ((q : Priority) × (check_priority s.priority ≡ some q))
    × IsMap s.env_variables
    × ((k : String) → variable k s.env_variables ≡ last_setting k f.env none)
    × (s.job_type ≡ f.job_type)
    × (s.binary_url ≡ f.binary_url)
    × (s.arguments ≡ f.args)
    × (s.priority ≡ f.priority)

none_set : (k : String) → variable k [] ≡ none
unfolding find
none_set k = refl

module _ (calculate : String → Option String) (f : Flags) where
  with_sha-IsSound :
      (env : EnvMap) (o : Option String) (s : JobSubmission)
      → IsSound f (submission f env "")
      → with_sha f env o ≡ sent s
      → IsSound f s
  with_sha-IsSound env none s h e = absurd (cc e)
  with_sha-IsSound env (some sha) s h e =
      let same : submission f env sha ≡ s = cc in subst (IsSound f) same h

  with_env-IsSound :
      (o : Option EnvMap) (s : JobSubmission)
      → has_space f.job_type ≡ false
      → known_priority f.priority ≡ true
      → parse_env f.env (some []) ≡ o
      → with_env calculate f o ≡ sent s
      → IsSound f s
  with_env-IsSound none s spaced known parsed e = absurd (cc e)
  with_env-IsSound (some env) s spaced known parsed e =
      let (is_map, settled) = parse_env-Settles f.env [] env tt parsed in
      with_sha-IsSound env _ s
        (
          no_space f.job_type spaced,
          known-priority f.priority known,
          is_map,
          λ k. settled k ∙ ap (last_setting k f.env) (none_set k),
          refl,
          refl,
          refl,
          refl,
        )
        e

-- A submission that the command line sends has the type, the binary URL, the arguments and the
-- priority of the flags, a type without spaces, a priority that the server accepts, and an
-- environment without a variable twice, in which each variable has the value of its last setting
-- among the flags, and is absent where no flag sets it.
pub submit_job-IsSound :
    (calculate : String → Option String) (f : Flags) (s : JobSubmission)
    → submit_job calculate f ≡ sent s
    → IsSound f s
unfolding submit_job
submit_job-IsSound calculate f s e = elim (Bool-cases (has_space f.job_type)) [
  | inl spaced ↦ absurd (cc (rw spaced at e))
  | inr unspaced ↦ elim (Bool-cases (known_priority f.priority)) [
    | inl known ↦
        with_env-IsSound calculate f (parse_env f.env (some [])) s unspaced known refl
          (rw (unspaced, known) at e)
    | inr unknown ↦ absurd (cc (rw (unspaced, unknown) at e))
  ]
]
