-- ===== src/Cli/Table.antt =====
-- What the table of `status` of cmd/executr/main.go shows of a job.
use executr.Prelude.{
  ◌≡◌, ◌≢◌, ◌⊎◌, ◌∙◌, refl, ap, sym, inl, inr, none, some, List, [], ◌∷◌, ◌++◌, String, find,
  Bool-cases, str_eq, arith,
}
use mathlib.Core.Path.{subst}
use executr.Models
use executr.Models.{UuidNumber, EnvMap, pending, status_text, priority_text}
use executr.Server.Convert.{variable}
use executr.Cli.Submit.{Flags}
use executr.Cli.Submissions.{last_setting}
use executr.Cli.Inspect.{
  Line, field, text, joined, id, print_job_table, variables, arguments_line, environment_lines,
}

-- A line of a table.
abbrev pub Among : Line → List Line → Type 0
Among l [] = ⊥
Among l (x ∷ xs) = (l ≡ x) ⊎ Among l xs

Among-left : (l : Line) (xs ys : List Line) → Among l xs → Among l (xs ++ ys)
Among-left l [] ys h = absurd h
Among-left l (x ∷ xs) ys (inl e) = inl e
Among-left l (x ∷ xs) ys (inr h) = inr (Among-left l xs ys h)

Among-right : (l : Line) (xs ys : List Line) → Among l ys → Among l (xs ++ ys)
Among-right l [] ys h = h
Among-right l (x ∷ xs) ys h = inr (Among-right l xs ys h)

-- A table that shows a waiting job with what the flags say.
pub record ShowsFlags (i : UuidNumber) (f : Flags) (ls : List Line) : Type 0 where
  pub job_id : Among (field "Job ID" (id i)) ls
  pub job_type : Among (field "Type" (text f.job_type)) ls
  pub status : Among (field "Status" (text "pending")) ls
  pub priority : Among (field "Priority" (text f.priority)) ls
  pub binary_url : Among (field "Binary URL" (text f.binary_url)) ls
  pub arguments : f.args ≢ [] → Among (field "Arguments" (joined f.args)) ls
  pub environment :
      (k a v : String) → last_setting k f.env none ≡ some (a, v) → Among (Line.variable a v) ls

-- A job with what the flags say, waiting.
abbrev pub HasFlags : Flags → Models.Job → Type 0
HasFlags f m =
    (m.job_type ≡ f.job_type)
    × (m.binary_url ≡ f.binary_url)
    × (m.arguments ≡ f.args)
    × (priority_text m.priority ≡ f.priority)
    × ((k : String) → variable k m.env_variables ≡ last_setting k f.env none)
    × (m.status ≡ pending)

variable-Among :
    (k a v : String) (m : EnvMap)
    → variable k m ≡ some (a, v)
    → Among (Line.variable a v) (variables m)
unfolding find
variable-Among k a v [] h = absurd (cc h)
variable-Among k a v ((b, w) ∷ m) h = elim (Bool-cases (str_eq b k)) [
  | inl e ↦
      let same : (b, w) ≡ (a, v) = ground (arith, h, e) in
      inl (ap (λ (p : String × String). Line.variable p.0 p.1) (sym same))
  | inr e ↦ inr (variable-Among k a v m (ground (arith, h, e)))
]

environment-Among :
    (k a v : String) (m : EnvMap)
    → variable k m ≡ some (a, v)
    → Among (Line.variable a v) (environment_lines m)
unfolding find
environment-Among k a v [] h = absurd (cc h)
environment-Among k a v (e ∷ m) h = inr (variable-Among k a v (e ∷ m) h)

arguments-Among :
    (args : List String) → args ≢ [] → Among (field "Arguments" (joined args)) (arguments_line args)
arguments-Among [] h = absurd (h refl)
arguments-Among (a ∷ rest) h = inl refl

pub table-ShowsFlags :
    (f : Flags) (m : Models.Job) → HasFlags f m → ShowsFlags m.id f (print_job_table m)
unfolding print_job_table
table-ShowsFlags f m (job_type, url, args, priority, env, status) = record {
  job_id = inl refl;
  job_type = inr (inl (ap (λ s. field "Type" (text s)) (sym job_type)));
  status = inr (inr (inl (ap (λ s. field "Status" (text (status_text s))) (sym status))));
  priority = inr (inr (inr (inl (ap (λ s. field "Priority" (text s)) (sym priority)))));
  binary_url = inr (inr (inr (inr (inl (ap (λ s. field "Binary URL" (text s)) (sym url))))));
  arguments = λ h. inr (
      inr (
        inr (
          inr (
            inr (
              inr (
                Among-left (field "Arguments" (joined f.args)) (arguments_line m.arguments) _ (
                  subst (λ xs. Among (field "Arguments" (joined f.args)) (arguments_line xs))
                    (sym args) (arguments-Among f.args h))))))));
  environment = λ k a v h. inr (
      inr (
        inr (
          inr (
            inr (
              inr (
                Among-right (Line.variable a v) (arguments_line m.arguments) _ (
                  Among-left (Line.variable a v) (environment_lines m.env_variables) _
                    (environment-Among k a v m.env_variables (env k ∙ h)))))))));
}
