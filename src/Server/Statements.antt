-- ===== src/Server/Statements.antt =====
-- Which statements the handlers and the workers of internal/server/server.go run.
use executr.Prelude.{◌≡◌, refl, ap, ◌∙◌, List, [], ◌∷◌, ◌++◌}
use executr.Store.Row.{Tables, Context}
use executr.Store.Statement.{Statement, exec, run}
use executr.Server.Http.{Response}
use executr.Server.Effects.{Effect, nothing, one, two}

-- Some statements of the server lead from the first tables to the second.
pub record Runs (t t' : Tables) : Type 0 where
  pub statements : List (Statement × Context)
  pub leads : run statements t ≡ t'

run-append :
    (ss ss' : List (Statement × Context)) (t : Tables) → run (ss ++ ss') t ≡ run ss' (run ss t)
unfolding run
run-append [] ss' t = refl
run-append ((s, c) ∷ ss) ss' t = run-append ss ss' (exec s c t)

pub no_statement : (t : Tables) → Runs t t
unfolding run
no_statement t = record { statements = []; leads = refl }

pub one_statement : (s : Statement) (c : Context) (t : Tables) → Runs t (exec s c t)
unfolding run
one_statement s c t = record { statements = (s, c) ∷ []; leads = refl }

pub these_statements : (ss : List (Statement × Context)) (t : Tables) → Runs t (run ss t)
these_statements ss t = record { statements = ss; leads = refl }

pub and_then : {t t' t'' : Tables} → Runs t t' → Runs t' t'' → Runs t t''
and_then {t} p q = record {
  statements = p.statements ++ q.statements;
  leads = run-append p.statements q.statements t ∙ (ap (run q.statements) p.leads ∙ q.leads);
}

pub Effect-Runs : {t : Tables} {p : Tables × Response} → Effect t p → Runs t p.0
Effect-Runs {t} (nothing r) = no_statement t
Effect-Runs {t} (one s c r h) = one_statement s c t
Effect-Runs {t} (two s s' c c' r h) =
    and_then (one_statement s c t) (one_statement s' c' (exec s c t))
