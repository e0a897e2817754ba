-- ===== src/Client/Reaching.antt =====
-- Where the requests of the client of pkg/client/client.go go, and what its Health tells of the
-- server of internal/server/server.go.
use executr.Prelude.{
  ℕ, zero, suc, arith, ◌≡◌, refl, ap, true, Option, none, some, [], ◌∷◌, ◌++◌, Bytes, ◌==◌,
  Bool-cases, inl, inr,
}
use executr.Store.Row.{Tables}
use executr.Server.Http.{Body, Health, health}
use executr.Server.Admin.{Gauges}
use executr.Server.Startup.{handle_health, health_of}
use executr.Server.Routes.{Libraries, Surroundings, Route, serve_route}
use executr.Client.Connection.{
  kept_byte, trim_slashes, health_request, health_read, HealthOutcome, healthy, interpret_health,
}

-- A slash at the end makes no difference.
pub trim_slashes-slash : (b : Bytes) → trim_slashes (b ++ (b'/' ∷ [])) ≡ trim_slashes b
unfolding trim_slashes
trim_slashes-slash [] = refl
trim_slashes-slash (b ∷ rest) = ap (kept_byte b) (trim_slashes-slash rest)

-- A list of slashes.
abbrev pub slashes : ℕ → Bytes
slashes zero = []
slashes (suc n) = b'/' ∷ slashes n

is_slash : (b : ℕ) → (b == b'/') ≡ true → b ≡ b'/'
is_slash b e = ground (arith, e)

kept_byte-slashes :
    (b : ℕ) (trimmed rest : Bytes) (n : ℕ)
    → trimmed ++ slashes n ≡ rest
    → (m : ℕ) × (kept_byte b trimmed ++ slashes m ≡ b ∷ rest)
kept_byte-slashes b [] rest n h = elim (Bool-cases (b == b'/')) [
  | inl e ↦ rw e (suc n, rw (is_slash b e) (ap (λ r. b'/' ∷ r) h))
  | inr e ↦ rw e (n, ap (λ r. b ∷ r) h)
]
kept_byte-slashes b (c ∷ cs) rest n h = (n, ap (λ r. b ∷ r) h)

-- Trimming takes slashes away, and nothing else.
pub trim_slashes-slashes : (b : Bytes) → (n : ℕ) × (trim_slashes b ++ slashes n ≡ b)
unfolding trim_slashes
trim_slashes-slashes [] = (0, refl)
trim_slashes-slashes (b ∷ rest) =
    let p = trim_slashes-slashes rest in kept_byte-slashes b (trim_slashes rest) rest p.0 p.1

-- The outcome of Health for the server's response.
abbrev pub health_outcome :
    (Body → Option Health) → Libraries → Surroundings → Tables → Gauges → Option HealthOutcome
health_outcome decode l w t g = elim (serve_route l Route.health health_request w t g) [
  | none ↦ none
  | some (state, r) ↦ some (interpret_health decode r)
]

-- Where the client reads what the server writes, Health tells "healthy" and "connected" exactly
-- where the database answers the ping, and it is no error of the client where it does not.
pub health_outcome_lem :
    (decode : Body → Option Health) (l : Libraries) (w : Surroundings) (t : Tables) (g : Gauges)
    → ((h : Health) → decode (health h) ≡ some h)
    → health_outcome decode l w t g ≡ some (healthy (health_of w.pinged))
unfolding serve_route handle_health interpret_health
health_outcome_lem decode l w t g reads =
    ap (λ o. some (health_read o)) (reads (health_of w.pinged))
