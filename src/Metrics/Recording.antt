-- ===== src/Metrics/Recording.antt =====
-- What the middleware of internal/metrics/middleware.go records of a request.
use executr.Prelude.{ℕ, ◌≡◌, Bool, true, false, Option, none, some}
use executr.Metrics.Middleware.{Act, write_header, write, ResponseWriter, is_informational, Labels}

-- The handler sends no informational status.
abbrev pub IsFinal : Act → Type 0
IsFinal (write_header n) = is_informational n ≡ false
IsFinal (write b) = Unit

-- What the wrapper has noted is what has been sent.
abbrev Notes : Bool → ℕ → Option ℕ → Type 0
Notes true status sent = sent ≡ some status
Notes false status sent = (status ≡ 200) × (sent ≡ none)

abbrev NotesOf : ResponseWriter → Type 0
NotesOf w = Notes w.written w.status_code w.sent
