-- ===== src/Metrics/Middleware.antt =====
-- `HTTPMiddleware` and `responseWriter` of internal/metrics/middleware.go, over the ResponseWriter of
-- net/http, which sends the first final status that it is given, and 200 where it is given none. The
-- durations are left out.
use executr.Prelude.{
  ℕ, suc, ◌==◌, leb, ltb, Bool, true, false, not, ◌&&◌, Option, none, some, List, [], ◌∷◌, ◌++◌,
  Bytes, bytes_eq, String, str_eq, if◌then◌else◌,
}
use executr.Metrics.Endpoint.{normalize_endpoint}

-- What a handler does with its writer.
pub data Act : Type 0 where
  write_header : ℕ → Act
  write : Bytes → Act

pub record ResponseWriter : Type 0 where
  pub status_code : ℕ
  pub written : Bool
  pub sent : Option ℕ
  pub sent_body : Bytes

abbrev pub wrapped : ResponseWriter
wrapped = record { status_code = 200; written = false; sent = none; sent_body = [] }

-- A status of 1xx is informational and goes out ahead of the final one; 101 is final.
abbrev pub is_informational : ℕ → Bool
is_informational n = leb 100 n && ltb n 200 && not (n == 101)

abbrev pub send_status : ℕ → Option ℕ → Option ℕ
send_status n (some s) = some s
send_status n none = if is_informational n then none else some n

unfoldable pub act : Act → ResponseWriter → ResponseWriter
act (write_header n) w =
    if not w.written
    then record w { status_code = n; written = true; sent = send_status n w.sent }
    else w
act (write b) w = record w {
  written = true;
  sent = send_status 200 w.sent;
  sent_body = w.sent_body ++ b;
}

unfoldable pub act_all : List Act → ResponseWriter → ResponseWriter
act_all [] w = w
act_all (a ∷ rest) w = act_all rest (act a w)

abbrev pub seen : ResponseWriter → ℕ
seen w = elim w.sent [ none ↦ 200 | some s ↦ s ]

-- The labels of `APIRequests`.
pub record Labels : Type 0 where
  pub method : String
  pub endpoint : Bytes
  pub status : ℕ

abbrev pub same_labels : Labels → Labels → Bool
same_labels a b = str_eq a.method b.method && bytes_eq a.endpoint b.endpoint && a.status == b.status

abbrev pub Counter : Type 0
Counter = Labels → ℕ

abbrev pub inc : Labels → Counter → Counter
inc l c k = if same_labels k l then suc (c k) else c k

-- `none` is a handler that panics, after which nothing is recorded.
unfoldable pub http_middleware : String → Bytes → Option (List Act) → Counter → Counter
http_middleware method path none c = c
http_middleware method path (some acts) c =
    inc
      (record {
        method = method;
        endpoint = normalize_endpoint path;
        status = (act_all acts wrapped).status_code;
      })
      c
