-- ===== src/Client/Errors.antt =====
-- pkg/client/errors.go: the errors of the package and the tests on them. errors.Is and errors.As
-- follow the chain of an error that wraps another.
use executr.Prelude.{ℕ, leb, ◌==◌, Bool, true, false, String, Option, none, some, if◌then◌else◌}
use executr.Server.Http.{Detail}
use Prim.Native.String.{◌++◌ as append}

pub data Sentinel : Type 0 where
  err_job_not_found err_no_jobs_available err_unauthorized : Sentinel
  err_server_error err_bad_request err_network_error : Sentinel

abbrev pub sentinel_text : Sentinel → String
sentinel_text err_job_not_found = "job not found"
sentinel_text err_no_jobs_available = "no jobs available"
sentinel_text err_unauthorized = "unauthorized"
sentinel_text err_server_error = "server error"
sentinel_text err_bad_request = "bad request"
sentinel_text err_network_error = "network error"

pub record ApiError : Type 0 where
  pub status_code : ℕ
  pub message : String
  pub context : Option Detail

-- `plain` is any error of another package, and what fmt.Errorf makes without `%w`; `wrapped` is
-- what fmt.Errorf makes with `%w`.
pub data GoError : Type 0 where
  sentinel : Sentinel → GoError
  api : ApiError → GoError
  plain : String → GoError
  wrapped : String → GoError → GoError

abbrev pub same_sentinel : Sentinel → Sentinel → Bool
same_sentinel err_job_not_found err_job_not_found = true
same_sentinel err_no_jobs_available err_no_jobs_available = true
same_sentinel err_unauthorized err_unauthorized = true
same_sentinel err_server_error err_server_error = true
same_sentinel err_bad_request err_bad_request = true
same_sentinel err_network_error err_network_error = true
same_sentinel _ _ = false

-- errors.Is with one of the package's errors.
unfoldable pub is_error : GoError → Sentinel → Bool
is_error (sentinel s) target = same_sentinel s target
is_error (api a) target = false
is_error (plain text) target = false
is_error (wrapped text e) target = is_error e target

-- errors.As with a pointer to an APIError.
unfoldable pub as_api_error : GoError → Option ApiError
as_api_error (sentinel s) = none
as_api_error (api a) = some a
as_api_error (plain text) = none
as_api_error (wrapped text e) = as_api_error e

abbrev pub status_passes : (ℕ → Bool) → Option ApiError → Bool
status_passes test none = false
status_passes test (some a) = test a.status_code

unfoldable pub is_not_found : GoError → Bool
is_not_found e =
    if is_error e err_job_not_found then true else status_passes (λ n. n == 404) (as_api_error e)

unfoldable pub is_no_jobs_available : GoError → Bool
is_no_jobs_available e = is_error e err_no_jobs_available

unfoldable pub is_server_error : GoError → Bool
is_server_error e =
    if is_error e err_server_error then true else status_passes (λ n. leb 500 n) (as_api_error e)

unfoldable pub is_bad_request : GoError → Bool
is_bad_request e =
    if is_error e err_bad_request then true else status_passes (λ n. n == 400) (as_api_error e)

unfoldable pub is_network_error : GoError → Bool
is_network_error e = is_error e err_network_error

-- The texts of errors; fmt writes numbers and contexts.
module _ (number : ℕ → String) (shown : Detail → String) where
  abbrev pub api_text : ApiError → String
  api_text a =
      let head : String =
        append "API error (status " (append (number a.status_code) (append "): " a.message)) in
      elim a.context [ none ↦ head | some d ↦ append head (append ", context: " (shown d)) ]

  unfoldable pub error_text : GoError → String
  error_text (sentinel s) = sentinel_text s
  error_text (api a) = api_text a
  error_text (plain text) = text
  error_text (wrapped text e) = append text (append ": " (error_text e))
