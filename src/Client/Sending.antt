-- ===== src/Client/Sending.antt =====
-- A call of pkg/client/client.go through `DoWithContext` of internal/utils/http.go, with the server at
-- the other end: attempts, each with its own contexts, on the tables that the one before has left.
-- The answers of the server arrive. A retry of a request with a body is sent without it (`req.Clone`
-- shares the body, which is read up), which net/http refuses, as it does every retry after that.
use executr.Prelude.{ℕ, zero, suc, Bool, true, false, Option, none, some, if◌then◌else◌}
use executr.Store.Row.{Tables, Context}
use executr.Server.Http.{Response}
use executr.Server.Convert.{EnvJson}
use executr.Server.Routing.{Codec, serve}
use executr.Utils.Http.{Answer, transport_error, should_retry}
use executr.Client.Calls.{
  Call, get_job, list_jobs, cancel_job, Encoder, Decoder, Outcome, request, interpret, endpoint,
}
use executr.Client.Contract.{on_store, is_server_error}

-- What the method of the client returns: what it makes of a response, or "request failed".
pub data Sent : Type 0 where
  answered : Outcome → Sent
  request_failed : Sent

abbrev pub has_body : Call → Bool
has_body (get_job i) = false
has_body (list_jobs f) = false
has_body (cancel_job i) = false
has_body _ = true

abbrev pub tables_after : Tables → Option (Tables × Response) → Tables
tables_after t none = t
tables_after t (some (t', r)) = t'

-- A handler that panics closes the connection.
abbrev pub answer_of : Option (Tables × Response) → Answer
answer_of none = transport_error
answer_of (some (t', r)) = Answer.response r.status

-- `left` attempts may follow this one; `ends i` is whether the context ends in the i-th wait.
module _ (call : Call) (cs : ℕ → Context × Context) (ends : ℕ → Bool) where
  module _ (codec : Codec) (encoder : Encoder) (decoder : Decoder) where
    abbrev pub last_answer : Tables → Option (Tables × Response) → Tables × Sent
    last_answer t none = (t, request_failed)
    last_answer t (some (t', r)) = (t', answered (interpret decoder call r))

    unfoldable pub send_from : ℕ → ℕ → Tables → Tables × Sent
    send_from zero i t =
        last_answer t (serve codec (endpoint call) (request encoder call) (cs i).0 (cs i).1 t)
    send_from (suc left) i t =
        let o : Option (Tables × Response) =
          serve codec (endpoint call) (request encoder call) (cs i).0 (cs i).1 t in
        let rest = send_from left (suc i) (tables_after t o) in
        if should_retry (answer_of o)
        then (if ends i
            then (tables_after t o, request_failed)
            else if has_body call
            then (tables_after t o, request_failed)
            else rest)
        else last_answer t o

  -- What the call is to do: its operation on the job store, once more while that fails and retries
  -- are left, if the request can be sent again.
  unfoldable pub on_store_from : EnvJson → ℕ → ℕ → Tables → Tables × Sent
  on_store_from env zero i t =
      let (t', o) = on_store env call (cs i).0 (cs i).1 t in (t', answered o)
  on_store_from env (suc left) i t =
      let (t', o) = on_store env call (cs i).0 (cs i).1 t in
      let rest = on_store_from env left (suc i) t' in
      if is_server_error o
      then (if ends i
          then (t', request_failed)
          else if has_body call
          then (t', request_failed)
          else rest)
      else (t', answered o)
