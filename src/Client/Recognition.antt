-- ===== src/Client/Recognition.antt =====
-- The errors that `HTTPClient` of pkg/client/client.go returns, and what the tests of
-- pkg/client/errors.go make of them.
use executr.Prelude.{◌≡◌, refl, ap, ◌≤◌, false, String, Option, none, some, arith}
use executr.Server.Http.{Response}
use executr.Client.Calls.{
  Call, submit_job, get_job, list_jobs, cancel_job, claim_next_job, heartbeat, complete_job,
  fail_job, Decoder, interpret, parse_error, ClientError, Outcome, failed, undecodable,
}
use executr.Client.Errors.{
  GoError, plain, wrapped, is_error, as_api_error, is_not_found, is_no_jobs_available,
  is_server_error, is_bad_request, is_network_error,
}

-- How far a call comes: json.Marshal, http.NewRequestWithContext or DoWithContext fails with an
-- error of the given text, or there is a response.
pub data Sending : Type 0 where
  not_encoded : String → Sending
  not_created : String → Sending
  not_sent : String → Sending
  answered : Response → Sending

abbrev pub marshal_note : Call → String
marshal_note (submit_job s) = "failed to marshal job"
marshal_note (claim_next_job e ip) = "failed to marshal claim request"
marshal_note (heartbeat i e) = "failed to marshal heartbeat request"
marshal_note (complete_job i r) = "failed to marshal complete request"
marshal_note (fail_job i r) = "failed to marshal fail request"
marshal_note _ = ""

-- `written` is the text that `parseError` formats, and `refusal` that of the JSON decoder's error.
module _ (decoder : Decoder) (written : ClientError → String) (refusal : String) where
  abbrev pub outcome_error : Outcome → Option GoError
  outcome_error (failed e) = some (plain (written e))
  outcome_error undecodable = some (wrapped "failed to decode response" (plain refusal))
  outcome_error _ = none

  -- The error that a call returns, if it returns one.
  unfoldable pub call_error : Call → Sending → Option GoError
  call_error call (not_encoded why) = some (wrapped (marshal_note call) (plain why))
  call_error call (not_created why) = some (wrapped "failed to create request" (plain why))
  call_error call (not_sent why) = some (wrapped "request failed" (plain why))
  call_error call (answered r) = outcome_error (interpret decoder call r)

-- None of the tests of the package recognises the error.
abbrev pub Unrecognised : GoError → Type 0
Unrecognised e =
    (is_not_found e ≡ false)
    × (is_no_jobs_available e ≡ false)
    × (is_server_error e ≡ false)
    × (is_bad_request e ≡ false)
    × (is_network_error e ≡ false)

-- There is no response, or the response has the status of an error.
abbrev pub Fails : Sending → Type 0
Fails (answered r) = 400 ≤ r.status
Fails _ = Unit

plain-Unrecognised : (text : String) → Unrecognised (plain text)
unfolding is_not_found is_no_jobs_available is_server_error is_bad_request is_network_error is_error
    as_api_error
plain-Unrecognised text = (refl, refl, refl, refl, refl)

wrapped-Unrecognised : (note text : String) → Unrecognised (wrapped note (plain text))
unfolding is_not_found is_no_jobs_available is_server_error is_bad_request is_network_error is_error
    as_api_error
wrapped-Unrecognised note text = (refl, refl, refl, refl, refl)

module _ (decoder : Decoder) where
  -- A status of 400 or more is none that a call expects.
  refused :
      (call : Call) (r : Response)
      → 400 ≤ r.status
      → (e : ClientError) × (interpret decoder call r ≡ failed e)
  unfolding interpret
  refused (submit_job s) r h = (parse_error r, ground arith)
  refused (get_job i) r h = (parse_error r, ground arith)
  refused (list_jobs f) r h = (parse_error r, ground arith)
  refused (cancel_job i) r h = (parse_error r, ground arith)
  refused (claim_next_job e ip) r h = (parse_error r, ground arith)
  refused (heartbeat i e) r h = (parse_error r, ground arith)
  refused (complete_job i q) r h = (parse_error r, ground arith)
  refused (fail_job i q) r h = (parse_error r, ground arith)

  -- Where a call of the HTTP client is not sent or is answered with a status of 400 or more, it
  -- returns an error, and every test of the package on that error answers false, whatever the
  -- status was.
  pub call_error-Unrecognised :
      (written : ClientError → String) (refusal : String) (call : Call) (s : Sending)
      → Fails s
      → (e : GoError) × (call_error decoder written refusal call s ≡ some e) × Unrecognised e
  unfolding call_error
  call_error-Unrecognised written refusal call (not_encoded why) h =
      (_, refl, wrapped-Unrecognised (marshal_note call) why)
  call_error-Unrecognised written refusal call (not_created why) h =
      (_, refl, wrapped-Unrecognised "failed to create request" why)
  call_error-Unrecognised written refusal call (not_sent why) h =
      (_, refl, wrapped-Unrecognised "request failed" why)
  call_error-Unrecognised written refusal call (answered r) h =
      let (e, it) = refused call r h in
      (
        plain (written e),
        ap (outcome_error decoder written refusal) it,
        plain-Unrecognised (written e),
      )
