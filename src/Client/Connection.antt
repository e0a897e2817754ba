-- ===== src/Client/Connection.antt =====
-- The constructors of `HTTPClient` of pkg/client/client.go, and its operation Health. The base URL
-- is a list of bytes; a negative number of retries is left out.
use executr.Prelude.{ℕ, Option, none, some, [], ◌∷◌, ◌++◌, Bytes, ascii, ◌==◌, if◌then◌else◌}
use executr.Server.Http.{Method, Body, Response, Health}
use executr.Server.Routing.{Request}
use executr.Utils.Http.{
  RetryableHttpClient, new_retryable_http_client, set_max_retries, set_timeout,
}
use executr.Client.Calls.{ClientError, parse_error, no_query}

pub record HttpClient : Type 0 where
  pub base_url : Bytes
  pub http_client : RetryableHttpClient

abbrev pub kept_byte : ℕ → Bytes → Bytes
kept_byte b [] = if b == b'/' then [] else b ∷ []
kept_byte b (c ∷ rest) = b ∷ (c ∷ rest)

-- `strings.TrimRight(baseURL, "/")`
unfoldable pub trim_slashes : Bytes → Bytes
trim_slashes [] = []
trim_slashes (b ∷ rest) = kept_byte b (trim_slashes rest)

unfoldable pub new_client : Bytes → HttpClient
new_client base_url = record {
  base_url = trim_slashes base_url;
  http_client = new_retryable_http_client;
}

-- The alias `New`.
abbrev pub new : Bytes → HttpClient
new base_url = new_client base_url

unfoldable pub new_client_with_options : Bytes → ℕ → ℕ → HttpClient
new_client_with_options base_url max_retries timeout = record {
  base_url = trim_slashes base_url;
  http_client = set_timeout timeout (set_max_retries max_retries new_retryable_http_client);
}

-- The URL of a request for a path.
abbrev pub url : HttpClient → Bytes → Bytes
url c path = c.base_url ++ path

abbrev pub health_request : Request
health_request = record {
  method = Method.get;
  path = ascii "/api/v1/health";
  query = no_query;
  body = [];
}

pub data HealthOutcome : Type 0 where
  healthy : Health → HealthOutcome
  failed : ClientError → HealthOutcome
  undecodable : HealthOutcome

abbrev pub health_read : Option Health → HealthOutcome
health_read none = undecodable
health_read (some h) = healthy h

-- What `Health` makes of the response; `decode` is json.Decode.
unfoldable pub interpret_health : (Body → Option Health) → Response → HealthOutcome
interpret_health decode r =
    if r.status == 200 then health_read (decode r.body) else failed (parse_error r)
