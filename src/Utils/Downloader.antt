-- ===== src/Utils/Downloader.antt =====
-- internal/utils/downloader.go and hash.go: downloads over HTTP with retries, to a file or to a
-- writer. What the network sends, and what the operating system does, are arguments; `hash` is the
-- hexadecimal SHA-256.
use executr.Prelude.{
  Bytes, ℕ, ◌+◌, ◌-◌, ltb, leb, ◌==◌, Bool, false, not, ◌||◌, Option, none, some, List, [], ◌∷◌,
  String, is_empty, str_eq, if◌then◌else◌,
}
use executr.Executor.Cache.{Disk, put, rename}
use executr.Utils.Http.{
  Answer, RetryableHttpClient, new_retryable_http_client, set_max_retries, Exchange, answered,
  gave_up, context_done, do_with_context,
}

-- What io.Copy gets across: all of a body, or a part of it and then an error of the network or of
-- the writer.
pub data Stream : Type 0 where
  whole : Bytes → Stream
  cut : Bytes → Stream

abbrev pub received : Stream → Bytes
received (whole b) = b
received (cut b) = b

-- The network during one download: the answer to the i-th request with the body that comes with it,
-- and whether the context ends during the i-th wait.
pub record Network : Type 0 where
  pub created : Bool
  pub answers : ℕ → Answer
  pub bodies : ℕ → Stream
  pub ends : ℕ → Bool

pub data Fetched : Type 0 where
  no_request : Fetched
  no_response : Fetched
  status_not_ok : ℕ → Fetched
  body : Stream → Fetched

abbrev pub response_of : ℕ → Stream → Fetched
response_of status s = if status == 200 then body s else status_not_ok status

abbrev pub exchanged : Network → Exchange → Fetched
exchanged n e = elim e.outcome [
  | answered status ↦ response_of status (n.bodies (e.requests - 1))
  | gave_up ↦ no_response
  | context_done ↦ no_response
]

-- The request, its retries, and the test of the status.
unfoldable pub fetch : RetryableHttpClient → Network → Fetched
fetch c n = if n.created then exchanged n (do_with_context c n.answers n.ends) else no_request

pub data Fault : Type 0 where
  request_not_created download_failed temp_not_created not_saved not_closed : Fault
  bad_status : ℕ → Fault
  mismatch : String → String → Fault
  not_executable not_moved : Fault

-- `Downloader.Download`: the bytes that reach the writer, and the error. Its `RetryDelay` is not
-- used.
pub record Downloader : Type 0 where
  pub max_retries : ℕ
  pub retry_delay : ℕ

abbrev pub copied : Fetched → Bytes × Option Fault
copied no_request = ([], some request_not_created)
copied no_response = ([], some download_failed)
copied (status_not_ok status) = ([], some (bad_status status))
copied (body (whole b)) = (b, none)
copied (body (cut b)) = (b, some not_saved)

unfoldable pub download_to : Downloader → Network → Bytes × Option Fault
download_to d n = copied (fetch (set_max_retries d.max_retries new_retryable_http_client) n)

-- The operating system during `BinaryDownloader.Download`; `temp` is the name that CreateTemp picks.
pub record Host : Type 0 where
  pub temp : String
  pub temp_created : Bool
  pub close_ok : Bool
  pub chmod_ok : Bool
  pub rename_ok : Bool
  pub removable : Bool

-- An empty hash is none; the callback of `DownloadOptions` is that of a progress reader.
module _ (hash : Bytes → String) (h : Host) where
  -- The deferred function, where `err` is set.
  abbrev pub clean_up : Disk → Disk
  clean_up d = if h.removable then put h.temp none d else d

  abbrev pub verified : String → Bytes → Bool
  verified sha b = is_empty sha || str_eq (hash b) sha

  -- From the temporary file on. A mismatch is returned without setting `err`.
  unfoldable pub save : String → Stream → String → Disk → Disk × Option Fault
  save sha (cut b) dest d = (clean_up (put h.temp (some b) d), some not_saved)
  save sha (whole b) dest d =
      let saved : Disk = put h.temp (some b) d in
      if not h.close_ok
      then (clean_up saved, some not_closed)
      else if not (verified sha b)
      then (saved, some (mismatch sha (hash b)))
      else if not h.chmod_ok
      then (clean_up saved, some not_executable)
      else if not h.rename_ok
      then (clean_up saved, some not_moved)
      else (rename h.temp dest saved, none)

  abbrev pub save_fetched : String → Fetched → String → Disk → Disk × Option Fault
  save_fetched sha no_request dest d = (d, some request_not_created)
  save_fetched sha no_response dest d = (d, some download_failed)
  save_fetched sha (status_not_ok status) dest d = (d, some (bad_status status))
  save_fetched sha (body s) dest d =
      if h.temp_created then save sha s dest d else (d, some temp_not_created)

  unfoldable pub download : String → Network → String → Disk → Disk × Option Fault
  download sha n dest d = save_fetched sha (fetch new_retryable_http_client n) dest d

module _ (hash : Bytes → String) where
  abbrev pub hash_of : Fetched → Option String
  hash_of (body (whole b)) = some (hash b)
  hash_of _ = none

  -- `none` is an error.
  unfoldable pub calculate_sha256_from_url : Network → Option String
  calculate_sha256_from_url n = hash_of (fetch new_retryable_http_client n)

  abbrev pub calculate_sha256 : Stream → Option String
  calculate_sha256 (whole b) = some (hash b)
  calculate_sha256 (cut b) = none

  -- Whether the error is nil.
  unfoldable pub verify_sha256 : Stream → String → Bool
  verify_sha256 s expected = elim (calculate_sha256 s) [
    | none ↦ false
    | some actual ↦ str_eq actual expected
  ]

-- `progressReader`: what it has counted, and the callbacks, the latest first. Instants are
-- nanoseconds; `last_update` starts at Go's zero time, which is 0 here.
pub record ProgressReader : Type 0 where
  pub bytes_downloaded : ℕ
  pub last_update : ℕ
  pub calls : List ℕ

abbrev pub new_progress_reader : ProgressReader
new_progress_reader = record { bytes_downloaded = 0; last_update = 0; calls = [] }

-- One Read: how many bytes came, whether with io.EOF, and when.
pub record Read : Type 0 where
  pub count : ℕ
  pub eof : Bool
  pub now : ℕ

unfoldable pub read : Read → ProgressReader → ProgressReader
read r p =
    let counted : ProgressReader = record p { bytes_downloaded = p.bytes_downloaded + r.count } in
    if not (ltb 0 r.count)
    then p
    else if leb (p.last_update + 100000000) r.now || r.eof
    then record counted { last_update = r.now; calls = counted.bytes_downloaded ∷ p.calls }
    else counted

unfoldable pub read_all : List Read → ProgressReader → ProgressReader
read_all [] p = p
read_all (r ∷ rs) p = read_all rs (read r p)
