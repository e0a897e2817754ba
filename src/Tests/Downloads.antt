-- ===== src/Tests/Downloads.antt =====
-- The theorems on downloads at concrete data.
use executr.Prelude.{ℕ, zero, suc, ◌≡◌, ◌<◌, refl, true, false, none, arith, inr}
use executr.Utils.Http.{Answer, response, new_retryable_http_client, set_max_retries, should_retry}
use executr.Utils.Downloader.{whole, Network, Host, download}
use executr.Utils.Downloads.{Arrives}
use executr.Executor.Cache.{Disk, World, get_binary}
use executr.Executor.Fetching.{IsThere, download_binary, get_binary-ready}
use executr.Tests.Cache.{hash, join, binary, world, full, full-IsCache}

-- The server is overloaded twice.
abbrev answers : ℕ → Answer
answers zero = response 503
answers (suc zero) = response 429
answers _ = response 200

abbrev network : Network
network = record {
  created = true;
  answers = answers;
  bodies = λ i. whole binary;
  ends = λ i. false;
}

abbrev host : Host
host = record {
  temp = "/bin/.download-1";
  temp_created = true;
  close_ok = true;
  chmod_ok = true;
  rename_ok = true;
  removable = true;
}

abbrev nothing_there : Disk
nothing_there p = none

abbrev fetching : World
fetching = record world { download = download_binary true network }

third : Arrives (set_max_retries 3 new_retryable_http_client) network 2
third = record { created = refl; allowed = omega arith; answer = refl; before = early }
  where
    early : (m : ℕ) → m < 2 → (should_retry (answers m) ≡ true) × (false ≡ false)
    early zero h = (refl, refl)
    early (suc zero) h = (refl, refl)
    early (suc (suc m)) h = absurd (omega arith)

get_binary-ready_example :
    IsThere hash join fetching "aa" full (get_binary hash join fetching "aa" full)
get_binary-ready_example =
    get_binary-ready hash join fetching "aa" network 2 binary full (λ p. refl, refl, refl, refl)
      refl third refl refl full-IsCache (inr refl, (inr refl, tt)) (omega arith)
