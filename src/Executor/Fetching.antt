-- ===== src/Executor/Fetching.antt =====
-- `downloadBinary` of internal/executor/cache.go over the downloader of internal/utils, and when it
-- gives GetBinary its binary.
use executr.Prelude.{
  Bytes, ℕ, ◌*◌, ◌≤◌, arith, length, ◌≡◌, ◌∙◌, refl, ap, Bool, true, not, Option, none, some,
  String, str_eq_refl, find, keep, Bool-cases, inl, inr, if◌then◌else◌,
}
use executr.Utils.Http.{second, new_retryable_http_client, set_max_retries}
use executr.Utils.Downloader.{Network, whole, body, Fault, Downloader, download_to, copied, fetch}
use executr.Utils.Downloads.{Arrives, fetch-Arrives}
use mathlib.Core.Path.{subst}
use executr.Executor.Binaries.{IsCache, Apart}
use executr.Executor.Verified.{Answers, get_binary-Answers}
use executr.Executor.Oversized.{install_done, verified}
use executr.Executor.Cache.{
  Disk, CacheEntry, BinaryCache, World, Download, not_created, broken, fetched, Binary, fault,
  ready, put, remove, verify_sha256, has_sha, temp_path, after_download, cached, get_binary,
}

abbrev pub cache_downloader : Downloader
cache_downloader = record { max_retries = 3; retry_delay = 1 * second }

abbrev pub written : Bytes × Option Fault → Download
written (b, none) = fetched b
written (b, some f) = broken b

-- `created` is whether os.Create succeeds.
unfoldable pub download_binary : Bool → Network → Download
download_binary created n =
    if created then written (download_to cache_downloader n) else not_created

-- No operation of the file system fails.
abbrev pub Works : World → Type 0
Works w =
    ((p : String) → w.readable p ≡ true)
    × (w.chmod_ok ≡ true)
    × (w.rename_ok ≡ true)
    × (w.stat_ok ≡ true)

module _ (hash : Bytes → String) (join : String → String) (w : World) (sha : String) where
  fetched-ready :
      (b : Bytes) (c : BinaryCache)
      → Works w
      → hash b ≡ sha
      → (after_download hash join w sha c (fetched b)).1 ≡ ready (join sha)
  fetched-ready b c (readable, chmod, renamed, stat) good =
      let temp : String = temp_path hash join sha in
      let d : Disk = put temp (some b) c.disk in
      let there : d temp ≡ some b = rw (str_eq_refl temp) refl in
      ap (λ (q : BinaryCache × Binary). q.1)
        (install_done hash join w sha (record c { disk = d })
          (verified hash join w sha b d (readable temp) good there) chmod renamed stat)

  -- An entry of the cache that is not whole is downloaded like one that is not there.
  cached-ready :
      (b : Bytes) (c : BinaryCache) (o : Option CacheEntry)
      → Works w
      → hash b ≡ sha
      → w.download ≡ fetched b
      → (p : String) × ((cached hash join w sha c o).1 ≡ ready p)
  cached-ready b c none works good arrives = (
    join sha,
    ap (λ d. (after_download hash join w sha c d).1) arrives ∙ fetched-ready b c works good,
  )
  cached-ready b c (some e) works good arrives =
      elim (Bool-cases (verify_sha256 hash join w e.path sha c.disk)) [
        | inl matched ↦ (e.path, rw matched refl)
        | inr spoilt ↦
            let rest : BinaryCache = record c {
              entries = keep (λ x. not (has_sha sha x)) c.entries;
              disk = remove w e.path c.disk;
            } in
            (
              join sha,
              rw spoilt (
                  ap (λ d. (after_download hash join w sha rest d).1) arrives
                  ∙ fetched-ready b rest works good),
            )
      ]

  -- What GetBinary answers, with the file that is then on disk.
  abbrev pub IsThere : BinaryCache → BinaryCache × Binary → Type 0
  IsThere c r =
      (r.1 ≡ ready (join sha)) × (b' : Bytes) × (r.0.disk (join sha) ≡ some b') × (hash b' ≡ sha)

  Answers-IsThere :
      (b : Bytes) (c : BinaryCache) (r : BinaryCache × Binary) (p : String)
      → r.1 ≡ ready p
      → w.download ≡ fetched b
      → length b ≤ c.max_size_mb * 1024 * 1024
      → Answers hash join w sha c r
      → IsThere c r
  Answers-IsThere b c (c', ready q) p e got small (at, inl (b', there, good)) =
      (ap ready at, b', subst (λ x. c'.disk x ≡ some b') at there, good)
  Answers-IsThere b c (c', ready q) p e got small (at, inr (b', got', good, big)) =
      let same : b' ≡ b = cc (got, got') in
      absurd (omega (arith, ap (λ (x : Bytes). length x) same, big, small))
  Answers-IsThere b c (c', fault f) p e got small h = absurd (cc e)

  -- Where no operation of the file system fails, and the URL is answered 200 with a whole body of
  -- the expected hash at the first request or at one of the three retries, each request before it
  -- being worth a retry, and the body is within the limit of the cache: GetBinary answers the path of
  -- the hash, and the file that is there after the call has that hash. The cache has one entry for
  -- each hash, each at the path of its hash and used before the call, and no other at this path.
  pub get_binary-ready :
      (n : Network) (i : ℕ) (b : Bytes) (c : BinaryCache)
      → Works w
      → w.download ≡ download_binary true n
      → Arrives (set_max_retries 3 new_retryable_http_client) n i
      → n.bodies i ≡ whole b
      → hash b ≡ sha
      → IsCache join w.now c
      → Apart join sha c
      → length b ≤ c.max_size_mb * 1024 * 1024
      → IsThere c (get_binary hash join w sha c)
  unfolding get_binary download_binary download_to
  get_binary-ready n i b c works asked arrives sent good v apart small =
      let got : fetch (set_max_retries 3 new_retryable_http_client) n ≡ body (whole b) =
        fetch-Arrives (set_max_retries 3 new_retryable_http_client) n i arrives ∙ ap body sent in
      let whole_body : w.download ≡ fetched b = asked ∙ ap (λ f. written (copied f)) got in
      let (p, answered) = cached-ready b c (find (has_sha sha) c.entries) works good whole_body in
      Answers-IsThere b c (get_binary hash join w sha c) p answered whole_body small
        (get_binary-Answers hash join w sha c v apart)
