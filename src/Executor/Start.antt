-- ===== src/Executor/Start.antt =====
-- How an executor of internal/executor/executor.go starts: `New` with `NewBinaryCache` of cache.go,
-- `cleanupOrphanedDirectories`, and the tickers of `pollForJobs` and `sendHeartbeats`. Paths are
-- bytes; what the operating system answers is an argument.
use executr.Prelude.{
  Bytes, ascii, bytes_eq, ℕ, zero, suc, ◌*◌, ℤ, pos, negsuc, ltb, Bool, true, false, not, ◌&&◌,
  Option, none, some, List, [], ◌∷◌, String, if◌then◌else◌, keep, take, drop, length,
}
use Prim.Native.String.{◌++◌ as append}
use executr.Models.{UuidNumber}
use executr.Client.Calls.{Call, heartbeat}
use executr.Executor.Cache.{CacheEntry, BinaryCache, Disk, Listed, load_entries}

pub record Config : Type 0 where
  pub server_url : String
  pub name : String
  pub cache_dir : Bytes
  pub work_dir : Bytes
  pub max_jobs : ℤ
  pub poll_interval : ℤ
  pub max_cache_size : ℕ
  pub heartbeat_interval : ℤ
  pub network_timeout : ℤ

-- One entry of a directory.
pub record Entry : Type 0 where
  pub name : Bytes
  pub is_dir : Bool

-- The operating system while an executor starts: `cached` is what os.ReadDir lists of the cache and
-- `work_entries` of the work directory, `none` where it fails; `short_id` is the first 8 characters
-- of a new UUID; `cache_path` joins a name to the cache's directory.
pub record Machine : Type 0 where
  pub home : Option Bytes
  pub join : Bytes → Bytes → Bytes
  pub mkdir : Bytes → Bool
  pub short_id : String
  pub cached : Option (List Listed)
  pub cache_path : String → String
  pub disk : Disk
  pub work_entries : Option (List Entry)
  pub removable : Bytes → Bool

pub data Fault : Type 0 where
  no_home no_cache no_work_dir : Fault

-- `slots` is the capacity of `jobSem`.
pub record Executor : Type 0 where
  pub config : Config
  pub executor_id : String
  pub cache : BinaryCache
  pub slots : ℕ

pub data Started {ℓ} (A : Type ℓ) : Type ℓ where
  panicked : Started A
  failed : Fault → Started A
  running : A → Started A

infixl 5 ◌>>=◌
abbrev pub ◌>>=◌ {ℓ κ} : {A : Type ℓ} {B : Type κ} → Started A → (A → Started B) → Started B
panicked >>= f = panicked
failed e >>= f = failed e
running a >>= f = f a

module _ (m : Machine) where
  abbrev pub in_home : Bytes → Option Bytes → Started Bytes
  in_home rest none = failed no_home
  in_home rest (some home) = running (m.join home rest)

  -- `cfg.CacheDir[:2] == "~/"`: the slice panics on a shorter text.
  unfoldable pub expand_home : Bytes → Started Bytes
  expand_home dir =
      if ltb (length dir) 2
      then panicked
      else if bytes_eq (take 2 dir) (ascii "~/")
      then in_home (drop 2 dir) m.home
      else running dir

  -- A listing that fails is only logged.
  abbrev pub loaded : Option (List Listed) → List CacheEntry
  loaded none = []
  loaded (some files) = load_entries m.cache_path files

  unfoldable pub new_binary_cache : Bytes → ℕ → Started BinaryCache
  new_binary_cache dir max_size_mb =
      if m.mkdir dir
      then running (record { max_size_mb = max_size_mb; entries = loaded m.cached; disk = m.disk })
      else failed no_cache

  abbrev pub made : Bool → Fault → Started (Unit {0})
  made true f = running tt
  made false f = failed f

  -- `make(chan struct{}, n)`.
  abbrev pub new_channel : ℤ → Started ℕ
  new_channel (pos n) = running n
  new_channel (negsuc n) = panicked

  unfoldable pub new_executor : Config → Started Executor
  new_executor cfg = do
    dir ← expand_home cfg.cache_dir
    cache ← new_binary_cache dir cfg.max_cache_size
    done ← made (m.mkdir cfg.work_dir) no_work_dir
    slots ← new_channel cfg.max_jobs
    running (record {
      config = record cfg { cache_dir = dir };
      executor_id = append cfg.name (append "-" m.short_id);
      cache = cache;
      slots = slots;
    })

  -- The entries that are left. A directory that cannot be removed is only logged.
  abbrev pub orphaned : Entry → Bool
  orphaned e = e.is_dir && m.removable e.name

  unfoldable pub cleanup_orphaned_directories : Option (List Entry) → Option (List Entry)
  cleanup_orphaned_directories none = none
  cleanup_orphaned_directories (some es) = some (keep (λ e. not (orphaned e)) es)

-- `time.NewTicker(time.Duration(n) * time.Second)`, which panics unless the duration is positive.
abbrev pub new_ticker : ℤ → Started ℕ
new_ticker (pos zero) = panicked
new_ticker (pos (suc n)) = running (suc n * 1000000000)
new_ticker (negsuc n) = panicked

-- What an executor that polls has: itself, its work directory, and the time between polls.
pub record Polling : Type 0 where
  pub executor : Executor
  pub work_entries : Option (List Entry)
  pub period : ℕ

-- `New` and then `Run` up to its first wait; a panic of the goroutine that polls ends the program.
unfoldable pub start : Machine → Config → Started Polling
start m cfg = do
  e ← new_executor m cfg
  period ← new_ticker cfg.poll_interval
  running (record {
    executor = e;
    work_entries = cleanup_orphaned_directories m m.work_entries;
    period = period;
  })

-- `sendHeartbeats`: one call for each tick, with the identifier parsed again each time, until the
-- context ends.
pub data Beat : Type 0 where
  tick stop : Beat

module _ (executor_id : String) (parsed : Option UuidNumber) where
  unfoldable pub beats : List Beat → List Call
  beats [] = []
  beats (tick ∷ bs) = elim parsed [ none ↦ beats bs | some i ↦ heartbeat i executor_id ∷ beats bs ]
  beats (stop ∷ bs) = []

unfoldable pub send_heartbeats : String → Option UuidNumber → ℤ → List Beat → Started (List Call)
send_heartbeats executor_id parsed interval bs = do
  period ← new_ticker interval
  running (beats executor_id parsed bs)
