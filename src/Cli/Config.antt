-- ===== src/Cli/Config.antt =====
-- The commands `server` and `executor` of cmd/executr/main.go: the defaults of their flags, the
-- configurations that they make of them, and how far they come. Durations are nanoseconds.
use executr.Prelude.{
  Bytes, ascii, ℕ, ◌*◌, ◌/◌, ◌-◌, ◌+◌, ℤ, pos, negsuc, Option, none, some, String, str_eq, is_empty,
  if◌then◌else◌, ◌==◌,
}
use executr.Executor.Start
use executr.Executor.Start.{Machine, Started, Polling, start}

abbrev pub second : ℕ
second = 1000000000

-- `int(d.Seconds())`, which drops what is less than a second; the rounding of float64 is left out.
abbrev pub minus : ℕ → ℤ
minus n = if n == 0 then pos 0 else negsuc (n - 1)

unfoldable pub seconds : ℤ → ℤ
seconds (pos n) = pos (n / 1000000000)
seconds (negsuc n) = minus ((n + 1) / 1000000000)

pub data Level : Type 0 where
  debug info warn error : Level

unfoldable pub log_level : String → Level
log_level s =
    if str_eq s "debug"
    then debug
    else if str_eq s "info"
    then info
    else if str_eq s "warn"
    then warn
    else if str_eq s "error"
    then error
    else info

pub record ServerFlags : Type 0 where
  pub db_url : String
  pub port : ℤ
  pub cleanup_interval : ℤ
  pub job_retention : ℤ
  pub heartbeat_timeout : ℤ
  pub log_level : String

abbrev pub default_server_flags : ServerFlags
default_server_flags = record {
  db_url = "";
  port = pos 8080;
  cleanup_interval = pos (3600 * second);
  job_retention = pos (48 * 3600 * second);
  heartbeat_timeout = pos (15 * second);
  log_level = "info";
}

-- `Config` of internal/server/server.go.
pub record ServerConfig : Type 0 where
  pub database_url : String
  pub port : ℤ
  pub cleanup_interval : ℤ
  pub job_retention : ℤ
  pub heartbeat_timeout : ℤ
  pub log_level : String

abbrev pub server_config : ServerFlags → ServerConfig
server_config f = record {
  database_url = f.db_url;
  port = f.port;
  cleanup_interval = seconds f.cleanup_interval;
  job_retention = seconds f.job_retention;
  heartbeat_timeout = seconds f.heartbeat_timeout;
  log_level = f.log_level;
}

-- The configuration that `server.New` is given; `none` is the error on a missing database URL.
unfoldable pub server_command : ServerFlags → Option ServerConfig
server_command f = if is_empty (server_config f).database_url then none else some (server_config f)

pub record ExecutorFlags : Type 0 where
  pub server_url : String
  pub name : String
  pub cache_dir : Bytes
  pub work_dir : Bytes
  pub max_jobs : ℤ
  pub poll_interval : ℤ
  pub max_cache_size : ℕ
  pub heartbeat_interval : ℤ
  pub network_timeout : ℤ

-- The two required flags are arguments.
abbrev pub default_executor_flags : String → String → ExecutorFlags
default_executor_flags server_url name = record {
  server_url = server_url;
  name = name;
  cache_dir = ascii "~/.executr/cache";
  work_dir = ascii "/tmp/executr-jobs";
  max_jobs = pos 1;
  poll_interval = pos (5 * second);
  max_cache_size = 400;
  heartbeat_interval = pos (5 * second);
  network_timeout = pos (60 * second);
}

abbrev pub executor_config : ExecutorFlags → Start.Config
executor_config f = record {
  server_url = f.server_url;
  name = f.name;
  cache_dir = f.cache_dir;
  work_dir = f.work_dir;
  max_jobs = f.max_jobs;
  poll_interval = seconds f.poll_interval;
  max_cache_size = f.max_cache_size;
  heartbeat_interval = seconds f.heartbeat_interval;
  network_timeout = seconds f.network_timeout;
}

unfoldable pub executor_command : Machine → ExecutorFlags → Started Polling
executor_command m f = start m (executor_config f)
