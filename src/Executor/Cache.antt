-- ===== src/Executor/Cache.antt =====
-- `BinaryCache` of internal/executor/cache.go: binaries on disk, named by their hash. The files
-- are a function of the path, and what the operating system and the network do during one call is
-- an argument.
use executr.Prelude.{
  Bytes, ℕ, ◌-◌, ◌*◌, ltb, leb, Bool, false, not, ◌&&◌, Option, none, some, List, [], ◌∷◌, String,
  str_eq, if◌then◌else◌, keep, find, update, length, sort_by, total,
}
use Prim.Native.String.{◌++◌ as append}

pub record CacheEntry : Type 0 where
  pub sha256 : String
  pub path : String
  pub size : ℕ
  pub last_access : ℕ

-- The files by their paths.
abbrev pub Disk : Type 0
Disk = String → Option Bytes

-- `entries` is a Go map: no two have the same `sha256`, and their order stands for nothing.
pub record BinaryCache : Type 0 where
  pub max_size_mb : ℕ
  pub entries : List CacheEntry
  pub disk : Disk

-- What `downloadBinary` leaves in the temporary file: nothing where it cannot be created, a part
-- where the download breaks off, all of it.
pub data Download : Type 0 where
  not_created : Download
  broken : Bytes → Download
  fetched : Bytes → Download

-- The operating system and the network during one call.
pub record World : Type 0 where
  pub now : ℕ
  pub download : Download
  pub readable : String → Bool
  pub removable : String → Bool
  pub chmod_ok : Bool
  pub rename_ok : Bool
  pub stat_ok : Bool

pub data Fault : Type 0 where
  download_failed verification_failed chmod_failed rename_failed stat_failed : Fault

pub data Binary : Type 0 where
  ready : String → Binary
  fault : Fault → Binary

abbrev pub put : String → Option Bytes → Disk → Disk
put p b d q = if str_eq q p then b else d q

abbrev pub remove : World → String → Disk → Disk
remove w p d = if w.removable p then put p none d else d

-- os.Rename onto a path that may be taken.
abbrev pub rename : String → String → Disk → Disk
rename p q d r = if str_eq r q then d p else if str_eq r p then none else d r

abbrev pub has_sha : String → CacheEntry → Bool
has_sha sha e = str_eq e.sha256 sha

abbrev pub older : CacheEntry → CacheEntry → Bool
older a b = ltb a.last_access b.last_access

abbrev pub total_size : List CacheEntry → ℕ
total_size es = total (λ e. e.size) es

-- `int64(c.maxSizeMB) * 1024 * 1024`
abbrev pub max_bytes : BinaryCache → ℕ
max_bytes c = c.max_size_mb * 1024 * 1024

-- The body of the eviction loop: the file and the entry go.
abbrev pub drop_entry : World → CacheEntry → BinaryCache → BinaryCache
drop_entry w e c = record c {
  entries = keep (λ x. not (has_sha e.sha256 x)) c.entries;
  disk = remove w e.path c.disk;
}

-- The loop over the entries, oldest first.
unfoldable pub evict_loop : World → ℕ → ℕ → List CacheEntry → BinaryCache → BinaryCache
evict_loop w max total [] c = c
evict_loop w max total (e ∷ es) c =
    let rest = evict_loop w max (total - e.size) es (drop_entry w e c) in
    if leb total max then c else rest

unfoldable pub evict_if_needed : World → BinaryCache → BinaryCache
evict_if_needed w c =
    if leb (total_size c.entries) (max_bytes c)
    then c
    else evict_loop w (max_bytes c) (total_size c.entries) (sort_by older c.entries) c

-- `hash` is the hexadecimal SHA-256 of a file's bytes, and `join` joins a name to the directory.
module _ (hash : Bytes → String) (join : String → String) where
  abbrev pub temp_path : String → String
  temp_path sha = append (join sha) ".tmp"

  abbrev pub matches : String → Option Bytes → Bool
  matches sha none = false
  matches sha (some b) = str_eq (hash b) sha

  abbrev pub verify_sha256 : World → String → String → Disk → Bool
  verify_sha256 w p sha d = w.readable p && matches sha (d p)

  abbrev pub size_at : Option Bytes → ℕ
  size_at none = 0
  size_at (some b) = length b

  abbrev pub new_entry : World → String → Disk → CacheEntry
  new_entry w sha d = record {
    sha256 = sha;
    path = join sha;
    size = size_at (d (join sha));
    last_access = w.now;
  }

  -- The entry of a binary that has been moved into place, and the eviction.
  abbrev pub add_entry : World → String → BinaryCache → BinaryCache
  add_entry w sha c =
      evict_if_needed w
        (record c { entries = new_entry w sha c.disk ∷ keep (λ x. not (has_sha sha x)) c.entries })

  -- From the verification of the temporary file on.
  unfoldable pub install : World → String → BinaryCache → BinaryCache × Binary
  install w sha c =
      let temp : String = temp_path sha in
      let dropped : BinaryCache = record c { disk = remove w temp c.disk } in
      let moved : BinaryCache = record c { disk = rename temp (join sha) c.disk } in
      if not (verify_sha256 w temp sha c.disk)
      then (dropped, fault verification_failed)
      else if not w.chmod_ok
      then (dropped, fault chmod_failed)
      else if not w.rename_ok
      then (dropped, fault rename_failed)
      else if not w.stat_ok
      then (moved, fault stat_failed)
      else (add_entry w sha moved, ready (join sha))

  abbrev pub after_download : World → String → BinaryCache → Download → BinaryCache × Binary
  after_download w sha c not_created =
      (record c { disk = remove w (temp_path sha) c.disk }, fault download_failed)
  after_download w sha c (broken b) = (
    record c { disk = remove w (temp_path sha) (put (temp_path sha) (some b) c.disk) },
    fault download_failed,
  )
  after_download w sha c (fetched b) =
      install w sha (record c { disk = put (temp_path sha) (some b) c.disk })

  -- A hit renews the entry; an entry whose file does not match is dropped, and the binary is
  -- downloaded like one that is not there.
  abbrev pub cached : World → String → BinaryCache → Option CacheEntry → BinaryCache × Binary
  cached w sha c none = after_download w sha c w.download
  cached w sha c (some e) =
      if verify_sha256 w e.path sha c.disk
      then (
        record c {
          entries = update (has_sha sha) (λ x. record x { last_access = w.now }) c.entries;
        },
        ready e.path,
      )
      else after_download w sha
          (record c {
            entries = keep (λ x. not (has_sha sha x)) c.entries;
            disk = remove w e.path c.disk;
          })
          w.download

  unfoldable pub get_binary : World → String → BinaryCache → BinaryCache × Binary
  get_binary w sha c = cached w sha c (find (has_sha sha) c.entries)

-- One file that os.ReadDir lists and whose information can be read.
pub record Listed : Type 0 where
  pub name : String
  pub size : ℕ
  pub modified : ℕ

unfoldable pub load_entries : (String → String) → List Listed → List CacheEntry
load_entries join [] = []
load_entries join (f ∷ fs) =
    (record { sha256 = f.name; path = join f.name; size = f.size; last_access = f.modified })
    ∷ load_entries join fs
