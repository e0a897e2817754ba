-- ===== src/Tests/Cache.antt =====
-- The theorems on the cache of binaries at concrete data.
use executr.Prelude.{
  Bytes, ◌≡◌, refl, String, List, [], ◌∷◌, arith, leb, true, none, some, if◌then◌else◌, str_eq,
  length, find, inr,
}
use Prim.Native.String.{◌++◌ as append}
use executr.Executor.Cache.{
  CacheEntry, Disk, BinaryCache, World, fetched, ready, get_binary, evict_if_needed,
}
use executr.Executor.Eviction.{Evicts, evict_if_needed-Evicts}
use executr.Executor.Binaries.{IsCache, Keeps, get_binary-Keeps}
use executr.Executor.Verified.{Answers, get_binary-Answers}
use executr.Executor.Oversized.{get_binary_oversized}

-- A hash with two values.
abbrev pub hash : Bytes → String
hash b = if leb (length b) 1 then "aa" else "bb"

abbrev pub join : String → String
join s = append "/cache/" s

abbrev pub binary : Bytes
binary = 7 ∷ []

abbrev pub world : World
world = record {
  now = 10;
  download = fetched binary;
  readable = λ p. true;
  removable = λ p. true;
  chmod_ok = true;
  rename_ok = true;
  stat_ok = true;
}

abbrev pub disk : Disk
disk p = if str_eq p "/cache/bb" then some (1 ∷ 2 ∷ []) else none

abbrev pub large : CacheEntry
large = record { sha256 = "bb"; path = "/cache/bb"; size = 1048576; last_access = 3 }

abbrev pub small : CacheEntry
small = record { sha256 = "cc"; path = "/cache/cc"; size = 5; last_access = 4 }

-- Above the limit of 1 MB.
abbrev pub full : BinaryCache
full = record { max_size_mb = 1; entries = small ∷ large ∷ []; disk = disk }

-- Nothing fits.
abbrev closed : BinaryCache
closed = record { max_size_mb = 0; entries = []; disk = disk }

pub full-IsCache : IsCache join 10 full
full-IsCache = record {
  names = ((refl, tt), (tt, tt));
  paths = (refl, (refl, tt));
  past = (omega arith, (omega arith, tt));
}

closed-IsCache : IsCache join 10 closed
closed-IsCache = record { names = tt; paths = tt; past = tt }

evict_if_needed-Evicts_example :
    (front : List CacheEntry) × Evicts world full (evict_if_needed world full) front
evict_if_needed-Evicts_example = evict_if_needed-Evicts world full full-IsCache.names

get_binary-Keeps_example : Keeps hash join world "aa" full (get_binary hash join world "aa" full)
get_binary-Keeps_example = get_binary-Keeps hash join world "aa" full record {
  names = full-IsCache.names;
  paths = full-IsCache.paths;
  past = (omega arith, (omega arith, tt));
}

get_binary-Answers_example :
    Answers hash join world "aa" full (get_binary hash join world "aa" full)
get_binary-Answers_example =
    get_binary-Answers hash join world "aa" full full-IsCache (inr refl, (inr refl, tt))

get_binary_oversized_example :
    let (c', r) = get_binary hash join world "aa" closed in
    (r ≡ ready (join "aa")) × (c'.disk (join "aa") ≡ none)
unfolding find
get_binary_oversized_example =
    get_binary_oversized hash join world "aa" closed binary closed-IsCache refl refl refl refl refl
      refl refl refl (omega arith)
