-- ===== src/Executor/Binaries.antt =====
-- `GetBinary` of internal/executor/cache.go: what it answers, and what it keeps of the cache.
use executr.Prelude.{
  Bytes, ℕ, suc, ◌≤◌, ◌<◌, ◌≡◌, refl, sym, Bool, true, false, not, ◌⊎◌, inl, inr, Option, none,
  some, List, ◌∷◌, arith, All, All-keep, All-update, keep, find, String, str_eq, eq_iff,
  if◌then◌else◌, DistinctNames, DistinctNames-keep, DistinctNames-update, Unnamed-keep, Bool-cases,
  total-keep-le, total-update,
}
use mathlib.Core.Path.{subst}
use executr.Executor.Cache.{
  CacheEntry, BinaryCache, World, Download, not_created, broken, fetched, Binary, ready, Fault,
  fault, Disk, put, remove, rename, has_sha, total_size, max_bytes, temp_path, matches,
  verify_sha256, new_entry, add_entry, install, after_download, cached, get_binary,
}
use executr.Executor.EvictionLoop.{sha_of}
use executr.Executor.Eviction.{evict_if_needed-Evicts, is_kept}

-- The map has one entry for each hash, each at the path of its hash, and none was used at the
-- instant or later.
pub record IsCache (join : String → String) (now : ℕ) (c : BinaryCache) : Type 0 where
  pub names : DistinctNames sha_of c.entries
  pub paths : All (λ e. e.path ≡ join e.sha256) c.entries
  pub past : All (λ e. e.last_access < now) c.entries

-- No other binary lies at the path of this one.
abbrev pub Apart : (String → String) → String → BinaryCache → Type 0
Apart join sha c = All (λ e. (has_sha sha e ≡ true) ⊎ (str_eq (join sha) e.path ≡ false)) c.entries

-- A ladder of four tests.
four_tests {ℓ κ} :
    {A : Type ℓ} (P : A → Type κ) (a b c d : Bool) (p q r s t : A)
    → P p
    → P q
    → P r
    → P s
    → (a ≡ true → P t)
    → P (if not a then p else if not b then q else if not c then r else if not d then s else t)
four_tests P false b c d p q r s t hp hq hr hs ht = hp
four_tests P true false c d p q r s t hp hq hr hs ht = hq
four_tests P true true false d p q r s t hp hq hr hs ht = hr
four_tests P true true true false p q r s t hp hq hr hs ht = hs
four_tests P true true true true p q r s t hp hq hr hs ht = ht refl

module _ (hash : Bytes → String) (join : String → String) (w : World) (sha : String) where
  pub matches-some :
      (o : Option Bytes)
      → matches hash join sha o ≡ true
      → (b : Bytes) × (o ≡ some b) × (hash b ≡ sha)
  matches-some none h = absurd (cc h)
  matches-some (some b) h = (b, refl, (eq_iff (hash b) sha).0 h)

  pub IsCache-keep :
      (now : ℕ) (p : CacheEntry → Bool) (d : Disk) (c : BinaryCache)
      → IsCache join now c
      → IsCache join now (record c { entries = keep p c.entries; disk = d })
  IsCache-keep now p d c v = record {
    names = DistinctNames-keep sha_of p c.entries v.names;
    paths = All-keep _ p c.entries v.paths;
    past = All-keep _ p c.entries v.past;
  }

  pub IsCache-disk :
      (now : ℕ) (d : Disk) (c : BinaryCache)
      → IsCache join now c
      → IsCache join now (record c { disk = d })
  IsCache-disk now d c v = record { names = v.names; paths = v.paths; past = v.past }

  abbrev pub others : BinaryCache → List CacheEntry
  others c = keep (λ x. not (has_sha sha x)) c.entries

  -- The cache before the eviction.
  abbrev pub with_new : BinaryCache → BinaryCache
  with_new c = record c { entries = new_entry hash join w sha c.disk ∷ others c }

  pub with_new-names :
      (c : BinaryCache) → DistinctNames sha_of c.entries → DistinctNames sha_of (with_new c).entries
  with_new-names c d = (
    Unnamed-keep sha_of (λ x. not (has_sha sha x)) sha c.entries (λ x h. ground arith),
    DistinctNames-keep sha_of (λ x. not (has_sha sha x)) c.entries d,
  )

  with_new-IsCache :
      (c : BinaryCache) → IsCache join (suc w.now) c → IsCache join (suc w.now) (with_new c)
  with_new-IsCache c v = record {
    names = with_new-names c v.names;
    paths = (refl, All-keep _ (λ x. not (has_sha sha x)) c.entries v.paths);
    past = (omega arith, All-keep _ (λ x. not (has_sha sha x)) c.entries v.past);
  }

  -- What a call may do to the entries.
  abbrev pub Keeps : BinaryCache → BinaryCache × Binary → Type 0
  Keeps c r =
      IsCache join (suc w.now) r.0
      × ((total_size r.0.entries ≤ max_bytes c) ⊎ (total_size r.0.entries ≤ total_size c.entries))

  add_entry-Keeps :
      (c : BinaryCache)
      → IsCache join (suc w.now) c
      → Keeps c (add_entry hash join w sha c, ready (join sha))
  add_entry-Keeps c v =
      let (front, e) = evict_if_needed-Evicts w (with_new c) (with_new-names c v.names) in
      let kept =
        IsCache-keep (suc w.now) (is_kept front) c.disk (with_new c) (with_new-IsCache c v) in
      (
        record {
          names = subst (DistinctNames sha_of) (sym e.entries) kept.names;
          paths = subst (All (λ x. x.path ≡ join x.sha256)) (sym e.entries) kept.paths;
          past = subst (All (λ x. x.last_access < suc w.now)) (sym e.entries) kept.past;
        },
        inl e.fits,
      )

  -- `install` fails with some change of the files, or has verified the binary and adds it.
  pub install_cases {κ} :
      (P : BinaryCache × Binary → Type κ) (c : BinaryCache)
      → ((d : Disk) (f : Fault) → P (record c { disk = d }, fault f))
      → (verify_sha256 hash join w (temp_path hash join sha) sha c.disk ≡ true
          → P (
            add_entry hash join w sha
                (record c { disk = rename (temp_path hash join sha) (join sha) c.disk }),
            ready (join sha),
          ))
      → P (install hash join w sha c)
  unfolding install
  install_cases P c stop add =
      four_tests P _ w.chmod_ok w.rename_ok w.stat_ok _ _ _ _ _ (stop _ _) (stop _ _) (stop _ _)
        (stop _ _) add

  install-Keeps :
      (c : BinaryCache) → IsCache join (suc w.now) c → Keeps c (install hash join w sha c)
  install-Keeps c v =
      install_cases (Keeps c) c (λ d f. (IsCache-disk (suc w.now) d c v, inr (omega arith)))
        (λ e. add_entry-Keeps (record c { disk = _ }) (IsCache-disk (suc w.now) _ c v))

  after_download-Keeps :
      (c : BinaryCache) (d : Download)
      → IsCache join (suc w.now) c
      → Keeps c (after_download hash join w sha c d)
  after_download-Keeps c not_created v = (IsCache-disk (suc w.now) _ c v, inr (omega arith))
  after_download-Keeps c (broken b) v = (IsCache-disk (suc w.now) _ c v, inr (omega arith))
  after_download-Keeps c (fetched b) v =
      install-Keeps (record c { disk = put (temp_path hash join sha) (some b) c.disk })
        (IsCache-disk (suc w.now) _ c v)

  abbrev renewed : CacheEntry → CacheEntry
  renewed x = record x { last_access = w.now }

  cached-Keeps :
      (c : BinaryCache) (o : Option CacheEntry)
      → IsCache join (suc w.now) c
      → Keeps c (cached hash join w sha c o)
  cached-Keeps c none v = after_download-Keeps c w.download v
  cached-Keeps c (some e) v = elim (Bool-cases (verify_sha256 hash join w e.path sha c.disk)) [
    | inl ok ↦ rw ok (
      record {
        names = DistinctNames-update sha_of (has_sha sha) renewed (λ x. refl) c.entries v.names;
        paths = All-update _ (has_sha sha) renewed c.entries (λ x h q. q) v.paths;
        past = All-update _ (has_sha sha) renewed c.entries (λ x h q. omega arith) v.past;
      },
      inr (omega (arith, total-update (λ x. x.size) (has_sha sha) renewed c.entries (λ x. refl))),
    )
    | inr bad ↦
        let c0 : BinaryCache = record c { entries = others c; disk = remove w e.path c.disk } in
        let (kept, size) =
          after_download-Keeps c0 w.download
            (IsCache-keep (suc w.now) (λ x. not (has_sha sha x)) _ c v) in
        rw bad (
          kept,
          elim size [
            | inl h ↦ inl h
            | inr h ↦ inr (
                omega (
                  arith,
                  h,
                  total-keep-le (λ (x : CacheEntry). x.size) (λ x. not (has_sha sha x)) c.entries,
                ))
          ],
        )
  ]

  -- In a cache with one entry for each hash, each at the path of its hash, and none used after the
  -- call, a call keeps that so, and leaves entries that fit the limit or are no larger than before,
  -- whatever the network and the operating system do.
  pub get_binary-Keeps :
      (c : BinaryCache) → IsCache join (suc w.now) c → Keeps c (get_binary hash join w sha c)
  unfolding get_binary
  get_binary-Keeps c v = cached-Keeps c (find (has_sha sha) c.entries) v
