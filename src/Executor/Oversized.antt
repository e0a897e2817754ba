-- ===== src/Executor/Oversized.antt =====
-- A binary that alone exceeds the limit of the cache of internal/executor/cache.go.
use executr.Prelude.{
  Bytes, ◌≤◌, ◌<◌, ◌≡◌, ◌∙◌, refl, sym, ap, true, false, List, not, inl, inr, none, some, ◌∷◌,
  arith, All, All-append_left, All-sort_by, All-imp, keep, any, any-imp, All-keep, find, length,
  String, str_eq, eq_iff, str_eq_refl, Bool-cases, total,
}
use mathlib.Core.Path.{subst}
use executr.Executor.Cache.{
  CacheEntry, BinaryCache, World, fetched, ready, Disk, verify_sha256, after_download, matches,
  size_at, put, rename, has_sha, older, total_size, max_bytes, temp_path, new_entry, add_entry,
  install, cached, get_binary,
}
use executr.Executor.Eviction.{Evicts, evict_if_needed-Evicts, is_kept}
use executr.Executor.Binaries.{IsCache, with_new, with_new-names, others, IsCache-disk}

kept_size :
    (front : List CacheEntry) (new : CacheEntry) (rest : List CacheEntry)
    → is_kept front new ≡ true
    → new.size ≤ total_size (keep (is_kept front) (new ∷ rest))
unfolding keep total
kept_size front new rest h = rw h (omega arith)

not_kept :
    (front : List CacheEntry) (new : CacheEntry)
    → is_kept front new ≡ false
    → any (λ e. has_sha e.sha256 new) front ≡ true
not_kept front new h = ground arith

module _ (hash : Bytes → String) (join : String → String) (w : World) (sha : String) where
  -- The newest entry is among the evicted ones.
  evicted :
      (c c' : BinaryCache) (front : List CacheEntry)
      → IsCache join w.now c
      → Evicts w (with_new hash join w sha c) c' front
      → max_bytes c < (new_entry hash join w sha c.disk).size
      → any (λ x. str_eq (join sha) x.path) front ≡ true
  evicted c c' front v e big =
      let new : CacheEntry = new_entry hash join w sha c.disk in
      let all : All (λ x. x.path ≡ join x.sha256) front = All-append_left _ front e.drawn.0 (
        subst (All (λ x. x.path ≡ join x.sha256)) (sym e.drawn.1) (
          All-sort_by older (λ x. x.path ≡ join x.sha256) (new ∷ others hash join w sha c)
            (refl, All-keep _ (λ x. not (has_sha sha x)) c.entries v.paths))) in
      elim (Bool-cases (is_kept front new)) [
        | inl kept ↦ absurd (
            omega (
              arith,
              kept_size front new (others hash join w sha c) kept,
              ap total_size e.entries,
              e.fits,
            ))
        | inr gone ↦
            any-imp (λ x. has_sha x.sha256 new) (λ x. str_eq (join sha) x.path) front
              (All-imp _ _ front (λ x at named. same_path x at named) all) (not_kept front new gone)
      ]
    where
      same_path :
          (x : CacheEntry)
          → x.path ≡ join x.sha256
          → str_eq sha x.sha256 ≡ true
          → str_eq (join sha) x.path ≡ true
      same_path x at named =
          let same : sha ≡ x.sha256 = (eq_iff sha x.sha256).0 named in
          (eq_iff (join sha) x.path).1 (ap join same ∙ sym at)

  add_oversized :
      (c : BinaryCache)
      → IsCache join w.now c
      → max_bytes c < (new_entry hash join w sha c.disk).size
      → w.removable (join sha) ≡ true
      → (add_entry hash join w sha c).disk (join sha) ≡ none
  add_oversized c v big rm =
      let names = with_new-names hash join w sha c v.names in
      let (front, e) = evict_if_needed-Evicts w (with_new hash join w sha c) names in
      e.files (join sha) ∙ rw (evicted c (add_entry hash join w sha c) front v e big, rm)

  pub install_done :
      (c : BinaryCache)
      → verify_sha256 hash join w (temp_path hash join sha) sha c.disk ≡ true
      → w.chmod_ok ≡ true
      → w.rename_ok ≡ true
      → w.stat_ok ≡ true
      → install hash join w sha c ≡ (
        add_entry hash join w sha
            (record c { disk = rename (temp_path hash join sha) (join sha) c.disk }),
        ready (join sha),
      )
  unfolding install
  install_done c v ch rn st = simp (v, ch, rn, st)

  pub verified :
      (b : Bytes) (d : Disk)
      → w.readable (temp_path hash join sha) ≡ true
      → hash b ≡ sha
      → d (temp_path hash join sha) ≡ some b
      → verify_sha256 hash join w (temp_path hash join sha) sha d ≡ true
  verified b d readable good there =
      rw (readable) (ap (matches hash join sha) there ∙ (eq_iff (hash b) sha).1 good)

  fetches :
      (c : BinaryCache) (b : Bytes)
      → find (has_sha sha) c.entries ≡ none
      → w.download ≡ fetched b
      → get_binary hash join w sha c
        ≡ install hash join w sha
            (record c { disk = put (temp_path hash join sha) (some b) c.disk })
  unfolding get_binary
  fetches c b new fetch =
      ap (cached hash join w sha c) new ∙ ap (after_download hash join w sha c) fetch

  -- A binary that is not in the cache, is downloaded and verified, and alone exceeds the limit is
  -- answered as ready at the path of its hash, where the eviction has just removed it.
  pub get_binary_oversized :
      (c : BinaryCache) (b : Bytes)
      → IsCache join w.now c
      → find (has_sha sha) c.entries ≡ none
      → w.download ≡ fetched b
      → w.readable (temp_path hash join sha) ≡ true
      → hash b ≡ sha
      → w.chmod_ok ≡ true
      → w.rename_ok ≡ true
      → w.stat_ok ≡ true
      → w.removable (join sha) ≡ true
      → max_bytes c < length b
      → let (c', r) = get_binary hash join w sha c in
        (r ≡ ready (join sha)) × (c'.disk (join sha) ≡ none)
  get_binary_oversized c b v new fetch readable good chmod renamed stat rm big =
      let temp : String = temp_path hash join sha in
      let d : Disk = put temp (some b) c.disk in
      let there : d temp ≡ some b = rw (str_eq_refl temp) in
      let moved : BinaryCache = record c { disk = rename temp (join sha) d } in
      let e =
        fetches c b new fetch
        ∙ install_done (record c { disk = d }) (verified b d readable good there) chmod renamed
            stat in
      let size : size_at hash join (moved.disk (join sha)) ≡ length b =
        rw (str_eq_refl (join sha), there) refl in
      (
        ap (λ x. x.1) e,
        ap (λ x. x.0.disk (join sha)) e
            ∙ add_oversized moved (IsCache-disk hash join w sha w.now moved.disk c v)
                (omega (arith, size, big)) rm,
      )
