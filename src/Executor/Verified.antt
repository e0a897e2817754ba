-- ===== src/Executor/Verified.antt =====
-- `GetBinary` of internal/executor/cache.go: the file behind the path that it answers.
use executr.Prelude.{
  Bytes, ◌<◌, ◌≡◌, ◌∙◌, refl, ap, true, false, not, ◌⊎◌, inl, inr, Option, none, some, arith, All,
  All-keep, All-imp, All-both, All-find, find-passes, keep, any, find, length, String, str_eq,
  eq_iff, str_eq_refl, keep_passes, Bool-cases, &&-right,
}
use mathlib.Core.Path.{subst}
use executr.Executor.Cache.{
  CacheEntry, BinaryCache, World, Download, not_created, broken, fetched, Binary, ready, fault,
  Disk, put, remove, rename, has_sha, max_bytes, temp_path, verify_sha256, size_at, new_entry,
  add_entry, install, after_download, cached, get_binary,
}
use executr.Executor.Eviction.{evict_if_needed-Evicts}
use executr.Executor.Newest.{NewOrOther, newest_too_big}
use executr.Executor.Binaries.{
  IsCache, Apart, matches-some, with_new, with_new-names, others, install_cases, IsCache-disk,
  IsCache-keep,
}

module _ (hash : Bytes → String) (join : String → String) (w : World) (sha : String) where
  -- What `c` and a download `d` lead to: the binary in place, unless it alone exceeds the limit.
  abbrev Installs : BinaryCache → Bytes → BinaryCache × Binary → Type 0
  Installs c b (c', ready p) =
      (p ≡ join sha) × (hash b ≡ sha) × ((c'.disk p ≡ some b) ⊎ (max_bytes c < length b))
  Installs c b (c', fault f) = c'.entries ≡ c.entries

  new_or_other :
      (d : Disk) (c : BinaryCache)
      → IsCache join w.now c
      → Apart join sha c
      → All (NewOrOther (join sha) (new_entry hash join w sha d)) (others hash join w sha c)
  new_or_other d c v apart =
      All-imp _ _ (others hash join w sha c) (λ e h. other e h.0 h.1.0 h.1.1)
        (All-both _ _ (others hash join w sha c) (keep_passes (λ x. not (has_sha sha x)) c.entries)
          (All-keep _ (λ x. not (has_sha sha x)) c.entries (All-both _ _ c.entries apart v.past)))
    where
      other :
          (e : CacheEntry)
          → not (has_sha sha e) ≡ true
          → (has_sha sha e ≡ true) ⊎ (str_eq (join sha) e.path ≡ false)
          → e.last_access < w.now
          → NewOrOther (join sha) (new_entry hash join w sha d) e
      other e h (inl same) t = absurd (ground arith)
      other e h (inr apart) t = inr (apart, ground arith)

  add_entry-Installs :
      (c : BinaryCache) (b : Bytes)
      → IsCache join w.now c
      → Apart join sha c
      → c.disk (join sha) ≡ some b
      → hash b ≡ sha
      → Installs c b (add_entry hash join w sha c, ready (join sha))
  add_entry-Installs c b v apart there good =
      let c2 : BinaryCache = with_new hash join w sha c in
      let (front, e) = evict_if_needed-Evicts w c2 (with_new-names hash join w sha c v.names) in
      let p : String = join sha in
      (
        refl,
        good,
        elim (Bool-cases (any (λ x. str_eq p x.path) front)) [
          | inr safe ↦ inl (e.files p ∙ (rw safe there))
          | inl hit ↦
              let big =
                newest_too_big w c2 (add_entry hash join w sha c) front e p
                  (new_entry hash join w sha c.disk) (inl refl, new_or_other c.disk c v apart)
                  hit in
              inr (subst (λ o. max_bytes c < size_at hash join o) there big)
        ],
      )

  install-Installs :
      (c : BinaryCache) (b : Bytes)
      → IsCache join w.now c
      → Apart join sha c
      → c.disk (temp_path hash join sha) ≡ some b
      → Installs c b (install hash join w sha c)
  install-Installs c b v apart there =
      install_cases hash join w sha (Installs c b) c (λ d f. refl)
        (λ ok.
          let moved : Disk = rename (temp_path hash join sha) (join sha) c.disk in
          let (b', found, good) =
            matches-some hash join w sha (c.disk (temp_path hash join sha))
              (&&-right (w.readable (temp_path hash join sha)) _ ok) in
          let same : b' ≡ b = ground (arith, found, there) in
          add_entry-Installs (record c { disk = moved }) b
            (IsCache-disk hash join w sha w.now moved c v) apart (rw (str_eq_refl (join sha)) there)
            (subst (λ x. hash x ≡ sha) same good))

  -- What a call answers from a cache `c`, once its download has been tried.
  abbrev Downloads : BinaryCache → Download → BinaryCache × Binary → Type 0
  Downloads c d (c', ready p) =
      (p ≡ join sha)
      × (b : Bytes) × (d ≡ fetched b)
      × (hash b ≡ sha)
      × ((c'.disk p ≡ some b) ⊎ (max_bytes c < length b))
  Downloads c d (c', fault f) = c'.entries ≡ c.entries

  Downloads-fetched :
      (c : BinaryCache) (d : Disk) (b : Bytes) (r : BinaryCache × Binary)
      → Installs (record c { disk = d }) b r
      → Downloads c (fetched b) r
  Downloads-fetched c d b (c', ready p) (at, good, there) = (at, b, refl, good, there)
  Downloads-fetched c d b (c', fault f) h = h

  after_download-Downloads :
      (c : BinaryCache) (d : Download)
      → IsCache join w.now c
      → Apart join sha c
      → Downloads c d (after_download hash join w sha c d)
  after_download-Downloads c not_created v apart = refl
  after_download-Downloads c (broken b) v apart = refl
  after_download-Downloads c (fetched b) v apart =
      let d : Disk = put (temp_path hash join sha) (some b) c.disk in
      Downloads-fetched c d b (install hash join w sha (record c { disk = d })) (
        install-Installs (record c { disk = d }) b (IsCache-disk hash join w sha w.now d c v) apart
          (rw (str_eq_refl (temp_path hash join sha))))

  -- The answer to a call on the cache `c`.
  abbrev pub Answers : BinaryCache → BinaryCache × Binary → Type 0
  Answers c (c', ready p) =
      (p ≡ join sha)
      × (((b : Bytes) × (c'.disk p ≡ some b) × (hash b ≡ sha))
          ⊎ ((b : Bytes) × (w.download ≡ fetched b) × (hash b ≡ sha) × (max_bytes c < length b)))
  Answers c (c', fault f) =
      (c'.entries ≡ c.entries) ⊎ (c'.entries ≡ keep (λ x. not (has_sha sha x)) c.entries)

  Answers-Downloads :
      (c c0 : BinaryCache) (r : BinaryCache × Binary)
      → c0.max_size_mb ≡ c.max_size_mb
      → (c0.entries ≡ c.entries) ⊎ (c0.entries ≡ others hash join w sha c)
      → Downloads c0 w.download r
      → Answers c r
  Answers-Downloads c c0 (c', ready p) limit h (at, b, d, good, inl there) =
      (at, inl (b, there, good))
  Answers-Downloads c c0 (c', ready p) limit h (at, b, d, good, inr big) =
      (at, inr (b, d, good, omega (arith, big, limit)))
  Answers-Downloads c c0 (c', fault f) limit (inl h) k = inl (k ∙ h)
  Answers-Downloads c c0 (c', fault f) limit (inr h) k = inr (k ∙ h)

  hit-Answers :
      (c : BinaryCache) (o : Option CacheEntry)
      → find (has_sha sha) c.entries ≡ o
      → IsCache join w.now c
      → Apart join sha c
      → Answers c (cached hash join w sha c o)
  hit-Answers c none h v apart =
      Answers-Downloads c c (after_download hash join w sha c w.download) refl (inl refl)
        (after_download-Downloads c w.download v apart)
  hit-Answers c (some e) h v apart =
      elim (Bool-cases (verify_sha256 hash join w e.path sha c.disk)) [
        | inl ok ↦
            let named : e.sha256 ≡ sha =
              (eq_iff e.sha256 sha).0 (find-passes (has_sha sha) c.entries e h) in
            let at : e.path ≡ join sha =
              All-find (λ x. x.path ≡ join x.sha256) (has_sha sha) c.entries e v.paths h
              ∙ ap join named in
            let (b, there, good) =
              matches-some hash join w sha (c.disk e.path) (&&-right (w.readable e.path) _ ok) in
            rw ok (at, inl (b, there, good))
        | inr bad ↦
            let rest : BinaryCache = record c {
              entries = others hash join w sha c;
              disk = remove w e.path c.disk;
            } in
            rw bad (
              Answers-Downloads c rest (after_download hash join w sha rest w.download) refl
                (inr refl)
                (after_download-Downloads rest w.download
                  (IsCache-keep hash join w sha w.now (λ x. not (has_sha sha x))
                    (remove w e.path c.disk) c v)
                  (All-keep _ (λ x. not (has_sha sha x)) c.entries apart)))
      ]

  -- In a cache with one entry for each hash, each at the path of its hash, all used before the call,
  -- and with no other binary at the path of the one that is asked for: where a call answers a path,
  -- it is the path of the hash, and the file there has that hash, unless the binary was just
  -- downloaded and alone exceeds the limit of the cache. Where it fails, the entries are those from
  -- before, or those of the other hashes.
  pub get_binary-Answers :
      (c : BinaryCache)
      → IsCache join w.now c
      → Apart join sha c
      → Answers c (get_binary hash join w sha c)
  unfolding get_binary
  get_binary-Answers c v apart = hit-Answers c (find (has_sha sha) c.entries) refl v apart
