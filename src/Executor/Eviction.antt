-- ===== src/Executor/Eviction.antt =====
-- What the eviction of internal/executor/cache.go removes and keeps.
use executr.Prelude.{
  ◌+◌, ◌*◌, total, ◌≤◌, ◌<◌, leb, ◌≡◌, ◌∙◌, refl, sym, ap, Bool, true, false, not, ◌&&◌, ◌⊎◌, inl,
  inr, List, [], ◌∷◌, ◌++◌, arith, All, keep, any, String, str_eq, if◌then◌else◌, sort_by, IsSorted,
  sort_by-IsSorted, total-sort_by, All-of_sort_by, DistinctNames, DistinctNames-sort_by,
  str_eq_refl, Bool-cases, keep-keep, keep-append, keep-All, keep_nothing, All-always,
  All-append_right, All-both, All-imp, none, eq_iff, All-of_keep, All-to_keep, leb→le,
}
use mathlib.Core.Path.{subst}
use executr.Executor.EvictionLoop.{
  sha_of, older-IsOrder, drop_all, Splits, Splits-stop, evict_loop-Splits,
}
use executr.Executor.Cache.{
  CacheEntry, BinaryCache, World, older, has_sha, total_size, max_bytes, drop_entry,
  evict_if_needed,
}

-- An entry that none of the evicted ones shares its name with.
abbrev pub is_kept : List CacheEntry → CacheEntry → Bool
is_kept front x = not (any (λ e. has_sha e.sha256 x) front)

is_kept_after :
    (e : CacheEntry) (front : List CacheEntry) (x : CacheEntry)
    → is_kept (e ∷ front) x ≡ (not (has_sha e.sha256 x) && is_kept front x)
unfolding any
is_kept_after e front x = ground arith

drop_all-entries :
    (w : World) (front : List CacheEntry) (c : BinaryCache)
    → (drop_all w front c).entries ≡ keep (is_kept front) c.entries
unfolding drop_all any
drop_all-entries w [] c = sym (keep-All _ c.entries (All-always _ c.entries (λ x. refl)))
drop_all-entries w (e ∷ es) c =
    drop_all-entries w es (drop_entry w e c)
    ∙ keep-keep (is_kept es) (λ x. not (has_sha e.sha256 x)) (is_kept (e ∷ es)) c.entries
        (λ x. is_kept_after e es x)

-- The files after the evictions.
drop_all-disk :
    (w : World) (front : List CacheEntry) (c : BinaryCache) (p : String)
    → (drop_all w front c).disk p
      ≡ (if any (λ e. str_eq p e.path) front && w.removable p then none else c.disk p)
unfolding drop_all any
drop_all-disk w [] c p = refl
drop_all-disk w (e ∷ es) c p =
    ground (arith, eq_iff p e.path, drop_all-disk w es (drop_entry w e c) p)

drop_all-limit :
    (w : World) (front : List CacheEntry) (c : BinaryCache)
    → (drop_all w front c).max_size_mb ≡ c.max_size_mb
unfolding drop_all
drop_all-limit w [] c = refl
drop_all-limit w (e ∷ es) c = drop_all-limit w es (drop_entry w e c)

-- The evicted entries are not kept, and the others are.
pub front_goes : (front : List CacheEntry) → All (λ x. is_kept front x ≡ false) front
unfolding any
front_goes [] = tt
front_goes (e ∷ es) = (
  ground (arith, str_eq_refl e.sha256),
  All-imp (λ x. is_kept es x ≡ false) (λ x. is_kept (e ∷ es) x ≡ false) es
      (λ x h. ground (arith, is_kept_after e es x, h)) (front_goes es),
)

back_stays :
    (front back : List CacheEntry)
    → DistinctNames sha_of (front ++ back)
    → All (λ x. is_kept front x ≡ true) back
unfolding any
back_stays [] back d = All-always _ back (λ x. refl)
back_stays (e ∷ es) back d =
    All-imp (λ x. (is_kept es x ≡ true) × (has_sha e.sha256 x ≡ false))
      (λ x. is_kept (e ∷ es) x ≡ true) back (λ x h. ground (arith, is_kept_after e es x, h.0, h.1))
      (All-both _ _ back (back_stays es back d.1)
        (All-append_right (λ x. has_sha e.sha256 x ≡ false) es back d.0))

keep-split :
    (front back : List CacheEntry)
    → DistinctNames sha_of (front ++ back)
    → keep (is_kept front) (front ++ back) ≡ back
keep-split front back d =
    keep-append (is_kept front) front back
    ∙ (ap (λ l. l ++ keep (is_kept front) back) (keep_nothing _ front (front_goes front))
        ∙ keep-All _ back (back_stays front back d))

-- What an eviction of the entries `front` does to a cache.
pub record Evicts (w : World) (c c' : BinaryCache) (front : List CacheEntry) : Type 0 where
  pub entries : c'.entries ≡ keep (is_kept front) c.entries
  pub files :
      (p : String)
      → c'.disk p ≡ (if any (λ e. str_eq p e.path) front && w.removable p then none else c.disk p)
  pub limit : c'.max_size_mb ≡ c.max_size_mb
  pub fits : total (λ e. e.size) c'.entries ≤ c.max_size_mb * 1024 * 1024
  pub oldest : All (λ e. All (λ x. e.last_access ≤ x.last_access) c'.entries) front
  pub needed :
      (front ≡ [])
      ⊎ ((init : List CacheEntry) × (last : CacheEntry) × (front ≡ init ++ (last ∷ []))
          × (c.max_size_mb * 1024 * 1024 < last.size + total (λ e. e.size) c'.entries))
  pub drawn : (back : List CacheEntry) × (front ++ back ≡ sort_by older c.entries)

pub front_older :
    (front back : List CacheEntry)
    → IsSorted older (front ++ back)
    → All (λ e. All (λ x. older x e ≡ false) back) front
front_older [] back s = tt
front_older (e ∷ es) back s =
    (All-append_right (λ x. older x e ≡ false) es back s.0, front_older es back s.1)

module _ (w : World) (c : BinaryCache) (d : DistinctNames sha_of c.entries) (c' : BinaryCache)
    (s : Splits w (max_bytes c) (sort_by older c.entries) c c') where
  kept_sorted : keep (is_kept s.front) (sort_by older c.entries) ≡ s.back
  kept_sorted =
      subst (λ l. keep (is_kept s.front) l ≡ s.back) s.split
        (keep-split s.front s.back (
          subst (DistinctNames sha_of) (sym s.split)
            (DistinctNames-sort_by sha_of older c.entries d)))

  kept_entries : c'.entries ≡ keep (is_kept s.front) c.entries
  kept_entries = ap (λ x. x.entries) s.evicted ∙ drop_all-entries w s.front c

  kept_total : total_size c'.entries ≡ total_size s.back
  kept_total =
      ap total_size kept_entries
      ∙ (sym (total-sort_by older (λ e. e.size) (is_kept s.front) c.entries)
          ∙ ap total_size kept_sorted)

  -- What holds of the kept part of the sorted entries holds of the entries of the result.
  kept-All {κ} : (P : CacheEntry → Type κ) → All P s.back → All P c'.entries
  kept-All P h = subst (All P) (sym kept_entries) (
      All-to_keep P (is_kept s.front) c.entries (
        All-of_sort_by older (λ x. is_kept s.front x ≡ true → P x) c.entries
          (All-of_keep P (is_kept s.front) (sort_by older c.entries)
            (subst (All P) (sym kept_sorted) h))))

  Splits-Evicts : Evicts w c c' s.front
  Splits-Evicts = record {
    entries = kept_entries;
    files = λ p. ap (λ (x : BinaryCache). x.disk p) s.evicted ∙ drop_all-disk w s.front c p;
    limit = ap (λ x. x.max_size_mb) s.evicted ∙ drop_all-limit w s.front c;
    fits = omega (arith, kept_total, s.fits);
    oldest =
        All-imp _ _ s.front
          (λ e h.
            kept-All (λ x. e.last_access ≤ x.last_access)
              (All-imp (λ x. older x e ≡ false) _ s.back (λ x f. ground (arith, f)) h))
          (front_older s.front s.back (
            subst (IsSorted older) (sym s.split) (sort_by-IsSorted older older-IsOrder c.entries)));
    drawn = (s.back, s.split);
    needed = elim s.needed [
      | inl e ↦ inl e
      | inr (init, last, e, big) ↦ inr (init, last, e, omega (arith, kept_total, big))
    ];
  }

total-sorted : (es : List CacheEntry) → total_size (sort_by older es) ≡ total_size es
total-sorted es =
    sym (ap total_size (keep-All (λ x. true) (sort_by older es) (All-always _ _ (λ x. refl))))
    ∙ (total-sort_by older (λ e. e.size) (λ x. true) es
        ∙ ap total_size (keep-All (λ x. true) es (All-always _ _ (λ x. refl))))

-- In a cache whose entries have different names, an eviction removes the entries of some list,
-- with their files where the system allows it, and nothing else. What is left fits the limit, no
-- entry that is left was used before one that is evicted, and the last eviction was needed to fit.
pub evict_if_needed-Evicts :
    (w : World) (c : BinaryCache)
    → DistinctNames sha_of c.entries
    → (front : List CacheEntry) × Evicts w c (evict_if_needed w c) front
unfolding evict_if_needed
evict_if_needed-Evicts w c d = elim (Bool-cases (leb (total_size c.entries) (max_bytes c))) [
  | inl small ↦
      let s =
        Splits-stop w (max_bytes c) (sort_by older c.entries) c
          (omega (arith, total-sorted c.entries, leb→le _ _ small)) in
      rw small (s.front, Splits-Evicts w c d c s)
  | inr big ↦
      let s =
        evict_loop-Splits w (max_bytes c) (total_size c.entries) (sort_by older c.entries) c
          (sym (total-sorted c.entries)) in
      rw big (s.front, Splits-Evicts w c d _ s)
]
