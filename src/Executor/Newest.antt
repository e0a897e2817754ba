-- ===== src/Executor/Newest.antt =====
-- The eviction of internal/executor/cache.go reaches the newest binary only if that alone exceeds
-- the limit.
use executr.Prelude.{
  ◌≤◌, ◌+◌, ◌<◌, ◌≡◌, ◌∙◌, refl, sym, ap, true, false, ◌⊎◌, inl, inr, List, [], ◌∷◌, ◌++◌, arith,
  All, All-keep, All-imp, All-both, keep, any, String, str_eq, IsSorted, sort_by-IsSorted,
  All-sort_by, keep_passes, any-pick, any-append, All-append_left, All-append_right, total,
}
use mathlib.Core.Path.{subst}
use mathlib.Core.List.{append_assoc}
use executr.Executor.Cache.{CacheEntry, BinaryCache, World, older, total_size, max_bytes}
use executr.Executor.EvictionLoop.{older-IsOrder}
use executr.Executor.Eviction.{Evicts, is_kept, front_goes, front_older}

-- An entry is the newest one, or an older one at another path.
abbrev pub NewOrOther : String → CacheEntry → CacheEntry → Type 0
NewOrOther p new e = (e ≡ new) ⊎ ((str_eq p e.path ≡ false) × (older e new ≡ true))

empty_of :
    (new : CacheEntry) (xs : List CacheEntry)
    → All (λ x. (older x new ≡ false) × (older x new ≡ true)) xs
    → total_size xs ≡ 0
unfolding total
empty_of new [] h = refl
empty_of new (x ∷ xs) h = absurd (cc (h.0.0, h.0.1))

module _ (w : World) (c c' : BinaryCache) (front : List CacheEntry) (e : Evicts w c c' front)
    (p : String) (new : CacheEntry) (all : All (NewOrOther p new) c.entries)
    (hit : any (λ x. str_eq p x.path) front ≡ true) where
  sorted-All : All (NewOrOther p new) (front ++ e.drawn.0)
  sorted-All =
      subst (All (NewOrOther p new)) (sym e.drawn.1)
        (All-sort_by older (NewOrOther p new) c.entries all)

  front-All : All (NewOrOther p new) front
  front-All = All-append_left (NewOrOther p new) front e.drawn.0 sorted-All

  the_new : (x : CacheEntry) → str_eq p x.path ≡ true → NewOrOther p new x → x ≡ new
  the_new x h (inl same) = same
  the_new x h (inr other) = absurd (cc (h, other.0))

  new_gone : is_kept front new ≡ false
  new_gone =
      let (x, at, (k, o)) =
        any-pick (λ x. (NewOrOther p new x) × (is_kept front x ≡ false)) (λ x. str_eq p x.path)
          front (All-both _ _ front front-All (front_goes front)) hit in
      subst (λ y. is_kept front y ≡ false) (the_new x at k) o

  kept_not_older : All (λ x. older x new ≡ false) c'.entries
  kept_not_older =
      let (x, at, (k, o)) =
        any-pick (λ x. (NewOrOther p new x) × (All (λ y. x.last_access ≤ y.last_access) c'.entries))
          (λ x. str_eq p x.path) front (All-both _ _ front front-All e.oldest) hit in
      All-imp (λ z. new.last_access ≤ z.last_access) (λ z. older z new ≡ false) c'.entries
        (λ z h. ground (arith, h))
        (subst (λ (y : CacheEntry). All (λ z. y.last_access ≤ z.last_access) c'.entries)
          (the_new x at k) o)

  kept_older : All (λ x. older x new ≡ true) c'.entries
  kept_older = subst (All (λ x. older x new ≡ true)) (sym e.entries) (
      All-imp _ _ (keep (is_kept front) c.entries) (λ x h. is_older x h.0 h.1)
        (All-both _ _ (keep (is_kept front) c.entries)
          (All-keep (NewOrOther p new) (is_kept front) c.entries all)
          (keep_passes (is_kept front) c.entries)))
    where
      is_older : (x : CacheEntry) → NewOrOther p new x → is_kept front x ≡ true → older x new ≡ true
      is_older x (inl same) k = absurd (cc (subst (λ y. is_kept front y ≡ true) same k, new_gone))
      is_older x (inr other) k = other.1

  nothing_left : total_size c'.entries ≡ 0
  nothing_left = empty_of new c'.entries (All-both _ _ c'.entries kept_not_older kept_older)

  -- The last entry of the evicted ones is the newest.
  last_new :
      (init : List CacheEntry) (last : CacheEntry)
      → front ≡ init ++ (last ∷ [])
      → NewOrOther p new last
      → last ≡ new
  last_new init last f (inl same) = same
  last_new init last f (inr other) =
      let order : IsSorted older (init ++ (last ∷ e.drawn.0)) =
        subst (IsSorted older)
          (sym e.drawn.1 ∙ (ap (λ l. l ++ e.drawn.0) f ∙ append_assoc init (last ∷ []) e.drawn.0))
          (sort_by-IsSorted older older-IsOrder c.entries) in
      let inside : any (λ x. str_eq p x.path) init ≡ true =
        unfold any in
        ground (
          arith,
          any-append (λ x. str_eq p x.path) init (last ∷ []),
          subst (λ l. any (λ x. str_eq p x.path) l ≡ true) f hit,
          other.0,
        ) in
      let (x, at, (k, o)) =
        any-pick (λ x. (NewOrOther p new x) × All (λ y. older y x ≡ false) (last ∷ e.drawn.0))
          (λ x. str_eq p x.path) init
          (All-both _ _ init
            (All-append_left _ init (last ∷ []) (subst (All (NewOrOther p new)) f front-All))
            (front_older init (last ∷ e.drawn.0) order))
          inside in
      absurd (cc (other.1, subst (λ y. older last y ≡ false) (the_new x at k) o.0))

  pub newest_too_big : max_bytes c < new.size
  newest_too_big = too_big e.needed
    where
      too_big :
          (front ≡ [])
            ⊎ ((init : List CacheEntry) × (last : CacheEntry) × (front ≡ init ++ (last ∷ []))
                × (max_bytes c < last.size + total_size c'.entries))
          → max_bytes c < new.size
      too_big (inl none) = absurd (unfold any in cc (hit, ap (any (λ x. str_eq p x.path)) none))
      too_big (inr (init, last, f, big)) =
          let one : NewOrOther p new last =
            (All-append_right _ init (last ∷ []) (subst (All (NewOrOther p new)) f front-All)).0 in
          let same : last.size ≡ new.size = ap (λ x. x.size) (last_new init last f one) in
          omega (arith, big, same, nothing_left)
