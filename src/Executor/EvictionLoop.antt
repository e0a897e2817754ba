-- ===== src/Executor/EvictionLoop.antt =====
-- The loop of `evictIfNeeded` in internal/executor/cache.go: how far it goes.
use executr.Prelude.{
  ℕ, ◌+◌, ◌-◌, ◌≤◌, ◌<◌, ltb, leb, ◌≡◌, ◌∙◌, refl, sym, ap, Bool, true, false, not, ◌&&◌, ◌⊎◌, inl,
  inr, List, [], ◌∷◌, ◌++◌, arith, All, All-keep, keep, any, total, String, str_eq, if◌then◌else◌,
  sort_by, IsSorted, IsOrder, sort_by-IsSorted, total-sort_by, All-of_sort_by, DistinctNames,
  DistinctNames-sort_by, Unnamed, str_eq_refl, str_ne_sym, Bool-cases, keep-keep, keep-append,
  keep-All, keep_nothing, All-always, All-append_right, All-both, All-imp, none, eq_iff,
  All-of_keep, All-to_keep, leb→le,
}
use mathlib.Core.Path.{subst}
use executr.Executor.Cache.{
  CacheEntry, BinaryCache, World, older, total_size, drop_entry, evict_loop,
}

abbrev pub sha_of : CacheEntry → String
sha_of e = e.sha256

pub older-IsOrder : IsOrder older
older-IsOrder = record { asym = λ a b h. ground arith; chain = λ a b c h k. ground arith }

-- The evictions of a list of entries, one after the other.
unfoldable pub drop_all : World → List CacheEntry → BinaryCache → BinaryCache
drop_all w [] c = c
drop_all w (e ∷ es) c = drop_all w es (drop_entry w e c)

-- The loop evicts the entries of a front of the list, as few as make the rest fit.
pub record Splits (w : World) (max : ℕ) (es : List CacheEntry) (c c' : BinaryCache) : Type 0 where
  pub front : List CacheEntry
  pub back : List CacheEntry
  pub split : front ++ back ≡ es
  pub evicted : c' ≡ drop_all w front c
  pub fits : total_size back ≤ max
  pub needed :
      (front ≡ [])
      ⊎ ((init : List CacheEntry) × (last : CacheEntry) × (front ≡ init ++ (last ∷ []))
          × (max < last.size + total_size back))

pub Splits-stop :
    (w : World) (max : ℕ) (es : List CacheEntry) (c : BinaryCache)
    → total_size es ≤ max
    → Splits w max es c c
unfolding drop_all
Splits-stop w max es c h = record {
  front = [];
  back = es;
  split = refl;
  evicted = refl;
  fits = h;
  needed = inl refl;
}

Splits-drop :
    (w : World) (max : ℕ) (e : CacheEntry) (es : List CacheEntry) (c c' : BinaryCache)
    → max < e.size + total_size es
    → Splits w max es (drop_entry w e c) c'
    → Splits w max (e ∷ es) c c'
unfolding drop_all
Splits-drop w max e es c c' h s = record {
  front = e ∷ s.front;
  back = s.back;
  split = ap (◌∷◌ e) s.split;
  evicted = s.evicted;
  fits = s.fits;
  needed = inr (elim s.needed [
    | inl empty ↦
        let rest : s.back ≡ es = subst (λ f. f ++ s.back ≡ es) empty s.split in
        ([], e, ap (◌∷◌ e) empty, subst (λ b. max < e.size + total_size b) (sym rest) h)
    | inr (init, last, eq, big) ↦ (e ∷ init, last, ap (◌∷◌ e) eq, big)
  ]);
}

pub evict_loop-Splits :
    (w : World) (max total : ℕ) (es : List CacheEntry) (c : BinaryCache)
    → total ≡ total_size es
    → Splits w max es c (evict_loop w max total es c)
unfolding evict_loop executr.Prelude.total
evict_loop-Splits w max n [] c h = Splits-stop w max [] c (omega arith)
evict_loop-Splits w max n (e ∷ es) c h = elim (Bool-cases (leb n max)) [
  | inl stop ↦ rw stop (Splits-stop w max (e ∷ es) c (ground arith))
  | inr go ↦ rw go (
      Splits-drop w max e es c _ (ground arith)
        (evict_loop-Splits w max (n - e.size) es (drop_entry w e c) (omega arith)))
]
