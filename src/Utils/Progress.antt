-- ===== src/Utils/Progress.antt =====
-- What the callback of `progressReader` of internal/utils/downloader.go is told.
use executr.Prelude.{
  ℕ, ◌+◌, ◌≤◌, ◌<◌, ◌≡◌, refl, Bool, true, false, not, ◌||◌, List, [], ◌∷◌, arith, ltb, leb, total,
  if◌then◌else◌,
}
use executr.Utils.Downloader.{ProgressReader, Read, read, read_all}

-- The reports so far, the latest first: each is of more bytes than the one before.
abbrev pub Below : ℕ → List ℕ → Type 0
Below n [] = Unit
Below n (m ∷ ms) = (m < n) × Below m ms

-- The latest report is of no more bytes than have come.
abbrev pub Rising : ProgressReader → Type 0
Rising p = Below (p.bytes_downloaded + 1) p.calls

lower : (n m : ℕ) (cs : List ℕ) → n ≤ m → Below n cs → Below m cs
lower n m [] le b = tt
lower n m (c ∷ cs) le b = (omega (arith, le, b.0), b.1)

-- The three ends of a Read.
by_tests :
    (idle due : Bool) (p q s : ProgressReader)
    → Rising p
    → (idle ≡ false → Rising q)
    → Rising s
    → Rising (if idle then p else if due then q else s)
by_tests true due p q s hp hq hs = hp
by_tests false true p q s hp hq hs = hq refl
by_tests false false p q s hp hq hs = hs

read-Rising : (r : Read) (p : ProgressReader) → Rising p → Rising (read r p)
unfolding read
read-Rising r p h =
    let n : ℕ = p.bytes_downloaded in
    by_tests (not (ltb 0 r.count)) (leb (p.last_update + 100000000) r.now || r.eof) p _ _ h
      (λ busy. (omega arith, lower (n + 1) (n + r.count) p.calls (ground arith) h))
      (lower (n + 1) (n + r.count + 1) p.calls (omega arith) h)

read-counts :
    (r : Read) (p : ProgressReader) → (read r p).bytes_downloaded ≡ p.bytes_downloaded + r.count
unfolding read
read-counts r p = ground arith

-- Over any reads, the reader counts the bytes of all of them.
pub read_all-counts :
    (rs : List Read) (p : ProgressReader)
    → (read_all rs p).bytes_downloaded ≡ p.bytes_downloaded + total (λ r. r.count) rs
unfolding read_all total
read_all-counts [] p = omega arith
read_all-counts (r ∷ rs) p = omega (arith, read_all-counts rs (read r p), read-counts r p)

-- Over any reads, the reports rise, and the last is of no more bytes than have come.
pub read_all-Rising : (rs : List Read) (p : ProgressReader) → Rising p → Rising (read_all rs p)
unfolding read_all
read_all-Rising [] p h = h
read_all-Rising (r ∷ rs) p h = read_all-Rising rs (read r p) (read-Rising r p h)
