-- ===== src/Cli/Starting.antt =====
-- When the command `executor` of cmd/executr/main.go ends in a panic.
use executr.Prelude.{
  Bytes, ascii, bytes_eq, ℕ, zero, suc, ◌/◌, ℤ, pos, negsuc, ◌≡◌, ◌||◌, inl, inr, refl, sym, true,
  false, Bool, some, arith, ltb, Bool-cases, length, take, ◌+◌, ◌*◌, ◌==◌,
}
use mathlib.Core.Path.{subst}
use executr.Executor.Start.{
  Machine, Started, panicked, running, start, Fault, no_work_dir, ◌>>=◌, new_executor, expand_home,
  new_binary_cache, new_channel, new_ticker, made, Config,
}
use executr.Cli.Config.{ExecutorFlags, executor_config, executor_command, seconds, minus}

-- The home directory is known, and directories can be made.
abbrev pub IsReady : Machine → Type 0
IsReady m = ((h : Bytes) × (m.home ≡ some h)) × ((d : Bytes) → m.mkdir d ≡ true)

abbrev pub is_negative : ℤ → Bool
is_negative (pos n) = false
is_negative (negsuc n) = true

-- Less than a second.
abbrev pub is_short : ℤ → Bool
is_short (pos n) = ltb n 1000000000
is_short (negsuc n) = true

-- A panic where the test holds, and otherwise a start.
abbrev pub PanicsIf {ℓ} : {A : Type ℓ} → Bool → Started A → Type ℓ
PanicsIf true s = s ≡ panicked
PanicsIf {A} false s = (a : A) × (s ≡ running a)

bind-PanicsIf {ℓ κ} :
    {A : Type ℓ} {B : Type κ} (b c : Bool) (s : Started A) (f : A → Started B)
    → PanicsIf b s
    → ((a : A) → s ≡ running a → PanicsIf c (f a))
    → PanicsIf (b || c) (s >>= f)
bind-PanicsIf true c s f p q = rw p refl
bind-PanicsIf false c s f (a, p) q = subst (λ x. PanicsIf c (x >>= f)) (sym p) (q a p)

positive : (n : ℕ) → (suc n == 0) ≡ false
positive n = ground arith

ticks : (n : ℕ) → PanicsIf (n == 0) (new_ticker (pos n))
ticks zero = refl
ticks (suc n) = rw (positive n) (suc n * 1000000000, refl)

short_seconds : (n : ℕ) → (n / 1000000000 == 0) ≡ ltb n 1000000000
short_seconds n = ground arith

negative_ticks : (n : ℕ) → new_ticker (minus n) ≡ panicked
negative_ticks zero = refl
negative_ticks (suc n) = rw (positive n) refl

ticker-PanicsIf : (d : ℤ) → PanicsIf (is_short d) (new_ticker (seconds d))
unfolding seconds
ticker-PanicsIf (pos n) =
    subst (λ b. PanicsIf b (new_ticker (pos (n / 1000000000)))) (short_seconds n)
      (ticks (n / 1000000000))
ticker-PanicsIf (negsuc n) = negative_ticks ((n + 1) / 1000000000)

-- The last step, after which nothing can fail.
then-PanicsIf {ℓ κ} :
    {A : Type ℓ} {B : Type κ} (b : Bool) (s : Started A) (g : A → B)
    → PanicsIf b s
    → PanicsIf b (s >>= λ a. running (g a))
then-PanicsIf true s g p = rw p refl
then-PanicsIf false s g (a, p) = rw p (g a, refl)

channel-PanicsIf : (m : Machine) (n : ℤ) → PanicsIf (is_negative n) (new_channel m n)
channel-PanicsIf m (pos n) = (n, refl)
channel-PanicsIf m (negsuc n) = refl

home-PanicsIf :
    (m : Machine) (dir : Bytes) → IsReady m → PanicsIf (ltb (length dir) 2) (expand_home m dir)
unfolding expand_home
home-PanicsIf m dir ((h, known), dirs) = elim (Bool-cases (ltb (length dir) 2)) [
  | inl short ↦ rw short refl
  | inr long ↦ elim (Bool-cases (bytes_eq (take 2 dir) (ascii "~/"))) [
    | inl tilde ↦ rw (long, tilde, known) (_, refl)
    | inr other ↦ rw (long, other) (_, refl)
  ]
]

cache-PanicsIf :
    (m : Machine) (dir : Bytes) (size : ℕ)
    → IsReady m
    → PanicsIf false (new_binary_cache m dir size)
unfolding new_binary_cache
cache-PanicsIf m dir size (home, dirs) = rw (dirs dir) (_, refl)

made-PanicsIf :
    (m : Machine) (dir : Bytes) (f : Fault) → IsReady m → PanicsIf false (made m (m.mkdir dir) f)
made-PanicsIf m dir f (home, dirs) = rw (dirs dir) (tt, refl)

new_executor-PanicsIf :
    (m : Machine) (cfg : Config)
    → IsReady m
    → PanicsIf (ltb (length cfg.cache_dir) 2 || is_negative cfg.max_jobs) (new_executor m cfg)
unfolding new_executor
new_executor-PanicsIf m cfg ready =
    bind-PanicsIf (ltb (length cfg.cache_dir) 2) (is_negative cfg.max_jobs)
      (expand_home m cfg.cache_dir) _ (home-PanicsIf m cfg.cache_dir ready)
      λ dir e.
        bind-PanicsIf false (is_negative cfg.max_jobs) (new_binary_cache m dir cfg.max_cache_size) _
          (cache-PanicsIf m dir cfg.max_cache_size ready)
          λ cache e'.
            bind-PanicsIf false (is_negative cfg.max_jobs)
              (made m (m.mkdir cfg.work_dir) no_work_dir) _
              (made-PanicsIf m cfg.work_dir no_work_dir ready)
              λ done e''.
                then-PanicsIf (is_negative cfg.max_jobs) (new_channel m cfg.max_jobs) _
                  (channel-PanicsIf m cfg.max_jobs)

-- On a machine whose home directory is known and where directories can be made, the command
-- panics where the cache directory is shorter than two bytes, the number of jobs is negative, or
-- the interval between polls is below a second; in every other case the executor starts to poll.
pub executor_command-PanicsIf :
    (m : Machine) (f : ExecutorFlags)
    → IsReady m
    → PanicsIf
        ((ltb (length f.cache_dir) 2 || is_negative f.max_jobs) || is_short f.poll_interval)
        (executor_command m f)
unfolding executor_command start
executor_command-PanicsIf m f ready =
    bind-PanicsIf (ltb (length f.cache_dir) 2 || is_negative f.max_jobs) (is_short f.poll_interval)
      (new_executor m (executor_config f)) _ (new_executor-PanicsIf m (executor_config f) ready)
      λ e made.
        then-PanicsIf (is_short f.poll_interval) (new_ticker (seconds f.poll_interval)) _
          (ticker-PanicsIf f.poll_interval)
