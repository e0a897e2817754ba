-- ===== src/Server/Ready.antt =====
-- When the server of internal/server/server.go says that it is ready.
use executr.Prelude.{
  ℕ, zero, suc, ◌≡◌, refl, ℤ, pos, negsuc, Bool, true, false, ◌&&◌, Option, none, some, Bool-cases,
  inl, inr,
}
use executr.Server.Startup.{
  Stop, context_done, serve_failed, Platform, Fault, Server, new_server, Ran, panicked, returned,
  connect_db, run_migrations, ends, listen_on, listen, start_workers, migrated_run, connected_run,
  run_server,
}

-- Whether a part of the start has failed.
abbrev pub is_none : Option Fault → Bool
is_none none = true
is_none (some f) = false

module _ (p : Platform) (cleanup_interval port : ℤ) where
  abbrev ReadyIf : Bool → Ran → Type 0
  ReadyIf b panicked = b ≡ true
  ReadyIf b (returned f s) = s.ready ≡ b

  ends-ReadyIf : (x : Stop) (s : Server) → s.ready ≡ true → ReadyIf true (ends p x s)
  ends-ReadyIf (context_done true) s h = h
  ends-ReadyIf (context_done false) s h = h
  ends-ReadyIf serve_failed s h = h

  listen-ReadyIf : (n : ℤ) (s : Server) → ReadyIf true (listen p n s)
  listen-ReadyIf (pos zero) s = on p.listener
    where
      on : (o : Option ℕ) → ReadyIf true (listen_on p o s)
      on none = refl
      on (some n) = ends-ReadyIf p.stop (record s { port = pos n; ready = true }) refl
  listen-ReadyIf (pos (suc n)) s =
      ends-ReadyIf p.stop (record s { port = pos (suc n); ready = true }) refl
  listen-ReadyIf (negsuc n) s =
      ends-ReadyIf p.stop (record s { port = negsuc n; ready = true }) refl

  migrated-ReadyIf :
      (o : Option Fault) (s : Server)
      → s.ready ≡ false
      → ReadyIf (is_none o) (migrated_run p cleanup_interval port o s)
  migrated-ReadyIf (some f) s h = h
  migrated-ReadyIf none s h = elim (Bool-cases (start_workers p cleanup_interval)) [
    | inl e ↦ simp (e) (listen-ReadyIf port s)
    | inr e ↦ simp (e) refl
  ]

  connected-ReadyIf :
      (o : Option Fault) (s : Server)
      → s.ready ≡ false
      → ReadyIf
          (is_none o && is_none (run_migrations p))
          (connected_run p cleanup_interval port o s)
  connected-ReadyIf (some f) s h = h
  connected-ReadyIf none s h = migrated-ReadyIf (run_migrations p) (record s { connected = true }) h

  -- Whoever waits for the server goes on, while the program runs, exactly where the database has
  -- been reached and migrated: a start that fails before that never closes the channel.
  pub run_server-ReadyIf :
      ReadyIf
        (is_none (connect_db p) && is_none (run_migrations p))
        (run_server p cleanup_interval port)
  unfolding run_server
  run_server-ReadyIf = connected-ReadyIf (connect_db p) new_server refl
