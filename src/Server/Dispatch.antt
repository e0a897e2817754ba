-- ===== src/Server/Dispatch.antt =====
-- What the routing of internal/server/server.go guarantees: which paths panic, that every request
-- is safe, and that the path of a job's operation reaches its handler.
use executr.Prelude.{
  ◌≡◌, ◌<◌, ◌+◌, ◌↔◌, ◌⊎◌, refl, inr, inl, Bool, true, false, ltb, leb, Option, none, some, [],
  ◌++◌, length, take, drop, Bytes, ascii, bytes_eq, drop-front, arith, Bool-cases, if◌then◌else◌,
  length-append,
}
use executr.Models.{UuidNumber}
use executr.Store.Row.{Tables, Context}
use executr.Lifecycle.Tables.{IsValid}
use executr.Server.Http.{Method, Response}
use executr.Server.Safety.{Call, handle, handle-Effect}
use executr.Server.Effects.{Effect, nothing, Effect-IsValid, Effect-error}
use executr.Server.Routing.{
  Codec, Request, Endpoint, jobs, job_by_id, claim, jobs_prefix, handle_jobs, handle_job_by_id,
  job_resource, only_put, sub_path, parsed, id_part, serve,
}

-- A response to a request, if there is one, belongs to tables in order, and is a success or has
-- changed nothing.
abbrev pub SafeAnswer : Tables → Option (Tables × Response) → Type 0
SafeAnswer t none = Unit {0}
SafeAnswer t (some (t', r)) = IsValid t' × ((r.status < 400) ⊎ (t' ≡ t))

-- What a handler may do to the tables, where it does not panic.
abbrev pub EffectIf : Tables → Option (Tables × Response) → Type 0
EffectIf t none = Unit {0}
EffectIf t (some p) = Effect t p

module _ (codec : Codec) (c c' : Context) (t : Tables) (v : IsValid t) where
  handled : (call : Call) → Effect t (handle codec.env call c c' t)
  handled call = handle-Effect codec.env call c c' t v

  if-Effect :
      (b : Bool) (p q : Tables × Response) → Effect t p → Effect t q → Effect t (if b then p else q)
  if-Effect true p q hp hq = hp
  if-Effect false p q hp hq = hq

  resource-Effect : (i : UuidNumber) (m : Method) → Effect t (job_resource codec i m c c' t)
  resource-Effect i Method.get = nothing _
  resource-Effect i Method.delete = unfold handle in handled (Call.cancel i)
  resource-Effect i _ = nothing _

  put-Effect : (m : Method) (p : Tables × Response) → Effect t p → Effect t (only_put codec m t p)
  put-Effect Method.put p h = h
  put-Effect _ p h = nothing _

  sub_path-Effect :
      (i : UuidNumber) (rest : Bytes) (r : Request) → Effect t (sub_path codec i rest r c c' t)
  unfolding handle
  sub_path-Effect i rest r = if-Effect (bytes_eq rest []) _ _ (resource-Effect i r.method) (
      if-Effect (bytes_eq rest (ascii "/")) _ _ (resource-Effect i r.method) (
        if-Effect (bytes_eq rest (ascii "/heartbeat")) _ _
          (put-Effect r.method _ (handled (Call.heartbeat i (codec.decode_heartbeat r.body))))
          (if-Effect (bytes_eq rest (ascii "/complete")) _ _
            (put-Effect r.method _ (handled (Call.complete i (codec.decode_complete r.body))))
            (if-Effect (bytes_eq rest (ascii "/fail")) _ _
              (put-Effect r.method _ (handled (Call.fail i (codec.decode_fail r.body))))
              (nothing _)))))

  parsed-Effect :
      (o : Option UuidNumber) (id_str : Bytes) (r : Request)
      → Effect t (parsed codec o id_str r c c' t)
  parsed-Effect none id_str r = nothing _
  parsed-Effect (some i) id_str r = sub_path-Effect i (drop 36 id_str) r

  id_part-Effect : (id_str : Bytes) (r : Request) → EffectIf t (id_part codec id_str r c c' t)
  id_part-Effect id_str r = elim (Bool-cases (bytes_eq id_str (ascii "claim"))) [
    | inl e ↦ rw e (unfold handle in handled (Call.claim r.method (codec.decode_claim r.body)))
    | inr e ↦ elim (Bool-cases (ltb (length id_str) 36)) [
      | inl short ↦ rw (e, short) tt
      | inr long ↦ rw (e, long) (parsed-Effect (codec.parse_uuid (take 36 id_str)) id_str r)
    ]
  ]

  by_id-Effect : (r : Request) → EffectIf t (handle_job_by_id codec r c c' t)
  unfolding handle_job_by_id
  by_id-Effect r = elim (Bool-cases (leb (length r.path) (length jobs_prefix))) [
    | inl short ↦ rw short (nothing _)
    | inr long ↦ rw long (id_part-Effect (drop (length jobs_prefix) r.path) r)
  ]

  jobs-Effect : (r : Request) (m : Method) → r.method ≡ m → Effect t (handle_jobs codec r c t)
  unfolding handle_jobs handle
  jobs-Effect r Method.post e = rw e (handled (Call.submit (codec.decode_submission r.body)))
  jobs-Effect r Method.get e = rw e (nothing _)
  jobs-Effect r Method.put e = rw e (nothing _)
  jobs-Effect r Method.delete e = rw e (nothing _)
  jobs-Effect r Method.other e = rw e (nothing _)

  -- A request to the jobs API panics, does nothing to the tables, or answers below 400 and has run
  -- one or two statements.
  pub serve-Effect : (e : Endpoint) (r : Request) → EffectIf t (serve codec e r c c' t)
  unfolding serve
  serve-Effect jobs r = jobs-Effect r r.method refl
  serve-Effect job_by_id r = by_id-Effect r
  serve-Effect claim r = unfold handle in handled (Call.claim r.method (codec.decode_claim r.body))

  Effect-Safe : (o : Option (Tables × Response)) → EffectIf t o → SafeAnswer t o
  Effect-Safe none h = tt
  Effect-Safe (some p) h = (Effect-IsValid h v, Effect-error h)

-- Whatever the method, the path and the body of a request to the jobs API, the response, if there
-- is one, comes with tables that satisfy the invariant where the tables before did, and has a
-- status below 400 or has changed nothing.
pub serve_safe :
    (codec : Codec) (e : Endpoint) (r : Request) (c c' : Context) (t : Tables)
    → IsValid t
    → SafeAnswer t (serve codec e r c c' t)
serve_safe codec e r c c' t v =
    Effect-Safe codec c c' t v (serve codec e r c c' t) (serve-Effect codec c c' t v e r)

-- handleJobByID, given a path below that of the jobs, panics exactly where what follows is neither
-- empty nor "claim" and is shorter than a UUID. (The paths of the bulk operations are not given to it:
-- setupRoutes has patterns of their own for them.)
pub panics :
    (codec : Codec) (r : Request) (rest : Bytes) (c c' : Context) (t : Tables)
    → r.path ≡ jobs_prefix ++ rest
    → (serve codec job_by_id r c c' t ≡ none)
      ↔ ((0 < length rest) × (length rest < 36) × (bytes_eq rest (ascii "claim") ≡ false))
unfolding serve handle_job_by_id
panics codec r rest c c' t path =
    let longer : length r.path ≡ 13 + length rest = rw path (length-append jobs_prefix rest) in
    let after : drop (length jobs_prefix) r.path ≡ rest = rw path (drop-front jobs_prefix rest) in
    rw after (ground (arith, longer))
