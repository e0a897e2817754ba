-- ===== src/Executor/Reports.antt =====
-- What the reports of internal/executor/executor.go say of a job.
use executr.Prelude.{
  ◌≡◌, ◌↔◌, ◌⊎◌, refl, inl, inr, pos, negsuc, zero, suc, Bool, true, false, Option, none, some,
  Bytes, arith, is_empty,
}
use Prim.Native.String
use Prim.Native.String.append
use Prim.Native.String.compare
use Prim.Native.Nat.{Ordering}
use Prim.Native.String.{String, ◌++◌ as append}
use mathlib.Core.Path.{subst}
use executr.Models.{UuidNumber, Job}
use executr.Executor.Cache.{BinaryCache, World, Binary, ready, fault, get_binary}
use executr.Executor.Runner.{
  Host, Exit, success, exit_error, other_error, JobResult, execute, command, runner, fail, not_run,
  report, with_binary, in_directory, execute_job, exit_code_of, is_zero,
}
use executr.Client.Calls.{Call, complete_job, fail_job}
use executr.Client.Contract.{IsFull}

-- The job that a report is on, and whether it says that the job has completed.
abbrev pub IsReportOn : UuidNumber → Call → Type 0
IsReportOn i (complete_job k r) = k ≡ i
IsReportOn i (fail_job k r) = k ≡ i
IsReportOn i _ = ⊥

abbrev pub is_completion : Call → Bool
is_completion (complete_job k r) = true
is_completion _ = false

not_empty : (s t : String) → is_empty s ≡ false → is_empty (append s t) ≡ false
not_empty String.[] t h = cc
not_empty (String.◌∷◌ c s) t h =
    let split : append (String.◌∷◌ c s) t ≡ String.◌∷◌ c (append s t) = λ i. append.cons c s t i in
    let greater : String.compare (String.◌∷◌ c (append s t)) "" ≡ Ordering.gt =
      λ i. compare.cons-nil c (append s t) i in
    rw (split, greater) refl

-- Exactly one report on a job, which the server does not refuse for a missing field, and which is a
-- completion exactly under a condition.
abbrev pub Reported : UuidNumber → Type 0 → Option Call → Type 0
Reported i S o =
    (call : Call) × (o ≡ some call)
    × IsReportOn i call
    × IsFull call
    × ((is_completion call ≡ true) ↔ S)

abbrev pub ExitsZero : Exit → Type 0
ExitsZero e = (e ≡ success) ⊎ (e ≡ exit_error (pos 0))

exit-cases :
    (e : Exit)
    → (ExitsZero e × (exit_code_of e ≡ pos 0))
      ⊎ ((ExitsZero e → ⊥) × (is_zero (exit_code_of e) ≡ false))
exit-cases success = inl (inl refl, refl)
exit-cases (exit_error (pos zero)) = inl (inr refl, refl)
exit-cases (exit_error (pos (suc n))) =
    inr ((λ z. elim z [ inl h ↦ cc | inr h ↦ ground (arith, h) ]), ground arith)
exit-cases (exit_error (negsuc n)) = inr ((λ z. elim z [ inl h ↦ cc | inr h ↦ cc ]), refl)
exit-cases (other_error t) = inr ((λ z. elim z [ inl h ↦ cc | inr h ↦ cc ]), refl)

module _ (host : Host) where
  -- The job runs from this binary and exits with 0.
  abbrev pub RunsFrom : Job → Binary → Type 0
  RunsFrom j b =
      (path : String) × (b ≡ ready path) × ExitsZero (host.run (command (runner host j path))).exit

  -- The directory is made, the binary is obtained, and the job exits with 0.
  abbrev pub Succeeds :
      (Bytes → String) → (String → String) → World → Job → BinaryCache → Option String → Type 0
  Succeeds hash join w j c made =
      (made ≡ none) × RunsFrom j (get_binary hash join w j.binary_sha256 c).1

module _ (host : Host) (known : is_empty host.executor_id ≡ false) where
  completion-Reported :
      (i : UuidNumber) (S : Type 0) (r : JobResult)
      → r.exit_code ≡ pos 0
      → S
      → Reported i S (some (report host i r))
  completion-Reported i S r zero_code s =
      rw zero_code (_, refl, refl, known, ((λ e. s), (λ e. refl)))

  failure-Reported :
      (i : UuidNumber) (S : Type 0) (r : JobResult)
      → is_zero r.exit_code ≡ false
      → (S → ⊥)
      → Reported i S (some (report host i r))
  failure-Reported i S r code not_s =
      rw code (_, refl, refl, (known, refl), ((λ e. cc), (λ s. absurd (not_s s))))

  not_run-Reported :
      (i : UuidNumber) (S : Type 0) (stderr : String)
      → host.parse (host.render i) ≡ some i
      → is_empty stderr ≡ false
      → (S → ⊥)
      → Reported i S (fail host (host.render i) (not_run host stderr))
  not_run-Reported i S stderr read full not_s =
      rw read (_, refl, refl, (known, full), ((λ e. cc), (λ s. absurd (not_s s))))

  ran-Reported :
      (j : Job) (path : String)
      → Reported j.id
          (RunsFrom host j (ready path))
          (some (report host j.id (execute host (runner host j path))))
  ran-Reported j path =
      let e : Exit = (host.run (command (runner host j path))).exit in
      elim (exit-cases e) [
        | inl (exits, code) ↦
            completion-Reported j.id (RunsFrom host j (ready path))
              (execute host (runner host j path)) code (path, refl, exits)
        | inr (fails, code) ↦
            failure-Reported j.id (RunsFrom host j (ready path)) (execute host (runner host j path))
              code
              (λ s. fails (
                subst (λ p. ExitsZero (host.run (command (runner host j p))).exit)
                  (same_path s.0 s.1) s.2))
      ]
    where
      same_path : (p : String) → ready path ≡ ready p → p ≡ path
      same_path p h = cc

  binary-Reported :
      (j : Job) (p : BinaryCache × Binary)
      → host.parse (host.render j.id) ≡ some j.id
      → Reported j.id (RunsFrom host j p.1) (with_binary host j p).1
  binary-Reported j (c, fault f) read =
      not_run-Reported j.id (RunsFrom host j (fault f)) _ read
        (not_empty "Failed to get binary: " (host.fault_text f) refl) (λ s. no_path s.0 s.1)
    where
      no_path : (path : String) → fault f ≡ ready path → ⊥
      no_path path h = cc
  binary-Reported j (c, ready path) read = ran-Reported j path

  directory-Reported :
      (hash : Bytes → String) (join : String → String) (w : World) (j : Job) (c : BinaryCache)
      (made : Option String)
      → host.parse (host.render j.id) ≡ some j.id
      → Reported j.id
          (Succeeds host hash join w j c made)
          (in_directory host hash join w j c made).1
  directory-Reported hash join w j c (some e) read =
      not_run-Reported j.id (Succeeds host hash join w j c (some e)) _ read
        (not_empty "Failed to create job directory: " e refl) (λ s. not_made s.0)
    where
      not_made : some e ≡ none → ⊥
      not_made h = cc
  directory-Reported hash join w j c none read =
      let (call, sent, on, full, iff) =
        binary-Reported j (get_binary hash join w j.binary_sha256 c) read in
      (call, sent, on, full, ((λ h. (refl, iff.0 h)), (λ s. iff.1 s.1)))

-- Of an executor with a name, on a job whose identifier is read as it is written, exactly one
-- report is sent. It is on this job, has the fields that the server requires, and says that the
-- job has completed exactly where the directory is made, the cache answers with a binary, and the
-- command that runs this binary with the job's arguments and environment exits with 0.
pub execute_job-Reported :
    (host : Host) (hash : Bytes → String) (join : String → String) (w : World) (j : Job)
    (c : BinaryCache) (known : is_empty host.executor_id ≡ false)
    → host.parse (host.render j.id) ≡ some j.id
    → Reported j.id
        (Succeeds host hash join w j c (host.mkdir (host.job_dir j.id)))
        (execute_job host hash join w j c).1
unfolding execute_job
execute_job-Reported host hash join w j c known read =
    directory-Reported host known hash join w j c (host.mkdir (host.job_dir j.id)) read
