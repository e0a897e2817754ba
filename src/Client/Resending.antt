-- ===== src/Client/Resending.antt =====
-- A call of pkg/client/client.go with the retries of internal/utils/http.go keeps the contract.
use executr.Prelude.{ℕ, zero, suc, ◌≡◌, ap, Bool, if◌then◌else◌}
use executr.Store.Row.{Tables, Context}
use executr.Server.Routing.{Codec}
use executr.Client.Calls.{Call, Encoder, Decoder}
use executr.Client.Contract.{ReadsJobs, IsRead, IsFull}
use executr.Client.Remote.{Graded, exchanges}
use executr.Client.Sending.{answered, request_failed, has_body, send_from, on_store_from}

pub send_from-on_store :
    (codec : Codec) (encoder : Encoder) (decoder : Decoder) (call : Call)
    (cs : ℕ → Context × Context) (ends : ℕ → Bool) (left i : ℕ) (t : Tables)
    → ReadsJobs decoder
    → IsRead codec encoder call
    → IsFull call
    → send_from call cs ends codec encoder decoder left i t
      ≡ on_store_from call cs ends codec.env left i t
unfolding send_from on_store_from
send_from-on_store codec encoder decoder call cs ends zero i t a read full =
    let e = exchanges codec encoder decoder a call (cs i).0 (cs i).1 t read full in
    rw (e.sent) (ap (λ (x : Graded). (x.0, answered x.1.0)) e.same)
send_from-on_store codec encoder decoder call cs ends (suc left) i t a read full =
    let e = exchanges codec encoder decoder a call (cs i).0 (cs i).1 t read full in
    let ih : (t' : Tables)
        → send_from call cs ends codec encoder decoder left (suc i) t'
          ≡ on_store_from call cs ends codec.env left (suc i) t' =
      λ t'. send_from-on_store codec encoder decoder call cs ends left (suc i) t' a read full in
    rw (e.sent, ih e.reply.0)
      (ap
        (λ (x : Graded).
          if x.1.1
          then (if ends i
              then (x.0, request_failed)
              else if has_body call
              then (x.0, request_failed)
              else on_store_from call cs ends codec.env left (suc i) x.0)
          else (x.0, answered x.1.0))
        e.same)
