-- ===== src/Server/EventLoop/Commit.antt =====
-- When the offset of a message is committed.
use microservice_diagnosis.Prelude.{String, true, false, Option, some, ◌≡◌, ◌↔◌, refl, str_eq}
use microservice_diagnosis.Store.Rows.{Uuid}
use microservice_diagnosis.Store.World.{World, Env, Result, ok, err}
use microservice_diagnosis.Server.Evidence.{ObservationPayload}
use microservice_diagnosis.Server.EventLoop.{Wiring, commits, handle_observation, process_message}

commits_of : (r : Result (Unit {0})) (w : World) → ((commits r w).0 ≡ ok true) ↔ (r ≡ ok tt)
commits_of (ok tt) w = (λ h. refl, λ h. refl)
commits_of (err x) w = (λ h. cc, λ h. cc)

-- The offset of a message whose session id is not empty and parses is committed exactly when the
-- handler of the message has returned no error.
pub process_message-commits :
    (env : Env) (wiring : Wiring) (parse : String → Option Uuid) (obs : ObservationPayload)
    (id : Uuid) (w : World)
    → str_eq obs.session_id "" ≡ false
    → parse obs.session_id ≡ some id
    → ((process_message env wiring parse (some obs) w).0 ≡ ok true)
      ↔ ((handle_observation env wiring id obs w).0 ≡ ok tt)
unfolding process_message
process_message-commits env wiring parse obs id w named parsed =
    rw (named, parsed)
      (commits_of (handle_observation env wiring id obs w).0
        (handle_observation env wiring id obs w).1)
