-- ===== src/Store/SessionEventDao.antt =====
-- internal/store/session_event.go: the timeline of a session.
use microservice_diagnosis.Prelude.{
  String, Bool, not, ◌&&◌, List, [], ◌∷◌, ◌++◌, any, filter, ◌==◌, leb, sort_by,
}
use microservice_diagnosis.Store.Rows.{Uuid, Status, SessionEvent}
use microservice_diagnosis.Store.World.{World, Env, M, insert, query}
use microservice_diagnosis.Store.SessionDao.{has_session_id}

-- The primary key and the foreign key.
abbrev pub event_allowed : SessionEvent → World → Bool
event_allowed ev w =
    not (any (λ e. e.id == ev.id) w.events) && any (has_session_id ev.session_id) w.sessions

create : Env → SessionEvent → M Unit
unfolding insert
create env ev = insert env (event_allowed ev) (λ w. record w { events = w.events ++ ev ∷ [] })

abbrev pub new_event : Env → Uuid → Status → Status → String → World → SessionEvent
new_event env session_id from_status to_status source w = record {
  id = env.new_uuid w.tick;
  session_id = session_id;
  event_type = "state_changed";
  source = source;
  from_status = from_status;
  to_status = to_status;
  timestamp = env.clock w.tick;
}

unfoldable pub log_state_transition : Env → Uuid → Status → Status → String → M Unit
unfolding create
log_state_transition env session_id from_status to_status source w =
    create env (new_event env session_id from_status to_status source w) w

abbrev pub event_in : Uuid → SessionEvent → Bool
event_in id ev = ev.session_id == id

-- ORDER BY timestamp.
abbrev pub order_events : List SessionEvent → List SessionEvent
order_events evs = sort_by (λ a b. leb a.timestamp b.timestamp) evs

unfoldable pub get_by_session_id : Env → Uuid → M (List SessionEvent)
get_by_session_id env id = query env (λ w. order_events (filter (event_in id) w.events))
