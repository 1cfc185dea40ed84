-- ===== src/Tests/Intake.antt =====
-- The theorems on what the event loop reads from Kafka, at concrete inputs.
use microservice_diagnosis.Prelude.{
  ◌+◌, List, ℕ, ◌==◌, pos, String, true, false, none, some, [], ◌∷◌, if◌then◌else◌, str_eq, inl,
  ◌≢◌, ◌↔◌, refl, arith,
}
use microservice_diagnosis.Store.World.{World}
use microservice_diagnosis.Bus.Consumer.{Message}
use microservice_diagnosis.Server.Backlog.{Client, partitions_of, skip_backlog_fast}
use microservice_diagnosis.Server.Backlog.Moves.{IsBehind, skip_backlog_fast_iff}
use microservice_diagnosis.Server.Backlog.Retries.{Repositions, skip_backlog_fast-Repositions}
use microservice_diagnosis.Server.FanIn.{
  Outside, started, set, first_backoff, fetch, fetching, sending, forward, take, here, next,
  main_loop,
}
use microservice_diagnosis.Server.FanIn.Redelivery.{is_at}
use microservice_diagnosis.Server.FanIn.Order.{IsSound, Reach-IsSound}
use microservice_diagnosis.Server.Evidence.{codes}
use microservice_diagnosis.Server.EventLoop.{wired}
use microservice_diagnosis.Store.SessionDao
use microservice_diagnosis.Tests.Scenario.{quiet, world_in}
use microservice_diagnosis.Store.Rows.{created}

-- A group that has committed the offset 5 of a partition that ends at 20000; the first commit of
-- the tail fails.
abbrev client : Client
client = record {
  metadata = some (("mfdh.observations.log", 0 ∷ []) ∷ []);
  consumer_offsets = λ group topic. some ((0, pos 5) ∷ []);
  list_offsets =
      λ topic ps. some (record { partition = 0; failed = false; last_offset = 20000 } ∷ []);
  offset_commit = λ n r. some ((n == 0) ∷ []);
  ticks = 110;
}

client-IsBehind : IsBehind client "mfdh-orchestrator-observations.log" "mfdh.observations.log" 0
unfolding partitions_of
client-IsBehind = record {
  topics = ("mfdh.observations.log", 0 ∷ []) ∷ [];
  offsets = (0, pos 5) ∷ [];
  latest = record { partition = 0; failed = false; last_offset = 20000 } ∷ [];
  described = refl;
  has_partitions = λ e. ground arith;
  fetched = refl;
  listed = refl;
  read = (refl, tt);
  committed = (λ e. ground arith, tt);
  behind = inl (omega arith);
}

skip_example :
    ((skip_backlog_fast client "mfdh-orchestrator-observations.log" "mfdh.observations.log" 0).1
      ≢ [])
    ↔ IsBehind client "mfdh-orchestrator-observations.log" "mfdh.observations.log" 0
skip_example =
    skip_backlog_fast_iff client "mfdh-orchestrator-observations.log" "mfdh.observations.log" 0

reposition_example :
    Repositions client "mfdh-orchestrator-observations.log" "mfdh.observations.log" 0
      (skip_backlog_fast client "mfdh-orchestrator-observations.log" "mfdh.observations.log" 0)
reposition_example =
    skip_backlog_fast-Repositions client "mfdh-orchestrator-observations.log"
      "mfdh.observations.log" 0 client-IsBehind

-- The payload "lost" is about a session that cannot be read, and any other has none.
abbrev outside : Outside
outside = record {
  env = record quiet { fault = λ n. n == 0 };
  wiring = wired quiet;
  unmarshal = λ v.
      if str_eq v "lost"
      then some (record { session_id = "1"; type_name = codes "LOG"; target_service = "orders" })
      else none;
  parse = λ s. some 1;
  commits = λ cs m. true;
}

abbrev observation_at : ℕ → String → Message
observation_at n v = record {
  topic = "mfdh.observations.log";
  partition = 0;
  offset = n;
  value = v;
}

abbrev idle : World
idle = world_in created []

fan_in_example : IsSound outside idle (record (started idle) {
  readers =
      set "mfdh.observations.log" (fetching first_backoff) (
        set "mfdh.observations.log" (sending (observation_at 7 "x")) (λ t. fetching first_backoff));
  fetched = observation_at 7 "x" ∷ [];
  taken = observation_at 7 "x" ∷ [];
  done = main_loop outside (observation_at 7 "x" ∷ []) (idle, []);
})
fan_in_example = Reach-IsSound outside idle (
    next
      (next (next here (fetch (started idle) (observation_at 7 "x") 500 refl refl))
        (forward _ (observation_at 7 "x") refl (omega arith)))
      (take _ (observation_at 7 "x") [] refl refl))

-- Behind the last commit of the partition, or at its start.
abbrev resume_from : ℕ → List Message → String → ℕ → ℕ
resume_from n [] topic p = n
resume_from n (m ∷ ms) topic p =
    resume_from (if is_at topic p m then m.offset + 1 else n) ms topic p
