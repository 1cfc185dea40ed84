-- ===== src/Tests/Wiring.antt =====
-- The theorems on the transport's codecs, the registries, the start of the processes and the toolchain
-- at concrete inputs.
use microservice_diagnosis.Prelude.{
  String, any, ◌≡◌, refl, false, true, some, none, List, [], ◌∷◌, pos, inr, find?, if◌then◌else◌,
  All, ◌++◌, ◌==◌,
}
use microservice_diagnosis.Prelude.Dict.{lookup, insert}
use microservice_diagnosis.Store.Rows.{FixAction, Risk, Status}
use microservice_diagnosis.Store.World.{World}
use microservice_diagnosis.Store.FixActionDao.{has_fix_id, upsert, upsert_as}
use microservice_diagnosis.Store.FixActionDao.Upserts.{merged, rows_with, upsert_lem}
use microservice_diagnosis.Agent.Observation.{Observation, Severity, EvidenceType, within, validate}
use microservice_diagnosis.Agent.Observation.Contract.{IsValid}
use microservice_diagnosis.Agent.Observation.Codec.{
  Codec, IsLossless, observation_message, decode_observation, envelope_of,
}
use microservice_diagnosis.Agent.Observation.Codec.RoundTrip.{
  IsRouted, read_back, decode_observation-observation_message,
}
use microservice_diagnosis.Agent.Start.{new_agent}
use microservice_diagnosis.Agent.Start.Topology.{
  surviving, collect_commands, dispatch-IsRouted, IsRouted as IsRoutedTo,
}
use microservice_diagnosis.Tests.Scenario.{quiet, busy, restart, world_in}
use microservice_diagnosis.Agent.Fix.{FixAgent, handle}
use microservice_diagnosis.Agent.Fix.Detached.{handle_detached}
use microservice_diagnosis.Server.Dispatch.{dispatch_collect, dispatch_analyze, analyze_command}
use microservice_diagnosis.Discovery.{ServiceInstance, Operation, has_id, named, recorded}
use microservice_diagnosis.Discovery.MockRegistry
use microservice_diagnosis.Discovery.MockRegistry.History.{found-recorded}
use microservice_diagnosis.Discovery.Consul.{discover, discover_only}
use microservice_diagnosis.Discovery.Consul.RoundTrip.{entries_of, shown, discover-register}
use microservice_diagnosis.Bootstrap.{Options, Outside, run, signalled}
use microservice_diagnosis.Bootstrap.Teardown.{Settles, tally, run-Settles}
use microservice_diagnosis.Genproto
use microservice_diagnosis.Genproto.{
  Bin, bootstrap, plugin_defs, ensure_protoc, ensure_plugins, ensure_each,
}
use microservice_diagnosis.Genproto.Plugins.{IsTable}
use microservice_diagnosis.Genproto.Toolchain.{bootstrap_twice}
use microservice_diagnosis.Genproto.Archive.{FileSystem, Entry, IsInside, unzip, unzip-IsInside}

abbrev observation : Observation
observation = record {
  id = "o-1";
  session_id = "s-1";
  source = "agent-log";
  type = EvidenceType.log_evidence;
  sub_type = "log_pattern";
  confidence = within 0;
  severity = Severity.warn;
  target_service = "checkout";
  timestamp = some 7;
  schema_version = pos 1;
  fix_action_id = none;
  correlations = [];
  detail_json = "{}";
  labels = [];
}

-- A codec that knows one observation.
abbrev codec : Codec
codec = record { marshal = λ o. some "bytes"; unmarshal = λ text. some observation }

codec-IsLossless : IsLossless codec observation
codec-IsLossless = record { unmarshal-marshal = λ text h. refl }

decode_example :
    IsValid observation
    × (decode_observation codec (read_back (envelope_of observation "bytes") "mfdh.events" 2 9)
        ≡ inr observation)
    × IsRouted observation (read_back (envelope_of observation "bytes") "mfdh.events" 2 9)
unfolding observation_message validate
decode_example =
    decode_observation-observation_message codec observation (envelope_of observation "bytes")
      "mfdh.events" 2 9 codec-IsLossless refl

abbrev raised : FixAction
raised = record restart { session_id = 2; risk = Risk.high; target = "orders-1" }

-- The row 10 gets the new columns, and stays with its session.
abbrev one_row : World
one_row = world_in Status.fix_proposed (restart ∷ [])

upsert_example :
    (10 ≡ (if raised.id == 0 then quiet.new_uuid one_row.tick else raised.id))
    × (find? (has_fix_id 10) (upsert quiet raised one_row).1.fixes ≡ (
        if 10 == 10
        then some (merged (record raised { id = 10 }) (find? (has_fix_id 10) one_row.fixes))
        else find? (has_fix_id 10) one_row.fixes))
    × (rows_with 10 (upsert quiet raised one_row).1.fixes
        ≡ (if any (has_fix_id 10) one_row.fixes then rows_with 10 one_row.fixes else 1))
unfolding upsert upsert_as
upsert_example = upsert_lem quiet raised 10 10 one_row refl

abbrev log_instance : ServiceInstance
log_instance = record {
  id = "";
  name = "agent-log";
  kind = "agent-log";
  version = "1.0.0";
  http_addr = ":8081";
  status = "healthy";
  heartbeat = none;
}

abbrev calls : List Operation
calls =
    Operation.register "u-1" log_instance
    ∷ Operation.register "u-2" (record log_instance { id = "i-2" })
    ∷ Operation.health_check "u-1" "degraded"
    ∷ Operation.deregister "i-2"
    ∷ []

found_example :
    find? (has_id "u-1") (MockRegistry.discover "agent-log" (MockRegistry.run calls []))
    ≡ named "agent-log" (recorded "u-1" calls none)
found_example = found-recorded calls "agent-log" "u-1"

abbrev registrations : List (String × ServiceInstance)
registrations =
    ("u-1", log_instance)
    ∷ ("u-2", record log_instance { id = "i-2"; kind = ""; status = "unhealthy" })
    ∷ []

discover_example :
    (discover (λ name. some (entries_of registrations)) "agent-log" ≡ some (shown registrations))
    × (discover_only (λ name. some (entries_of registrations)) "agent-log"
        ≡ some (shown registrations))
discover_example =
    discover-register (λ name. some (entries_of registrations)) "agent-log" registrations refl

abbrev start_world : World
start_world = world_in Status.collecting []

dispatch_example :
    ((dispatch_collect busy true 1 "orders" start_world).1.published
      ≡ [] ++ surviving busy.fault 0 (collect_commands 1 "orders"))
    × All IsRoutedTo (collect_commands 1 "orders")
    × ((dispatch_analyze busy true 1 "orders" start_world).1.published
        ≡ [] ++ surviving busy.fault 0 (analyze_command 1 "orders" ∷ []))
    × IsRoutedTo (analyze_command 1 "orders")
dispatch_example = dispatch-IsRouted busy 1 "orders" start_world

abbrev detached_agent : FixAgent
detached_agent = record {
  pool = false;
  parse_uuid = λ t. some 1;
  parse_rca = λ t. some "timeout_cascade";
  search = λ p. none;
  ask_llm = λ o. none;
  encode = λ d. some "{}";
  fresh = λ n. "u";
}

abbrev diagnosis : Observation
diagnosis = record observation { type = EvidenceType.rca_result }

detached_example :
    (handle quiet detached_agent "1" (diagnosis ∷ []) (world_in Status.rca_done [])).1
    ≡ world_in Status.rca_done []
unfolding new_agent
detached_example =
    handle_detached quiet detached_agent "agent-fix" "1"
      (record {
        name = "agent-fix";
        input_topic = "mfdh.observations.rca";
        output_topic = "mfdh.observations.fix";
        pool = false;
        llm = false;
      })
      (diagnosis ∷ []) (world_in Status.rca_done []) refl refl

abbrev orchestrator : Options
orchestrator = record {
  agent_kind = "orchestrator";
  skip_consul = false;
  skip_database = false;
  on_orchestrator_ready = true;
  on_agent_ready = false;
}

abbrev healthy_outside : Outside
healthy_outside = record {
  config = some (record { consul_addr = "localhost:8500" });
  parses = true;
  opens_pool = true;
  pings = true;
  new_consul = true;
  accepts = true;
  hook_returns = true;
  shuts_down = true;
  deregisters = true;
  wakeup = signalled;
  pid = "17";
}

run-Settles_example :
    Settles healthy_outside
      (run "orchestrator" orchestrator healthy_outside).1
      (tally (run "orchestrator" orchestrator healthy_outside).0)
run-Settles_example = run-Settles "orchestrator" orchestrator healthy_outside

abbrev machine : Genproto.Outside
machine = record {
  makes_dirs = true;
  downloads = λ url. true;
  leaves_protoc = false;
  unzips = true;
  removes = true;
  chmods = true;
  has_protoc = true;
  installs = λ arg. true;
  writes = λ name. true;
  trim = λ t. t;
  goos = "linux";
  goarch = "amd64";
}

-- Nothing can be downloaded or installed any more.
abbrev offline : Genproto.Outside
offline = record machine { downloads = λ url. false; installs = λ arg. false }

abbrev empty_bin : Bin
empty_bin = record { protoc = false; exes = []; markers = []; installed = []; downloads = [] }

machine-IsTable : IsTable machine plugin_defs
machine-IsTable = (
  refl,
  (refl, (refl, (refl, tt))),
  (refl, (refl, (refl, tt)), (refl, (refl, tt), (refl, tt, tt))),
)

twice_example :
    (bootstrap true offline (bootstrap false machine empty_bin).1
      ≡ (true, (bootstrap false machine empty_bin).1))
    × (bootstrap false offline (bootstrap false machine empty_bin).1
        ≡ (true, (bootstrap false machine empty_bin).1))
unfolding bootstrap ensure_protoc ensure_plugins ensure_each lookup insert
twice_example = bootstrap_twice machine offline empty_bin machine-IsTable refl refl refl refl

abbrev disk : FileSystem
disk = record { mkdir_all = λ p. true; opens = λ e. true; creates = λ p. true; copies = λ e. true }

abbrev archive : List Entry
archive =
    record { name = "include" ∷ []; is_dir = true }
    ∷ record { name = "bin" ∷ "protoc" ∷ []; is_dir = false }
    ∷ []

unzip_example : All (IsInside ("bin" ∷ [])) (unzip disk ("bin" ∷ []) archive).1
unzip_example = unzip-IsInside disk ("bin" ∷ []) archive refl
