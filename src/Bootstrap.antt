-- ===== src/Bootstrap.antt =====
-- internal/bootstrap/bootstrap.go: Run, from the configuration to the shutdown. What pgx, Consul, the
-- HTTP server and the hooks answer is an argument; the effects stand in the order in which they occur.
pub mod Teardown
pub mod Builders
use microservice_diagnosis.Prelude.{
  String, ◌<>◌, Bool, true, false, not, ◌&&◌, Option, none, some, List, [], ◌∷◌, ◌++◌, str_eq,
  if◌then◌else◌,
}

-- `Options`, with whether a hook is set.
pub record Options : Type 0 where
  pub agent_kind : String
  pub skip_consul : Bool
  pub skip_database : Bool
  pub on_orchestrator_ready : Bool
  pub on_agent_ready : Bool

-- The fields of the configuration that decide a branch.
pub record Config : Type 0 where
  pub consul_addr : String

-- What ends the select: the context of the signals, or an error of ListenAndServe.
pub data Wakeup : Type 0 where
  signalled server_failed : Wakeup

-- config.Load, pgxpool.ParseConfig, NewWithConfig and Ping, NewConsulRegistry, Register, the hook of an
-- agent, which may end the process by os.Exit, and the end of the select. Without a server only a
-- signal ends it.
pub record Outside : Type 0 where
  pub config : Option Config
  pub parses : Bool
  pub opens_pool : Bool
  pub pings : Bool
  pub new_consul : Bool
  pub accepts : Bool
  pub hook_returns : Bool
  -- Whether srv.Shutdown and Deregister return no error; their errors are logged.
  pub shuts_down : Bool
  pub deregisters : Bool
  pub wakeup : Wakeup
  -- os.Getpid, in decimal.
  pub pid : String

pub data Effect : Type 0 where
  opened_pool closed_pool : Effect
  started_server shut_server_down : Effect
  orchestrator_ready agent_ready : Effect
  -- With Consul, by the id of the instance.
  registered deregistered : String → Effect

pub data StartError : Type 0 where
  load_config parse_pg pg_pool pg_ping http_server : StartError

-- How Run ends: nil, an error, or os.Exit in a hook.
pub data Ending : Type 0 where
  stopped exited : Ending
  failed : StartError → Ending

-- The id that an instance is registered and deregistered under.
abbrev pub instance_id : String → Outside → String
instance_id service o = service <> ("-" <> o.pid)

-- Whether the registry is that of Consul, and not the mock.
abbrev pub uses_consul : Options → Outside → Config → Bool
uses_consul opts o cfg = not opts.skip_consul && not (str_eq cfg.consul_addr "") && o.new_consul

abbrev pub register : String → Options → Outside → Config → List Effect
register service opts o cfg =
    if uses_consul opts o cfg && o.accepts then registered (instance_id service o) ∷ [] else []

-- Deregister is called on either registry; that of the mock has no effect outside.
abbrev pub deregister : String → Options → Outside → Config → List Effect
deregister service opts o cfg =
    if uses_consul opts o cfg && o.deregisters
    then deregistered (instance_id service o) ∷ []
    else []

abbrev pub when : Bool → Effect → List Effect
when b e = if b then e ∷ [] else []

abbrev runs_agent_hook : Options → Bool
runs_agent_hook opts =
    opts.on_agent_ready
    && not (str_eq opts.agent_kind "")
    && not (str_eq opts.agent_kind "orchestrator")

-- What follows the select; `served` says whether there is a server.
abbrev wait : String → Options → Outside → Config → Bool → Wakeup → List Effect × Ending
wait service opts o cfg true server_failed = ([], failed http_server)
wait service opts o cfg served _ =
    (when (served && o.shuts_down) shut_server_down ++ deregister service opts o cfg, stopped)

abbrev after_hook : String → Options → Outside → Config → Bool → List Effect × Ending
after_hook service opts o cfg served =
    if runs_agent_hook opts && not o.hook_returns
    then ([], exited)
    else wait service opts o cfg served o.wakeup

abbrev prefixed : List Effect → List Effect × Ending → List Effect × Ending
prefixed es (rest, e) = (es ++ rest, e)

-- From the registry on; there is a server exactly when there is a pool.
unfoldable pub serve : String → Options → Outside → Config → Bool → List Effect × Ending
serve service opts o cfg pool =
    prefixed
      (register service opts o cfg
        ++ (when pool started_server
            ++ (when (pool && opts.on_orchestrator_ready) orchestrator_ready
                ++ when (runs_agent_hook opts) agent_ready)))
      (after_hook service opts o cfg pool)

-- The deferred call of pool.Close, which os.Exit skips.
abbrev close_pool : List Effect × Ending → List Effect × Ending
close_pool (es, exited) = (es, exited)
close_pool (es, e) = (es ++ closed_pool ∷ [], e)

abbrev with_pool : String → Options → Outside → Config → List Effect × Ending
with_pool service opts o cfg =
    if not o.parses
    then ([], failed parse_pg)
    else if not o.opens_pool
    then ([], failed pg_pool)
    else prefixed (opened_pool ∷ [])
        (close_pool (if o.pings then serve service opts o cfg true else ([], failed pg_ping)))

abbrev run_with : String → Options → Outside → Option Config → List Effect × Ending
run_with service opts o none = ([], failed load_config)
run_with service opts o (some cfg) =
    if opts.skip_database then serve service opts o cfg false else with_pool service opts o cfg

-- `Run`.
unfoldable pub run : String → Options → Outside → List Effect × Ending
run service opts o = run_with service opts o o.config
