-- ===== src/Discovery/Consul.antt =====
-- internal/discovery/consul.go: ConsulRegistry and ConsulDiscovery. What the agent of Consul answers
-- is an argument of the functions that ask it.
pub mod RoundTrip
use microservice_diagnosis.Prelude.{
  String, ◌<>◌, Bool, true, false, Option, none, some, List, [], ◌∷◌, map, str_eq, after_prefix,
  is_some, if◌then◌else◌,
}
use microservice_diagnosis.Discovery.{ServiceInstance, with_fresh_id}

-- The fields of api.AgentServiceRegistration that Register sets; the port stays 0.
pub record Registration : Type 0 where
  pub id : String
  pub name : String
  pub address : String
  pub meta_kind : String
  pub meta_version : String
  pub tags : List String
  pub check_http : String
  pub check_ttl : String
  pub deregister_after : String

unfoldable pub tags_of : ServiceInstance → List String
tags_of inst =
    ("httpaddr=" <> inst.http_addr) ∷ ("kind=" <> inst.kind) ∷ ("version=" <> inst.version) ∷ []

-- What `Register` hands to Consul.
unfoldable pub registration_of : String → ServiceInstance → Registration
unfolding tags_of
registration_of fresh inst = record {
  id = (with_fresh_id fresh inst).id;
  name = inst.name;
  address = inst.http_addr;
  meta_kind = inst.kind;
  meta_version = inst.version;
  tags = tags_of inst;
  check_http = "http://" <> (inst.http_addr <> "/healthz");
  check_ttl = "10s";
  deregister_after = "30s";
}

-- `Register`: what it sends, and whether the loop that refreshes the TTL has started, which is so when
-- Consul accepts.
unfoldable pub register : Bool → String → ServiceInstance → Registration × Bool
unfolding registration_of
register accepts fresh inst = (registration_of fresh inst, accepts)

-- An entry of the answer to ServicesWithFilter, beside its id.
pub record AgentService : Type 0 where
  pub service : String
  pub tags : List String

-- `len(tag) > len(key) && tag[:len(key)] == key`, and the rest of the tag.
abbrev nonempty : Option String → Option String
nonempty none = none
nonempty (some rest) = if str_eq rest "" then none else some rest

unfoldable pub tag_value : String → String → Option String
tag_value key tag = nonempty (after_prefix key tag)

abbrev or_else : Option String → String → String
or_else none d = d
or_else (some v) d = v

-- The loops of ConsulRegistry: the first tag that fits ends the loop.
unfoldable pub first_value : String → List String → String
first_value key [] = ""
first_value key (tag ∷ tags) = or_else (tag_value key tag) (first_value key tags)

-- The loop of ConsulDiscovery: a later tag that fits replaces an earlier one.
unfoldable pub last_value : String → List String → String → String
last_value key [] v = v
last_value key (tag ∷ tags) v = last_value key tags (or_else (tag_value key tag) v)

unfoldable pub instance_of :
    (String → List String → String) → String × AgentService → ServiceInstance
instance_of value (id, svc) = record {
  id = id;
  name = svc.service;
  kind = value "kind=" svc.tags;
  version = value "version=" svc.tags;
  http_addr = value "httpaddr=" svc.tags;
  status = "healthy";
  heartbeat = none;
}

abbrev discovered :
    (String → List String → String)
    → Option (List (String × AgentService))
    → Option (List ServiceInstance)
discovered value none = none
discovered value (some svcs) = some (map (instance_of value) svcs)

-- `ConsulRegistry.Discover`, by what ServicesWithFilter answers for the name.
unfoldable pub discover :
    (String → Option (List (String × AgentService))) → String → Option (List ServiceInstance)
unfolding first_value instance_of
discover services name = discovered first_value (services name)

-- `ConsulDiscovery.Discover`.
unfoldable pub discover_only :
    (String → Option (List (String × AgentService))) → String → Option (List ServiceInstance)
unfolding last_value instance_of
discover_only services name = discovered (λ key tags. last_value key tags "") (services name)

-- The calls of the agent that `HealthCheck` chooses from, with the id of the check and the note.
pub data Ttl : Type 0 where
  pass_ttl warn_ttl fail_ttl : String → String → Ttl

unfoldable pub health_check : String → String → Ttl
health_check id status =
    if str_eq status "healthy"
    then pass_ttl ("service:" <> id) status
    else if str_eq status "degraded"
    then warn_ttl ("service:" <> id) status
    else if str_eq status "unhealthy"
    then fail_ttl ("service:" <> id) status
    else pass_ttl ("service:" <> id) status
