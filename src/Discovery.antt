-- ===== src/Discovery.antt =====
-- internal/discovery/interfaces.go: a service instance, and what the calls of a registry record.
pub mod MockRegistry
pub mod Consul
use microservice_diagnosis.Prelude.{
  String, Bool, Option, none, some, List, [], ◌∷◌, str_eq, if◌then◌else◌,
}
use microservice_diagnosis.Store.Rows.{Time}

pub record ServiceInstance : Type 0 where
  pub id : String
  pub name : String
  pub kind : String
  pub version : String
  pub http_addr : String
  pub status : String
  pub heartbeat : Option Time

abbrev pub has_id : String → ServiceInstance → Bool
has_id id inst = str_eq inst.id id

abbrev pub with_status : String → ServiceInstance → ServiceInstance
with_status status inst = record inst { status = status }

-- The id that an instance is registered under; `fresh` is uuid.New.
abbrev pub with_fresh_id : String → ServiceInstance → ServiceInstance
with_fresh_id fresh inst = record inst { id = if str_eq inst.id "" then fresh else inst.id }

-- The calls of a registry that change it; `fresh` is what uuid.New would give.
pub data Operation : Type 0 where
  register : String → ServiceInstance → Operation
  deregister : String → Operation
  health_check : String → String → Operation

abbrev pub if_named : String → ServiceInstance → Option ServiceInstance
if_named name inst = if str_eq inst.name name then some inst else none

abbrev pub restated : String → Option ServiceInstance → Option ServiceInstance
restated status none = none
restated status (some inst) = some (record inst { status = status })

-- What the calls of a registry record, by the id that is looked at: what a call makes of the instance
-- that is registered under it. The status is kept and not looked at: that Discover returns the healthy
-- instances only, as the comment of the interface says, is no part of this.
abbrev pub effect : String → Operation → Option ServiceInstance → Option ServiceInstance
effect j (register fresh inst) old =
    let id = if str_eq inst.id "" then fresh else inst.id in
    if str_eq id j then some (record inst { id = id }) else old
effect j (deregister id) old = if str_eq id j then none else old
effect j (health_check id status) old = if str_eq id j then restated status old else old

-- What is registered under the id after the calls.
unfoldable pub recorded : String → List Operation → Option ServiceInstance → Option ServiceInstance
recorded j [] old = old
recorded j (op ∷ ops) old = recorded j ops (effect j op old)

abbrev pub named : String → Option ServiceInstance → Option ServiceInstance
named name none = none
named name (some inst) = if_named name inst
