-- ===== src/Discovery/MockRegistry.antt =====
-- internal/discovery/consul.go: MockRegistry, a map from ids to instances under a mutex. Each method
-- holds the mutex throughout, so it is one step; the map holds copies, so no caller shares them.
pub mod History
use microservice_diagnosis.Prelude.{
  String, Option, none, some, List, [], ◌∷◌, str_eq, if◌then◌else◌,
}
use microservice_diagnosis.Prelude.Dict.{Dict, lookup, insert, erase}
use microservice_diagnosis.Discovery.{ServiceInstance, Operation, with_fresh_id, with_status}

abbrev pub MockRegistry : Type 0
MockRegistry = Dict ServiceInstance

unfoldable pub register : String → ServiceInstance → MockRegistry → MockRegistry
register fresh inst m = insert (with_fresh_id fresh inst).id (with_fresh_id fresh inst) m

unfoldable pub deregister : String → MockRegistry → MockRegistry
deregister id m = erase id m

-- The instances of the name, in the order in which `range` visits them.
unfoldable pub discover : String → MockRegistry → List ServiceInstance
discover name [] = []
discover name ((id, inst) ∷ m) =
    let rest = discover name m in if str_eq inst.name name then inst ∷ rest else rest

abbrev restate : String → String → Option ServiceInstance → MockRegistry → MockRegistry
restate id status none m = m
restate id status (some inst) m = insert id (with_status status inst) m

unfoldable pub health_check : String → String → MockRegistry → MockRegistry
health_check id status m = restate id status (lookup id m) m

unfoldable pub apply : Operation → MockRegistry → MockRegistry
apply (Operation.register fresh inst) m = register fresh inst m
apply (Operation.deregister id) m = deregister id m
apply (Operation.health_check id status) m = health_check id status m

-- The calls one after the other, as the mutex orders them.
unfoldable pub run : List Operation → MockRegistry → MockRegistry
run [] m = m
run (op ∷ ops) m = run ops (apply op m)
