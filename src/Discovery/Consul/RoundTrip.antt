-- ===== src/Discovery/Consul/RoundTrip.antt =====
-- What is registered with Consul is what both kinds of discovery find.
use microservice_diagnosis.Prelude.{
  String, ◌<>◌, true, Option, none, some, List, [], ◌∷◌, map, str_eq, eq_iff, ◌≡◌, refl, sym, ap,
  clash, after_prefix-append, after_prefix-clash, Bool-cases, inl, inr,
}
use microservice_diagnosis.Discovery.{ServiceInstance, with_fresh_id}
use microservice_diagnosis.Discovery.Consul.{
  Registration, AgentService, registration_of, tags_of, tag_value, first_value, last_value,
  instance_of, discover, discover_only, or_else, nonempty,
}

-- The entry that Consul keeps of a registration.
abbrev pub entry_of : Registration → String × AgentService
entry_of r = (r.id, record { service = r.name; tags = r.tags })

tag_value_other :
    (key other v : String) → clash key other ≡ true → tag_value key (other <> v) ≡ none
unfolding tag_value
tag_value_other key other v h = rw (after_prefix-clash key other v h) refl

-- An empty value is not found, and reads as the empty text that stands for none.
or_else-nonempty : (v : String) → or_else (nonempty (some v)) "" ≡ v
or_else-nonempty v = elim (Bool-cases (str_eq v "")) [
  | inl e ↦ rw e (sym ((eq_iff v "").0 e))
  | inr e ↦ rw e refl
]

tag_value_own : (key v : String) → or_else (tag_value key (key <> v)) "" ≡ v
unfolding tag_value
tag_value_own key v = rw (after_prefix-append key v) (or_else-nonempty v)

module _ (inst : ServiceInstance) where
  first_http_addr : first_value "httpaddr=" (tags_of inst) ≡ inst.http_addr
  unfolding first_value tags_of
  first_http_addr =
      rw
        (
          tag_value_other "httpaddr=" "kind=" inst.kind refl,
          tag_value_other "httpaddr=" "version=" inst.version refl,
        )
        (tag_value_own "httpaddr=" inst.http_addr)

  first_kind : first_value "kind=" (tags_of inst) ≡ inst.kind
  unfolding first_value tags_of
  first_kind =
      rw
        (
          tag_value_other "kind=" "httpaddr=" inst.http_addr refl,
          tag_value_other "kind=" "version=" inst.version refl,
        )
        (tag_value_own "kind=" inst.kind)

  first_version : first_value "version=" (tags_of inst) ≡ inst.version
  unfolding first_value tags_of
  first_version =
      rw
        (
          tag_value_other "version=" "httpaddr=" inst.http_addr refl,
          tag_value_other "version=" "kind=" inst.kind refl,
        )
        (tag_value_own "version=" inst.version)

  last_http_addr : last_value "httpaddr=" (tags_of inst) "" ≡ inst.http_addr
  unfolding last_value tags_of
  last_http_addr =
      rw
        (
          tag_value_other "httpaddr=" "kind=" inst.kind refl,
          tag_value_other "httpaddr=" "version=" inst.version refl,
        )
        (tag_value_own "httpaddr=" inst.http_addr)

  last_kind : last_value "kind=" (tags_of inst) "" ≡ inst.kind
  unfolding last_value tags_of
  last_kind =
      rw
        (
          tag_value_other "kind=" "httpaddr=" inst.http_addr refl,
          tag_value_other "kind=" "version=" inst.version refl,
        )
        (tag_value_own "kind=" inst.kind)

  last_version : last_value "version=" (tags_of inst) "" ≡ inst.version
  unfolding last_value tags_of
  last_version =
      rw
        (
          tag_value_other "version=" "httpaddr=" inst.http_addr refl,
          tag_value_other "version=" "kind=" inst.kind refl,
        )
        (tag_value_own "version=" inst.version)

-- The instance as discovery shows it.
abbrev pub healthy : String → ServiceInstance → ServiceInstance
healthy id inst = record inst { id = id; status = "healthy"; heartbeat = none }

-- What Consul holds of the instances that were registered, each with a fresh id at hand.
abbrev pub entries_of : List (String × ServiceInstance) → List (String × AgentService)
entries_of = map (λ (fresh, inst). entry_of (registration_of fresh inst))

abbrev pub shown : List (String × ServiceInstance) → List ServiceInstance
shown = map (λ (fresh, inst). healthy (with_fresh_id fresh inst).id inst)

instances_of_first :
    (regs : List (String × ServiceInstance))
    → map (instance_of first_value) (entries_of regs) ≡ shown regs
unfolding instance_of registration_of
instances_of_first [] = refl
instances_of_first ((fresh, inst) ∷ regs) =
    rw (first_http_addr inst, first_kind inst, first_version inst, instances_of_first regs) refl

instances_of_last :
    (regs : List (String × ServiceInstance))
    → map (instance_of (λ key tags. last_value key tags "")) (entries_of regs) ≡ shown regs
unfolding instance_of registration_of
instances_of_last [] = refl
instances_of_last ((fresh, inst) ∷ regs) =
    rw (last_http_addr inst, last_kind inst, last_version inst, instances_of_last regs) refl

-- When Consul answers with what Register has handed to it, both kinds of discovery find each instance
-- with the id that it was registered under, its own name, kind, version and address, whatever texts
-- these are, and the status healthy, whatever its status is.
pub discover-register :
    (services : String → Option (List (String × AgentService))) (name : String)
    (regs : List (String × ServiceInstance))
    → services name ≡ some (entries_of regs)
    → (discover services name ≡ some (shown regs))
      × (discover_only services name ≡ some (shown regs))
unfolding discover discover_only
discover-register services name regs h =
    rw h (ap some (instances_of_first regs), ap some (instances_of_last regs))
