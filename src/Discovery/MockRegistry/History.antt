-- ===== src/Discovery/MockRegistry/History.antt =====
-- The mock registry keeps what it is told, whatever calls have been made of it.
use microservice_diagnosis.Prelude.{
  String, none, some, List, [], ◌∷◌, find?, str_eq, eq_iff, ◌≡◌, refl, subst, ap, ◌∙◌, arith,
  if◌then◌else◌, Option-cases, inl, inr,
}
use microservice_diagnosis.Prelude.Dict.{
  lookup, insert, erase, NodupKeys, lookup-insert, lookup-erase, insert-NodupKeys, erase-NodupKeys,
}
use microservice_diagnosis.Discovery.{
  ServiceInstance, Operation, has_id, with_status, with_fresh_id, restated, effect, recorded, named,
}
use microservice_diagnosis.Discovery.MockRegistry.{
  MockRegistry, register, deregister, discover, health_check, apply, run,
}

-- Every instance stands under its own id.
abbrev IsKeyed : MockRegistry → Type 0
IsKeyed [] = Unit
IsKeyed ((id, inst) ∷ m) = (inst.id ≡ id) × IsKeyed m

pub record IsSound (m : MockRegistry) : Type 0 where
  pub keyed : IsKeyed m
  pub once : NodupKeys m

insert-IsKeyed :
    (inst : ServiceInstance) (m : MockRegistry) → IsKeyed m → IsKeyed (insert inst.id inst m)
unfolding insert
insert-IsKeyed inst [] k = (refl, tt)
insert-IsKeyed inst ((j, other) ∷ m) k = ground (arith, insert-IsKeyed inst m, eq_iff j inst.id)

erase-IsKeyed : (id : String) (m : MockRegistry) → IsKeyed m → IsKeyed (erase id m)
unfolding erase
erase-IsKeyed id [] k = tt
erase-IsKeyed id ((j, other) ∷ m) k = ground (arith, erase-IsKeyed id m)

lookup-id :
    (j : String) (inst : ServiceInstance) (m : MockRegistry)
    → IsKeyed m
    → lookup j m ≡ some inst
    → inst.id ≡ j
unfolding lookup
lookup-id j inst [] k h = ground arith
lookup-id j inst ((i, other) ∷ m) k h = ground (arith, lookup-id j inst m, eq_iff i j)

-- What is found is what the map holds, if it has the name.
found_lem :
    (name j : String) (m : MockRegistry)
    → IsSound m
    → find? (has_id j) (discover name m) ≡ named name (lookup j m)
unfolding discover lookup
found_lem name j [] s = refl
found_lem name j ((i, inst) ∷ m) s =
    let rest : IsSound m = record { keyed = s.keyed.1; once = s.once.1 } in
    ground (arith, found_lem name j m rest, eq_iff i j, eq_iff inst.id j)

register-IsSound :
    (fresh : String) (inst : ServiceInstance) (m : MockRegistry)
    → IsSound m
    → IsSound (register fresh inst m)
unfolding register
register-IsSound fresh inst m s = record {
  keyed = insert-IsKeyed (with_fresh_id fresh inst) m s.keyed;
  once = insert-NodupKeys _ _ m s.once;
}

deregister-IsSound : (id : String) (m : MockRegistry) → IsSound m → IsSound (deregister id m)
unfolding deregister
deregister-IsSound id m s = record {
  keyed = erase-IsKeyed id m s.keyed;
  once = erase-NodupKeys id m s.once;
}

insert_under :
    (id : String) (inst : ServiceInstance) (m : MockRegistry)
    → inst.id ≡ id
    → IsSound m
    → IsSound (insert id inst m)
insert_under id inst m e s = record {
  keyed = subst (λ k. IsKeyed (insert k inst m)) e (insert-IsKeyed inst m s.keyed);
  once = insert-NodupKeys id inst m s.once;
}

health_check-IsSound :
    (id status : String) (m : MockRegistry) → IsSound m → IsSound (health_check id status m)
unfolding health_check
health_check-IsSound id status m s = elim (Option-cases (lookup id m)) [
  | inl e ↦ rw e s
  | inr (inst, e) ↦
      rw e (insert_under id (with_status status inst) m (lookup-id id inst m s.keyed e) s)
]

apply-IsSound : (op : Operation) (m : MockRegistry) → IsSound m → IsSound (apply op m)
unfolding apply
apply-IsSound (Operation.register fresh inst) m s = register-IsSound fresh inst m s
apply-IsSound (Operation.deregister id) m s = deregister-IsSound id m s
apply-IsSound (Operation.health_check id status) m s = health_check-IsSound id status m s

lookup-health_check :
    (j id status : String) (m : MockRegistry)
    → lookup j (health_check id status m)
      ≡ (if str_eq id j then restated status (lookup j m) else lookup j m)
unfolding health_check
lookup-health_check j id status m = elim (Option-cases (lookup id m)) [
  | inl e ↦ rw e (ground (arith, eq_iff id j))
  | inr (inst, e) ↦
      rw (e, lookup-insert j id (with_status status inst) m) (ground (arith, eq_iff id j))
]

lookup-apply :
    (j : String) (op : Operation) (m : MockRegistry)
    → lookup j (apply op m) ≡ effect j op (lookup j m)
unfolding apply register deregister
lookup-apply j (Operation.register fresh inst) m = lookup-insert j _ _ m
lookup-apply j (Operation.deregister id) m = lookup-erase j id m
lookup-apply j (Operation.health_check id status) m = lookup-health_check j id status m

found-run :
    (ops : List Operation) (name j : String) (m : MockRegistry)
    → IsSound m
    → find? (has_id j) (discover name (run ops m)) ≡ named name (recorded j ops (lookup j m))
unfolding run recorded
found-run [] name j m s = found_lem name j m s
found-run (op ∷ ops) name j m s =
    found-run ops name j (apply op m) (apply-IsSound op m s)
    ∙ ap (λ o. named name (recorded j ops o)) (lookup-apply j op m)

-- After any calls of an empty mock registry, what Discover finds of an id under a name is the instance
-- of the last Register under that id with the status of the last HealthCheck since, whatever that status
-- is, nothing after a Deregister of the id, and nothing under another name.
pub found-recorded :
    (ops : List Operation) (name j : String)
    → find? (has_id j) (discover name (run ops [])) ≡ named name (recorded j ops none)
unfolding lookup
found-recorded ops name j = found-run ops name j [] (record { keyed = tt; once = tt })
