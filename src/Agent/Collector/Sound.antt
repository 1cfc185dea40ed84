-- ===== src/Agent/Collector/Sound.antt =====
-- What the collecting agents emit.
use microservice_diagnosis.Prelude.{
  ℕ, ◌+◌, String, false, Option, none, some, List, [], ◌∷◌, All, ◌≡◌, ◌≢◌, ◌⊎◌, inl, inr, refl, ap,
  str_eq, arith, Bool-cases, length, find?,
}
use microservice_diagnosis.Agent.Observation.{
  EvidenceType, Severity, within, Observation, ValidationError, new, fill_system,
}
use microservice_diagnosis.Agent.Observation.Contract.{IsValid, new_ok, new_accepts}
use microservice_diagnosis.Agent.Collector.{
  Finding, Collector, Draws, is_collect_command, draft, or_next, answer_command, is_left_out,
  emitted, emit, or_findings, handle,
}

-- An observation that keeps the contract and says who has made it, for which session, and of what it
-- is evidence.
pub record IsFrom (c : Collector) (session_id : String) (o : Observation) : Type 0 where
  pub valid : IsValid o
  pub source : o.source ≡ c.name
  pub session : o.session_id ≡ session_id
  pub type : o.type ≡ c.type
  pub sub_type : o.sub_type ≡ c.sub_type

module _ (c : Collector) (d : Draws) (session_id : String) where
  new-IsFrom :
      (i : ℕ) (f : Finding) (p : Observation)
      → new (d.fresh i) (d.now i) (some (draft c session_id f)) ≡ inr p
      → IsFrom c session_id p
  new-IsFrom i f p e =
      let (valid, same) = new_ok (d.fresh i) (d.now i) (draft c session_id f) p e in
      record {
        valid = valid;
        source = ap (λ o. o.source) same;
        session = ap (λ o. o.session_id) same;
        type = ap (λ o. o.type) same;
        sub_type = ap (λ o. o.sub_type) same;
      }

  emitted-IsFrom :
      (i : ℕ) (f : Finding) (r : List ValidationError ⊎ Observation) (rest : List Observation)
      → new (d.fresh i) (d.now i) (some (draft c session_id f)) ≡ r
      → All (IsFrom c session_id) rest
      → All (IsFrom c session_id) (emitted r rest)
  emitted-IsFrom i f (inl errs) rest e h = h
  emitted-IsFrom i f (inr p) rest e h = (new-IsFrom i f p e, h)

  emit-IsFrom : (i : ℕ) (fs : List Finding) → All (IsFrom c session_id) (emit c d session_id i fs)
  unfolding emit
  emit-IsFrom i [] = tt
  emit-IsFrom i (f ∷ fs) =
      let rest = emit-IsFrom (i + 1) fs in
      elim (Bool-cases (is_left_out c.skips_undetailed f.detail)) [
        | inl e ↦ rw e rest
        | inr e ↦ rw e (emitted-IsFrom i f _ _ refl rest)
      ]

  abbrev AllFrom : Option Observation → Type 0
  AllFrom none = Unit
  AllFrom (some p) = IsFrom c session_id p

  or_next-IsFrom :
      (i : ℕ) (f : Finding) (r : List ValidationError ⊎ Observation) (rest : Option Observation)
      → new (d.fresh i) (d.now i) (some (draft c session_id f)) ≡ r
      → AllFrom rest
      → AllFrom (or_next r rest)
  or_next-IsFrom i f (inl errs) rest e h = h
  or_next-IsFrom i f (inr p) rest e h = new-IsFrom i f p e

  answer_command-IsFrom :
      (i : ℕ) (os : List Observation) → AllFrom (answer_command c d session_id i os)
  unfolding answer_command
  answer_command-IsFrom i [] = tt
  answer_command-IsFrom i (o ∷ os) =
      let rest = answer_command-IsFrom (i + 1) os in
      elim (Bool-cases (is_collect_command o)) [
        | inl e ↦ rw e (or_next-IsFrom i (c.synthetic o) _ _ refl rest)
        | inr e ↦ rw e rest
      ]

  or_findings-IsFrom :
      (answer : Option Observation) (found : List Observation)
      → AllFrom answer
      → All (IsFrom c session_id) found
      → All (IsFrom c session_id) (or_findings answer found)
  or_findings-IsFrom none found a h = h
  or_findings-IsFrom (some p) found a h = (a, tt)

-- Whatever a collecting agent is given and finds, each observation that it emits keeps the contract
-- of an observation, names the agent as its source and the session as its own, and is evidence of the
-- agent's type.
pub handle-IsFrom :
    (c : Collector) (d : Draws) (session_id : String) (inputs : List Observation)
    → All (IsFrom c session_id) (handle c d session_id inputs)
unfolding handle
handle-IsFrom c d session_id inputs =
    or_findings-IsFrom c d session_id _ _ (answer_command-IsFrom c d session_id 0 inputs)
      (emit-IsFrom c d session_id (length inputs) _)

answer_command-first :
    (c : Collector) (d : Draws) (session_id : String) (i : ℕ) (os : List Observation)
    (o : Observation)
    → find? is_collect_command os ≡ some o
    → ((j : ℕ)
        → new (d.fresh j) (d.now j) (some (draft c session_id (c.synthetic o)))
          ≡ inr (fill_system (d.fresh j) (d.now j) (draft c session_id (c.synthetic o))))
    → (j : ℕ) × (answer_command c d session_id i os
        ≡ some (fill_system (d.fresh j) (d.now j) (draft c session_id (c.synthetic o))))
unfolding answer_command
answer_command-first c d session_id i [] o found accepts = cc
answer_command-first c d session_id i (p ∷ os) o found accepts =
    elim (Bool-cases (is_collect_command p)) [
      | inl e ↦ let same : p ≡ o = ground arith in (i, rw e (rw same (rw (accepts i) refl)))
      | inr e ↦ rw e (answer_command-first c d session_id (i + 1) os o (ground arith) accepts)
    ]

-- When a collect command is among the inputs, a collecting agent looks at nothing else: with a session
-- and fresh ids that are not empty, and an agent whose made-up finding fits the contract, it emits the
-- one observation that it makes up for the first of the commands.
pub handle_collect_command :
    (c : Collector) (d : Draws) (session_id : String) (inputs : List Observation) (o : Observation)
    → find? is_collect_command inputs ≡ some o
    → str_eq session_id "" ≡ false
    → ((j : ℕ) → str_eq (d.fresh j) "" ≡ false)
    → str_eq c.name "" ≡ false
    → c.type ≢ EvidenceType.unspecified_type
    → (c.synthetic o).severity ≢ Severity.unspecified_severity
    → (bits : ℕ) × ((c.synthetic o).confidence ≡ within bits)
    → (j : ℕ) × (handle c d session_id inputs
        ≡ fill_system (d.fresh j) (d.now j) (draft c session_id (c.synthetic o)) ∷ [])
unfolding handle
handle_collect_command c d session_id inputs o found session fresh named typed severe ranged =
    let (j, e) =
      answer_command-first c d session_id 0 inputs o found
        λ j. new_accepts (d.fresh j) (d.now j) _ (fresh j) session named typed severe ranged in
    (j, rw e refl)
