-- ===== src/Agent/Rca/Answer.antt =====
-- The RCA agent always has an answer, and it keeps the contract.
use microservice_diagnosis.Prelude.{
  ℕ, String, Bool, true, false, Option, none, some, List, [], ◌∷◌, ◌≡◌, ◌≢◌, ◌≤◌, refl, ap, arith,
  str_eq, Bool-cases, inl, inr, ltb, ltb→lt, ◌&&◌, if◌then◌else◌,
}
use microservice_diagnosis.Store.Rows.{Time}
use microservice_diagnosis.Agent.Observation.{
  Severity, info, Confidence, negative, above_one, not_a_number, within, Observation, fill_system,
  new,
}
use microservice_diagnosis.Agent.Observation.Contract.{IsValid, new_accepts, new_ok}
use microservice_diagnosis.Agent.Rca.{
  RcaAgent, RcaOutput, Tally, conclude, heuristic_rca, clamp, fallback, accept, run_rca,
  severity_number, greatest, draft_result, one_output, analyze_command, answer, diagnose, tally,
}

-- A confidence inside [0, 1].
abbrev Ranged : RcaOutput → Type 0
Ranged r = (bits : ℕ) × (r.confidence ≡ within bits)

Ranged-if : (b : Bool) (x y : RcaOutput) → Ranged x → Ranged y → Ranged (if b then x else y)
Ranged-if true x y h k = h
Ranged-if false x y h k = k

conclude-Ranged : (t : Tally) → Ranged (conclude t)
unfolding conclude
conclude-Ranged t =
    Ranged-if (ltb 5 t.err_count && ltb 0 t.slow_spans) _ _ (_, refl)
      (Ranged-if (ltb 10 t.err_count) _ _ (_, refl)
        (Ranged-if (ltb 3 t.slow_spans) _ _ (_, refl)
          (Ranged-if (ltb 20 t.warn_count) _ _ (_, refl) (_, refl))))

fallback-Ranged : (a : RcaAgent) (os : List Observation) → Ranged (fallback a os)
unfolding heuristic_rca
fallback-Ranged a [] = (_, refl)
fallback-Ranged a (o ∷ os) = conclude-Ranged (tally a (o ∷ os))

clamp_lem : (c : Confidence) → c ≢ not_a_number → (bits : ℕ) × (clamp c ≡ within bits)
clamp_lem negative h = (_, refl)
clamp_lem above_one h = (_, refl)
clamp_lem not_a_number h = absurd (h refl)
clamp_lem (within bits) h = (bits, refl)

accept-Ranged :
    (a : RcaAgent) (os : List Observation) (r : Option RcaOutput)
    → ((x : RcaOutput) → r ≡ some x → x.confidence ≢ not_a_number)
    → Ranged (accept a os r)
accept-Ranged a os none h = fallback-Ranged a os
accept-Ranged a os (some r) h = Ranged-if (str_eq r.root_cause "") _ _ (fallback-Ranged a os) (
    Ranged-if (str_eq r.root_cause_pattern "") _ _ (fallback-Ranged a os)
      (clamp_lem r.confidence (h r refl)))

greatest-le :
    (s : Severity) (os : List Observation) → severity_number s ≤ severity_number (greatest s os)
unfolding greatest
greatest-le s [] = omega arith
greatest-le s (o ∷ os) = elim (Bool-cases (ltb (severity_number s) (severity_number o.severity))) [
  | inl e ↦ rw e (
      omega (
        arith,
        ltb→lt (severity_number s) (severity_number o.severity) e,
        greatest-le o.severity os,
      ))
  | inr e ↦ rw e (greatest-le s os)
]

severe : (s : Severity) → 2 ≤ severity_number s → s ≢ Severity.unspecified_severity
severe s h e = ground arith

-- What Handle answers: the one observation that it hands on, which keeps the contract.
abbrev pub Answered : Option (List Observation) → Type 0
Answered answered = (out : Observation) × (answered ≡ some (out ∷ [])) × IsValid out

draft-Answered :
    (a : RcaAgent) (fresh : String) (now : Time) (session_id : String) (severity : Severity)
    (service : String) (labels : List (String × String)) (r : RcaOutput)
    → str_eq fresh "" ≡ false
    → str_eq session_id "" ≡ false
    → severity ≢ Severity.unspecified_severity
    → Ranged r
    → Answered
        (one_output (new fresh now (some (draft_result a session_id severity service labels r))))
draft-Answered a fresh now session_id severity service labels r drawn named severe ranged =
    let draft = draft_result a session_id severity service labels r in
    let made : new fresh now (some draft) ≡ inr (fill_system fresh now draft) =
      new_accepts fresh now draft drawn named refl (λ e. ground arith) severe ranged in
    (
      fill_system fresh now draft,
      ap one_output made,
      (new_ok fresh now draft (fill_system fresh now draft) made).0,
    )

module _ (a : RcaAgent) (fresh : String) (now : Time) (session_id : String)
    (drawn : str_eq fresh "" ≡ false) (named : str_eq session_id "" ≡ false)
    (numbers : (service : String) (os : List Observation) (r : RcaOutput)
      → a.chat service os ≡ some r
      → r.confidence ≢ not_a_number) where
  run_rca-Ranged : (service : String) (os : List Observation) → Ranged (run_rca a service os)
  unfolding run_rca
  run_rca-Ranged service os = accept-Ranged a os (a.chat service os) (numbers service os)

  answer-Answered :
      (o : Observation) (os : List Observation) (command : Option String)
      → Answered (answer a fresh now session_id o os command)
  answer-Answered o os none =
      draft-Answered a fresh now session_id (greatest info (o ∷ os)) o.target_service o.labels _
        drawn named (severe _ (greatest-le info (o ∷ os)))
        (run_rca-Ranged o.target_service (o ∷ os))
  answer-Answered o os (some service) =
      draft-Answered a fresh now session_id info service o.labels _ drawn named (λ e. ground arith)
        (run_rca-Ranged service [])

  -- For evidence on a session, or a command to analyze one, the RCA agent answers with exactly one
  -- observation, and it keeps the contract, whether the LLM answers, fails, or gives a confidence
  -- outside [0, 1]. This supposes that the session id and the fresh id are not empty, and that the
  -- JSON codec reads no NaN.
  pub diagnose-Answered :
      (o : Observation) (os : List Observation)
      → Answered (diagnose a fresh now session_id (o ∷ os))
  unfolding diagnose
  diagnose-Answered o os = answer-Answered o os (analyze_command a o os)
