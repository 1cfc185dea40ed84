-- ===== src/Workflow/Sweep/Verdict.antt =====
-- The event that SweepVerifying chooses.
use microservice_diagnosis.Prelude.{
  Bool, true, false, ◌||◌, any, List, [], ◌∷◌, All, ◌≡◌, ◌≢◌, ◌↔◌, refl, arith, if◌then◌else◌,
}
use microservice_diagnosis.Store.Rows.{FixAction, is_exec_failed, is_succeeded}
use microservice_diagnosis.Workflow.Transitions.{verify_success, verify_failure}
use microservice_diagnosis.Workflow.Sweep.{scan_flags, verify_event}

abbrev pub NoneFailed : List FixAction → Type 0
NoneFailed = All (λ fa. is_exec_failed fa.execution_status ≡ false)

abbrev some_failed : List FixAction → Bool
some_failed = any (λ fa. is_exec_failed fa.execution_status)

scan_flags-some_failed :
    (fas : List FixAction) (a f : Bool) → (scan_flags fas a f).1 ≡ f || some_failed fas
scan_flags-some_failed [] a f = ground arith
scan_flags-some_failed (fa ∷ fas) a f = ground (
  arith,
  scan_flags-some_failed fas (if is_succeeded fa.execution_status then a else false)
      (if is_exec_failed fa.execution_status then true else f),
)

NoneFailed-of : (fas : List FixAction) → some_failed fas ≡ false → NoneFailed fas
NoneFailed-of [] h = tt
NoneFailed-of (fa ∷ fas) h = (ground arith, NoneFailed-of fas (ground arith))

of-NoneFailed : (fas : List FixAction) → NoneFailed fas → some_failed fas ≡ false
of-NoneFailed [] h = refl
of-NoneFailed (fa ∷ fas) h = ground (arith, of-NoneFailed fas h.1)

verify_event_some :
    (fa : FixAction) (fas : List FixAction)
    → verify_event (fa ∷ fas) ≡ (if some_failed (fa ∷ fas) then verify_failure else verify_success)
unfolding verify_event
verify_event_some fa fas = ground (arith, scan_flags-some_failed (fa ∷ fas) true false)

-- SweepVerifying picks the success event exactly when it has read at least one fix action and none
-- of those has failed. An action that was never started, or that still runs, does not stand in the
-- way.
pub verify_event-success :
    (fas : List FixAction) → (verify_event fas ≡ verify_success) ↔ ((fas ≢ []) × NoneFailed fas)
verify_event-success [] = (λ h. unfold verify_event in cc, λ h. absurd (h.0 refl))
verify_event-success (fa ∷ fas) = (
  λ h. (λ p. cc, NoneFailed-of (fa ∷ fas) (ground (arith, verify_event_some fa fas))),
  λ h. ground (arith, verify_event_some fa fas, of-NoneFailed (fa ∷ fas) h.1),
)
