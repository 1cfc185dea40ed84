-- ===== src/Tests/Scenario.antt =====
-- A deployment in which nothing fails, and the sessions and the actions that the tests start from.
use microservice_diagnosis.Prelude.{ℕ, ◌+◌, Bool, true, false, none, some, List, [], ◌∷◌, ◌==◌}
use microservice_diagnosis.Store.Rows.{
  Status, manual, Risk, low, ApprovalStatus, no_approval, ExecStatus, not_started,
  DiagnosticSession, FixAction,
}
use microservice_diagnosis.Store.World.{World, Env, ExecOutcome}

abbrev pub quiet : Env
quiet = record {
  fault = λ n. false;
  locked = λ id n. false;
  clock = λ n. 1000 + n;
  new_uuid = λ n. 50 + n;
  execute = λ fa n. some ExecOutcome.succeeded;
  request_approval = λ fa n. some "token";
  create_incident = λ fa n. some "INC-1";
}

-- Every call fails.
abbrev pub broken : Env
broken = record quiet { fault = λ n. true }

-- Another transaction holds the session 1.
abbrev pub busy : Env
busy = record quiet { locked = λ id n. id == 1 }

abbrev pub session_in : ℕ → Status → DiagnosticSession
session_in id s = record {
  id = id;
  status = s;
  target_service = "orders";
  trigger_type = manual;
  retry_count = 0;
  report_url = none;
  created_at = 900;
  updated_at = 900;
}

abbrev pub action : ℕ → ℕ → Risk → Bool → ApprovalStatus → ExecStatus → FixAction
action id seq risk needed approval execution = record {
  id = id;
  session_id = 1;
  seq = seq;
  action_type = "restart_pod";
  target = "orders-0";
  risk = risk;
  rollback_plan = "none";
  requires_approval = needed;
  approval_status = approval;
  execution_status = execution;
  ticket_id = none;
  created_at = 900;
  updated_at = 900;
}

abbrev pub restart : FixAction
restart = action 10 1 low false no_approval not_started

abbrev pub switch_over : FixAction
switch_over = action 11 2 Risk.high true no_approval not_started

-- The session 1 in a status, the session 2 collecting, and the fix actions of the first.
abbrev pub world_in : Status → List FixAction → World
world_in s fixes = record {
  tick = 0;
  sessions = session_in 1 s ∷ session_in 2 Status.collecting ∷ [];
  fixes = fixes;
  approvals = [];
  events = [];
  published = [];
  executed = [];
  notified = [];
}
