-- ===== src/Store/Rows.antt =====
-- The row types and string constants of internal/store (session.go, fix_action.go,
-- session_event.go). A string column is a type with one constructor for each constant of the
-- source and `other` for any other string.
use microservice_diagnosis.Prelude.{ℕ, String, Bool, true, false, Option, ◌==◌}

abbrev pub Uuid : Type 0
Uuid = ℕ

-- Seconds.
abbrev pub Time : Type 0
Time = ℕ

pub data Status : Type 0 where
  created collecting analyzing rca_done fix_proposed awaiting_approval fix_suggested : Status
  fix_executing verifying resolved rolled_back rejected ignored failed : Status
  other : String → Status

abbrev status_code : Status → ℕ
status_code created = 0
status_code collecting = 1
status_code analyzing = 2
status_code rca_done = 3
status_code fix_proposed = 4
status_code awaiting_approval = 5
status_code fix_suggested = 6
status_code fix_executing = 7
status_code verifying = 8
status_code resolved = 9
status_code rolled_back = 10
status_code rejected = 11
status_code ignored = 12
status_code failed = 13
status_code (other s) = 14

-- `a` equals the constant `b`. The code compares a status with constants only, so `b` is never
-- `other`.
abbrev pub is_status : Status → Status → Bool
is_status b a = status_code a == status_code b

pub data Risk : Type 0 where
  low medium high : Risk
  other : String → Risk

abbrev pub is_high : Risk → Bool
is_high Risk.high = true
is_high _ = false

-- `no_approval` is the constant "NONE".
pub data ApprovalStatus : Type 0 where
  no_approval pending approved rejected expired : ApprovalStatus
  other : String → ApprovalStatus

abbrev pub is_no_approval : ApprovalStatus → Bool
is_no_approval ApprovalStatus.no_approval = true
is_no_approval _ = false

abbrev pub is_approved : ApprovalStatus → Bool
is_approved ApprovalStatus.approved = true
is_approved _ = false

abbrev pub is_pending : ApprovalStatus → Bool
is_pending ApprovalStatus.pending = true
is_pending _ = false

pub data ExecStatus : Type 0 where
  not_started running succeeded failed rolled_back : ExecStatus
  other : String → ExecStatus

abbrev pub is_not_started : ExecStatus → Bool
is_not_started ExecStatus.not_started = true
is_not_started _ = false

abbrev pub is_exec_failed : ExecStatus → Bool
is_exec_failed ExecStatus.failed = true
is_exec_failed _ = false

abbrev pub is_succeeded : ExecStatus → Bool
is_succeeded ExecStatus.succeeded = true
is_succeeded _ = false

pub data TriggerType : Type 0 where
  manual alert : TriggerType
  other : String → TriggerType

pub record DiagnosticSession : Type 0 where
  pub id : Uuid
  pub status : Status
  pub target_service : String
  pub trigger_type : TriggerType
  pub retry_count : ℕ
  pub report_url : Option String
  pub created_at : Time
  pub updated_at : Time

pub record FixAction : Type 0 where
  pub id : Uuid
  pub session_id : Uuid
  pub seq : ℕ
  pub action_type : String
  pub target : String
  pub risk : Risk
  pub rollback_plan : String
  pub requires_approval : Bool
  pub approval_status : ApprovalStatus
  pub execution_status : ExecStatus
  pub ticket_id : Option String
  pub created_at : Time
  pub updated_at : Time

pub record Approval : Type 0 where
  pub id : Uuid
  pub session_id : Uuid
  pub fix_action_id : Uuid
  pub status : ApprovalStatus
  pub request_token : String
  pub requested_at : Time
  pub decided_at : Option Time
  pub decided_by : Option String

-- The event that `LogStateTransition` writes. Its message and its metadata are functions of
-- `from_status` and `to_status`.
pub record SessionEvent : Type 0 where
  pub id : Uuid
  pub session_id : Uuid
  pub event_type : String
  pub source : String
  pub from_status : Status
  pub to_status : Status
  pub timestamp : Time
