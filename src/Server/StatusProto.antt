-- ===== src/Server/StatusProto.antt =====
-- internal/server/orchestrator.go: statusToProto and statusProtoToString.
pub mod RoundTrip
use microservice_diagnosis.Prelude.{ℕ}
use microservice_diagnosis.Store.Rows.{Status}

-- The enum of the HTTP interface; its numbers that have no name are `undefined`.
pub data SessionStatus : Type 0 where
  unspecified : SessionStatus
  created collecting analyzing rca_done fix_proposed awaiting_approval fix_suggested : SessionStatus
  fix_executing verifying resolved rolled_back rejected ignored failed : SessionStatus
  undefined : ℕ → SessionStatus

unfoldable pub status_to_proto : Status → SessionStatus
status_to_proto Status.created = SessionStatus.created
status_to_proto Status.collecting = SessionStatus.collecting
status_to_proto Status.analyzing = SessionStatus.analyzing
status_to_proto Status.rca_done = SessionStatus.rca_done
status_to_proto Status.fix_proposed = SessionStatus.fix_proposed
status_to_proto Status.awaiting_approval = SessionStatus.awaiting_approval
status_to_proto Status.fix_suggested = SessionStatus.fix_suggested
status_to_proto Status.fix_executing = SessionStatus.fix_executing
status_to_proto Status.verifying = SessionStatus.verifying
status_to_proto Status.resolved = SessionStatus.resolved
status_to_proto Status.rolled_back = SessionStatus.rolled_back
status_to_proto Status.rejected = SessionStatus.rejected
status_to_proto Status.ignored = SessionStatus.ignored
status_to_proto Status.failed = SessionStatus.failed
status_to_proto (Status.other s) = unspecified

unfoldable pub status_proto_to_string : SessionStatus → Status
status_proto_to_string SessionStatus.created = Status.created
status_proto_to_string SessionStatus.collecting = Status.collecting
status_proto_to_string SessionStatus.analyzing = Status.analyzing
status_proto_to_string SessionStatus.rca_done = Status.rca_done
status_proto_to_string SessionStatus.fix_proposed = Status.fix_proposed
status_proto_to_string SessionStatus.awaiting_approval = Status.awaiting_approval
status_proto_to_string SessionStatus.fix_suggested = Status.fix_suggested
status_proto_to_string SessionStatus.fix_executing = Status.fix_executing
status_proto_to_string SessionStatus.verifying = Status.verifying
status_proto_to_string SessionStatus.resolved = Status.resolved
status_proto_to_string SessionStatus.rolled_back = Status.rolled_back
status_proto_to_string SessionStatus.rejected = Status.rejected
status_proto_to_string SessionStatus.ignored = Status.ignored
status_proto_to_string SessionStatus.failed = Status.failed
status_proto_to_string unspecified = Status.other ""
status_proto_to_string (undefined n) = Status.other ""
