-- ===== src/Approval/NoopClient.antt =====
-- internal/approval/client.go: NOOPClient.
pub mod Approved
use microservice_diagnosis.Prelude.{String, Option, none, some}
use microservice_diagnosis.Store.Rows.{Time}
use microservice_diagnosis.Approval.Tokens.{
  ApprovalRequest, ApprovalResult, Tokens, Answer, issue, get, resolve,
}

abbrev pub auto_approval : Time → ApprovalResult
auto_approval now = record {
  decision = "APPROVED";
  decided_by = "system";
  decided_at = now;
  reason = "auto-approved (NOOP mode)";
}

abbrev pub approve_issued : Time → Option String × Tokens → Option String × Tokens
approve_issued now (none, ts) = (none, ts)
approve_issued now (some token, ts) = (some token, (resolve token (auto_approval now) ts).1)

unfoldable pub request_approval :
    Option String → Time → ApprovalRequest → Tokens → Option String × Tokens
request_approval drawn now req ts = approve_issued now (issue drawn now req ts)

unfoldable pub get_approval : Time → String → Tokens → Answer
get_approval now token ts = get now token ts
