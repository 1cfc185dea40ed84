-- ===== src/Approval/WebhookClient.antt =====
-- internal/approval/client.go: WebhookClient. The HTTP client behind it is a parameter, with what its
-- calls answer.
pub mod Cancelled
use microservice_diagnosis.Prelude.{String, ◌<>◌, Bool, Option, none, some, if◌then◌else◌}
use microservice_diagnosis.Store.Rows.{Time}
use microservice_diagnosis.Approval.Tokens
use microservice_diagnosis.Approval.Tokens.{
  ApprovalRequest, ApprovalResult, Tokens, Answer, issue, get, resolve,
}

pub record WebhookResponse : Type 0 where
  pub decision : String
  pub decided_by : String
  pub reason : String

abbrev pub decided : Time → WebhookResponse → ApprovalResult
decided now r = record {
  decision = r.decision;
  decided_by = r.decided_by;
  decided_at = now;
  reason = r.reason;
}

-- The URL that a cancellation is posted to; the error of the POST is dropped.
abbrev pub cancel_url : String → String → String
cancel_url callback token = callback <> ("/cancel?token=" <> token)

-- `CancelApproval`: the URL of its POST, and the tokens.
unfoldable pub cancel_approval : String → Time → String → Tokens → String × Tokens
cancel_approval callback now token ts =
    (cancel_url callback token, Tokens.cancel_approval now token ts)

abbrev posted : Bool → Option String × Tokens → Option String × Tokens
posted sent (none, ts) = (none, ts)
posted sent (some token, ts) = (if sent then some token else none, ts)

abbrev pub result_of : Answer → Option ApprovalResult
result_of none = none
result_of (some (req, result)) = result

-- The poll has no answer for an error and for a response that is nil.
abbrev pub after_poll :
    Time → Time → String → Option WebhookResponse → Answer → Tokens → Answer × Tokens
after_poll now later token polled none ts = (none, ts)
after_poll now later token none (some (req, old)) ts = (some (req, none), ts)
after_poll now later token (some r) (some (req, old)) ts =
    let updated = (resolve token (decided now r) ts).1 in
    (some (req, result_of (get later token updated)), updated)

-- `sent` says whether the POST to the callback succeeds.
unfoldable pub request_approval :
    Bool → Option String → Time → ApprovalRequest → Tokens → Option String × Tokens
request_approval sent drawn now req ts = posted sent (issue drawn now req ts)

-- `now` is the time of the first look-up and of the decision, `later` that of the second look-up.
unfoldable pub get_approval :
    Time → Time → Option WebhookResponse → String → Tokens → Answer × Tokens
get_approval now later polled token ts = after_poll now later token polled (get now token ts) ts
