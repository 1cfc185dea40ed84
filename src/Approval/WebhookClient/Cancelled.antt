-- ===== src/Approval/WebhookClient/Cancelled.antt =====
-- What a cancellation changes.
use microservice_diagnosis.Prelude.{Option, none, some, ltb, if◌then◌else◌}
use microservice_diagnosis.Store.Rows.{Time}
use microservice_diagnosis.Approval.Tokens
use microservice_diagnosis.Approval.Tokens.{TokenEntry, Tokens, Answer}
use microservice_diagnosis.Approval.WebhookClient.{WebhookResponse, decided}

-- The answer after a poll, from the token's entry.
abbrev pub answer_of : Time → Time → Option WebhookResponse → Option TokenEntry → Answer
answer_of now later polled none = none
answer_of now later none (some e) = if ltb e.expires now then none else some (e.req, none)
answer_of now later (some r) (some e) =
    if ltb e.expires now
    then none
    else some (e.req, if ltb e.expires later then none else some (decided now r))
