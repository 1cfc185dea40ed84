-- ===== src/Approval/Tokens.antt =====
-- internal/approval/client.go: TokenManager. A token is what hex.EncodeToString makes of sixteen
-- random bytes; times are seconds.
pub mod Lookup
use microservice_diagnosis.Prelude.{
  ℕ, ◌+◌, String, Bool, true, false, Option, none, some, List, [], ◌∷◌, str_eq, ltb, if◌then◌else◌,
}
use microservice_diagnosis.Store.Rows.{Uuid, Time}

pub record ApprovalRequest : Type 0 where
  pub session_id : Uuid
  pub fix_action_id : Uuid
  pub summary : String
  pub risk : String
  pub target : String
  pub requested_by : String

pub record ApprovalResult : Type 0 where
  pub decision : String
  pub decided_by : String
  pub decided_at : Time
  pub reason : String

pub record TokenEntry : Type 0 where
  pub req : ApprovalRequest
  pub result : Option ApprovalResult
  pub created : Time
  pub expires : Time

-- The map of TokenManager: the first entry of a token is its value.
abbrev pub Tokens : Type 0
Tokens = List (String × TokenEntry)

-- 24 hours.
abbrev pub default_ttl : ℕ
default_ttl = 86400

unfoldable pub entry_of : String → Tokens → Option TokenEntry
entry_of token [] = none
entry_of token ((t, e) ∷ ts) =
    let rest = entry_of token ts in if str_eq t token then some e else rest

-- The token that is drawn is none when the random source fails.
abbrev pub issue : Option String → Time → ApprovalRequest → Tokens → Option String × Tokens
issue none now req ts = (none, ts)
issue (some token) now req ts = (
  some token,
  (token, record { req = req; result = none; created = now; expires = now + default_ttl }) ∷ ts,
)

-- What Get and GetApproval return: the request and its result, or none where there is no entry.
abbrev pub Answer : Type 0
Answer = Option (ApprovalRequest × Option ApprovalResult)

abbrev pub unless_expired : Time → Option TokenEntry → Answer
unless_expired now none = none
unless_expired now (some e) = if ltb e.expires now then none else some (e.req, e.result)

-- `Get`.
unfoldable pub get : Time → String → Tokens → Answer
get now token ts = unless_expired now (entry_of token ts)

-- `Resolve`: the entry of a token gets a result, whether it has one or has expired; true if there is
-- an entry.
unfoldable pub resolve : String → ApprovalResult → Tokens → Bool × Tokens
resolve token result [] = (false, [])
resolve token result ((t, e) ∷ ts) =
    let rest = resolve token result ts in
    if str_eq t token
    then (true, (t, record e { result = some result }) ∷ ts)
    else (rest.0, (t, e) ∷ rest.1)

abbrev pub cancellation : Time → ApprovalResult
cancellation now = record {
  decision = "REJECTED";
  decided_by = "system";
  decided_at = now;
  reason = "cancelled";
}

-- The Resolve that CancelApproval of either client makes.
unfoldable pub cancel_approval : Time → String → Tokens → Tokens
cancel_approval now token ts = (resolve token (cancellation now) ts).1
