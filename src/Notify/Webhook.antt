-- ===== src/Notify/Webhook.antt =====
-- internal/notify/webhook.go: Notify and deliver. What the HTTP client answers to an attempt is a
-- parameter, and so are the rows that ListEnabled reads and the HMAC of sign. The deliveries to the
-- channels run at the same time and share nothing, so each is a run of its own.
pub mod Attempts
use microservice_diagnosis.Prelude.{
  ℕ, zero, suc, ◌+◌, ◌*◌, String, Bool, true, false, ◌&&◌, Option, none, some, List, [], ◌∷◌, ◌++◌,
  map, filter, ltb, leb, str_eq, if◌then◌else◌,
}
use microservice_diagnosis.Store.Rows.{Uuid}
use microservice_diagnosis.Store.World.{DiagnosticEvent}

pub record WebhookConfig : Type 0 where
  pub id : Uuid
  pub name : String
  pub channel : String
  pub url : String
  pub secret : String
  pub enabled : Bool

-- An attempt: NewRequest fails, Do fails, or there is a response with a status code.
pub data Reply : Type 0 where
  not_built not_sent : Reply
  answered : ℕ → Reply

pub data DeliveryStatus : Type 0 where
  success fail : DeliveryStatus

pub record WebhookDeliveryLog : Type 0 where
  pub session_id : Uuid
  pub channel : String
  pub status : DeliveryStatus
  pub attempt : ℕ
  pub response_code : ℕ

-- A POST, with the signature that is sent if there is a secret.
pub record Request : Type 0 where
  pub url : String
  pub body : String
  pub signature : Option String

-- What one delivery has done: the requests, the rows handed to LogDelivery, and the seconds slept.
pub record Delivery : Type 0 where
  pub requests : List Request
  pub logs : List WebhookDeliveryLog
  pub slept : ℕ

-- `reply` by the attempt; `sign` is the HMAC of a body and a secret, in hexadecimal.
pub record Channel : Type 0 where
  pub reply : WebhookConfig → ℕ → Reply
  pub sign : String → String → String
  pub marshal : DiagnosticEvent → String

abbrev pub max_attempts : ℕ
max_attempts = 3

abbrev pub is_delivered : Reply → Bool
is_delivered (answered code) = leb 200 code && ltb code 300
is_delivered _ = false

abbrev pub code_of : Reply → ℕ
code_of (answered code) = code
code_of _ = 0

abbrev pub request_for : Channel → WebhookConfig → String → Request
request_for h cfg body = record {
  url = cfg.url;
  body = body;
  signature = if str_eq cfg.secret "" then none else some (h.sign body cfg.secret);
}

abbrev pub log_entry :
    WebhookConfig → DiagnosticEvent → ℕ → DeliveryStatus → Reply → WebhookDeliveryLog
log_entry cfg e attempt status reply = record {
  session_id = e.session_id;
  channel = cfg.channel;
  status = status;
  attempt = attempt;
  response_code = code_of reply;
}

-- The backoff, which follows an attempt that is not the last.
abbrev pub backoff : ℕ → ℕ
backoff attempt = if ltb attempt max_attempts then attempt * attempt else 0

abbrev pub posted :
    Channel → WebhookConfig → DiagnosticEvent → ℕ → DeliveryStatus → Delivery → Delivery
posted h cfg e attempt status d = record d {
  requests = d.requests ++ request_for h cfg (h.marshal e) ∷ [];
  logs = d.logs ++ log_entry cfg e attempt status (h.reply cfg attempt) ∷ [];
}

abbrev pub after_failure :
    Channel → WebhookConfig → DiagnosticEvent → ℕ → Reply → Delivery → Delivery
after_failure h cfg e attempt not_built d = d
after_failure h cfg e attempt reply d =
    let failed = posted h cfg e attempt fail d in
    record failed { slept = failed.slept + backoff attempt }

-- The loop of deliver, with the attempts that are left; true if one has succeeded.
unfoldable pub attempts :
    Channel → WebhookConfig → DiagnosticEvent → ℕ → ℕ → Delivery → Bool × Delivery
attempts h cfg e zero attempt d = (false, d)
attempts h cfg e (suc left) attempt d =
    let reply = h.reply cfg attempt in
    let rest = attempts h cfg e left (attempt + 1) (after_failure h cfg e attempt reply d) in
    if is_delivered reply then (true, posted h cfg e attempt success d) else rest

abbrev pub no_delivery : Delivery
no_delivery = record { requests = []; logs = []; slept = 0 }

unfoldable pub deliver : Channel → WebhookConfig → DiagnosticEvent → Bool × Delivery
deliver h cfg e = attempts h cfg e max_attempts 1 no_delivery

-- `Notify`: none is an error of ListEnabled, and else there is one delivery for each row that it reads.
unfoldable pub notify :
    Channel → Option (List WebhookConfig) → DiagnosticEvent → Option (List (Bool × Delivery))
notify h none e = none
notify h (some table) e = some (map (λ cfg. deliver h cfg e) (filter (λ cfg. cfg.enabled) table))
