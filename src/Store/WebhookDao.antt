-- ===== src/Store/WebhookDao.antt =====
-- internal/store/webhook.go: the WebhookDAO of the store, over the tables webhook_configs and
-- webhook_deliveries. `fails` is a statement that the database refuses or cannot be asked, for a column
-- that is too long or a session that does not exist too; the primary keys and the range of INT are
-- written out.
pub mod Log
use microservice_diagnosis.Prelude.{
  ℕ, ◌+◌, String, Bool, true, false, ◌&&◌, ◌||◌, Option, none, some, List, [], ◌∷◌, ◌++◌, find?,
  any, filter, update_where, str_eq, leb, ◌==◌, if◌then◌else◌,
}
use microservice_diagnosis.Store.Rows.{Uuid, Time}
use microservice_diagnosis.Store.World.{Error, driver, not_found, Result, ok, err}

pub record WebhookConfig : Type 0 where
  pub id : Uuid
  pub name : String
  pub channel : String
  pub url : String
  pub secret : String
  pub enabled : Bool

-- The constants for the status of a delivery.
abbrev pub status_pending : String
status_pending = "PENDING"

abbrev pub status_success : String
status_success = "SUCCESS"

abbrev pub status_failed : String
status_failed = "FAILED"

-- `created_at` is none for the zero time.
pub record WebhookDelivery : Type 0 where
  pub id : Uuid
  pub session_id : Option Uuid
  pub channel : String
  pub status : String
  pub attempt : ℕ
  pub last_error : Option String
  pub delivered_at : Option Time
  pub created_at : Option Time

-- `uuid.Nil`.
abbrev nil_uuid : Uuid
nil_uuid = 0

abbrev or_fresh : Uuid → Uuid → Uuid
or_fresh id fresh = if id == nil_uuid then fresh else id

abbrev pub has_config_id : Uuid → WebhookConfig → Bool
has_config_id id c = c.id == id

abbrev pub has_delivery_id : Uuid → WebhookDelivery → Bool
has_delivery_id id d = d.id == id

abbrev config_row : Uuid → WebhookConfig → WebhookConfig
config_row fresh wc = record wc { id = or_fresh wc.id fresh }

-- `CreateConfig`: whether it returns no error, and the table.
unfoldable pub create_config :
    Bool → Uuid → WebhookConfig → List WebhookConfig → Bool × List WebhookConfig
create_config fails fresh wc rows =
    let row = config_row fresh wc in
    if fails || any (has_config_id row.id) rows then (false, rows) else (true, rows ++ row ∷ [])

-- `enabled = true AND ($1 = '' OR channel = $1)`.
abbrev pub is_selected : String → WebhookConfig → Bool
is_selected channel c = c.enabled && (str_eq channel "" || str_eq c.channel channel)

-- `GetEnabledConfigs`, none for an error.
unfoldable pub get_enabled_configs :
    Bool → String → List WebhookConfig → Option (List WebhookConfig)
get_enabled_configs fails channel rows =
    if fails then none else some (filter (is_selected channel) rows)

abbrev or_now : Option Time → Time → Option Time
or_now none now = some now
or_now (some t) now = some t

-- What CreateDelivery fills in.
abbrev pub delivery_row : Uuid → Time → WebhookDelivery → WebhookDelivery
delivery_row fresh now d = record d {
  id = or_fresh d.id fresh;
  created_at = or_now d.created_at now;
  status = if str_eq d.status "" then status_pending else d.status;
}

unfoldable pub create_delivery :
    Bool → Uuid → Time → WebhookDelivery → List WebhookDelivery → Bool × List WebhookDelivery
create_delivery fails fresh now d rows =
    let row = delivery_row fresh now d in
    if fails || any (has_delivery_id row.id) rows then (false, rows) else (true, rows ++ row ∷ [])

abbrev pub succeeded : Time → WebhookDelivery → WebhookDelivery
succeeded now d = record d { status = status_success; delivered_at = some now }

-- The number of rows is not looked at: the id of no row is no error.
unfoldable pub update_delivery_success :
    Bool → Uuid → Time → List WebhookDelivery → Bool × List WebhookDelivery
update_delivery_success fails id now rows =
    if fails then (false, rows) else (true, update_where (has_delivery_id id) (succeeded now) rows)

abbrev pub failed : String → WebhookDelivery → WebhookDelivery
failed msg d = record d { status = status_failed; attempt = d.attempt + 1; last_error = some msg }

-- The largest INT: one attempt more is an error of PostgreSQL.
abbrev pub max_int : ℕ
max_int = 2147483647

abbrev pub overflows : Uuid → WebhookDelivery → Bool
overflows id d = has_delivery_id id d && leb max_int d.attempt

unfoldable pub update_delivery_failure :
    Bool → Uuid → String → List WebhookDelivery → Bool × List WebhookDelivery
update_delivery_failure fails id msg rows =
    if fails || any (overflows id) rows
    then (false, rows)
    else (true, update_where (has_delivery_id id) (failed msg) rows)

abbrev scan_webhook_delivery : Option WebhookDelivery → Result WebhookDelivery
scan_webhook_delivery none = err not_found
scan_webhook_delivery (some d) = ok d

unfoldable pub get_delivery_by_id : Bool → Uuid → List WebhookDelivery → Result WebhookDelivery
get_delivery_by_id fails id rows =
    if fails then err driver else scan_webhook_delivery (find? (has_delivery_id id) rows)
