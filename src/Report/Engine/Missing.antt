-- ===== src/Report/Engine/Missing.antt =====
-- What the report handlers answer for a session that is not there.
use microservice_diagnosis.Prelude.{false, none, some, ◌≡◌, refl}
use microservice_diagnosis.Store.Rows.{Uuid, Time}
use microservice_diagnosis.Store.World.{World, Env, ok, query}
use microservice_diagnosis.Store.SessionDao
use microservice_diagnosis.Store.SessionDao.{find_session}
use microservice_diagnosis.Report.Data.{load_report_data}
use microservice_diagnosis.Report.Engine.{
  Pandoc, markdown, pdf, missing, internal_error, generate_report, render_report, get_report,
  download_report,
}

-- For a session that does not exist, where the query succeeds, both handlers answer that it is missing
-- when the report is asked for as markdown, and with an internal error when it is asked for as PDF.
pub get_report_missing :
    (env : Env) (pandoc : Pandoc) (now later : Time) (id : Uuid) (w : World)
    → env.fault w.tick ≡ false
    → find_session id w ≡ none
    → ((get_report env pandoc now later (some id) markdown w).0 ≡ ok missing)
      × ((download_report env pandoc now later (some id) markdown w).0 ≡ ok missing)
      × ((get_report env pandoc now later (some id) pdf w).0 ≡ ok internal_error)
      × ((download_report env pandoc now later (some id) pdf w).0 ≡ ok internal_error)
unfolding get_report download_report generate_report render_report load_report_data
    SessionDao.get_by_id query
get_report_missing env pandoc now later id w calm gone =
    (rw (calm, gone) refl, rw (calm, gone) refl, rw (calm, gone) refl, rw (calm, gone) refl)
