-- ===== src/Notify/Incident/Tickets.antt =====
-- Which incidents get the same ticket.
use microservice_diagnosis.Prelude.{ℕ, ◌+◌, ◌*◌, String, ◌<>◌, pos, format_int, ◌≡◌, ap, arith}
use microservice_diagnosis.Notify.Incident.{Incident, jira, create_incident}

-- Two incidents of a Jira project get the same ticket id whenever their times are a multiple of ten
-- thousand seconds apart, whatever the incidents and their sessions are.
pub create_incident_repeats :
    (url token key : String) (unix n : ℕ) (i j : Incident)
    → create_incident (jira url token key) (unix + n * 10000) i
      ≡ create_incident (jira url token key) unix j
unfolding create_incident
create_incident_repeats url token key unix n i j =
    ap (λ k. key <> ("-" <> format_int (pos k))) (omega arith)
