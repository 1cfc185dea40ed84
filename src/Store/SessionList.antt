-- ===== src/Store/SessionList.antt =====
-- internal/store/session.go: List. How PostgreSQL compares with ILIKE, and the order of rows of one
-- time, are parameters.
use microservice_diagnosis.Prelude.{
  ℕ, zero, suc, ◌-◌, ◌*◌, ℤ, pos, negsuc, String, Bool, true, ◌&&◌, Option, none, some, List,
  filter, length, take, drop, str_eq, leb, sort_by, ◌==◌, if◌then◌else◌,
}
use microservice_diagnosis.Store.Rows.{Time, Status, is_status, DiagnosticSession}
use microservice_diagnosis.Store.World.{World, Env, M, pure, ◌>>=◌, query}

-- A time is none where it is zero, and the status is `other ""` where it is empty.
pub record ListFilter : Type 0 where
  pub status : Status
  pub target_service : String
  pub from : Option Time
  pub to : Option Time
  pub keyword : String
  pub page : ℤ
  pub page_size : ℤ

-- `like` says whether the service or the id of a row contains a keyword, and `tie` which of two rows of
-- one time a query puts first, which may differ from query to query.
pub record Database : Type 0 where
  pub like : String → DiagnosticSession → Bool
  pub tie : ℕ → DiagnosticSession → DiagnosticSession → Bool

-- ORDER BY created_at DESC, in the query at a tick.
abbrev pub comes_first : Database → ℕ → DiagnosticSession → DiagnosticSession → Bool
comes_first d tick a b =
    if a.created_at == b.created_at then d.tie tick a b else leb b.created_at a.created_at

abbrev same_status : Status → Status → Bool
same_status (Status.other s) (Status.other t) = str_eq s t
same_status s t = is_status t s

abbrev has_status : Status → DiagnosticSession → Bool
has_status s row = if same_status s (Status.other "") then true else same_status row.status s

abbrev has_service : String → DiagnosticSession → Bool
has_service service row = if str_eq service "" then true else str_eq row.target_service service

abbrev not_before : Option Time → DiagnosticSession → Bool
not_before none row = true
not_before (some t) row = leb t row.created_at

abbrev not_after : Option Time → DiagnosticSession → Bool
not_after none row = true
not_after (some t) row = leb row.created_at t

abbrev has_keyword : Database → String → DiagnosticSession → Bool
has_keyword d keyword row = if str_eq keyword "" then true else d.like keyword row

-- The clauses of the filter, joined by AND.
abbrev pub matches : Database → ListFilter → DiagnosticSession → Bool
matches d f row =
    has_status f.status row
    && has_service f.target_service row
    && not_before f.from row
    && not_after f.to row
    && has_keyword d f.keyword row

abbrev pub at_least_one : ℕ → ℤ → ℕ
at_least_one default (pos zero) = default
at_least_one default (pos (suc n)) = suc n
at_least_one default (negsuc n) = default

abbrev pub page_size_of : ListFilter → ℕ
page_size_of f = at_least_one 20 f.page_size

abbrev pub offset_of : ListFilter → ℕ
offset_of f = (at_least_one 1 f.page - 1) * page_size_of f

abbrev pub matching : Database → ListFilter → World → List DiagnosticSession
matching d f w = filter (matches d f) w.sessions

-- `List`: the rows of the page, and the number of all that match.
unfoldable pub list : Env → Database → ListFilter → M (List DiagnosticSession × ℕ)
list env d f = do
  total ← query env (λ w. length (matching d f w))
  rows ← query env (λ w.
      take (page_size_of f) (drop (offset_of f) (sort_by (comes_first d w.tick) (matching d f w))))
  pure (rows, total)
