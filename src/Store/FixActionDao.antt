-- ===== src/Store/FixActionDao.antt =====
-- internal/store/fix_action.go: FixActionDAO over the table fix_actions, whose constraints stand in
-- migrations/.
pub mod Upserts
use microservice_diagnosis.Prelude.{
  String, Bool, not, ◌&&◌, ◌||◌, Option, none, some, List, [], ◌∷◌, ◌++◌, filter, find?, any,
  update_where, ◌==◌, leb, sort_by, if◌then◌else◌,
}
use microservice_diagnosis.Store.Rows.{Uuid, ApprovalStatus, ExecStatus, FixAction}
use microservice_diagnosis.Store.World.{
  World, Env, M, not_found, pure, throw, ◌>>=◌, ◌>>◌, call, query, insert,
}
use microservice_diagnosis.Store.SessionDao.{has_session_id}

abbrev pub has_fix_id : Uuid → FixAction → Bool
has_fix_id id fa = fa.id == id

abbrev pub in_session : Uuid → FixAction → Bool
in_session session_id fa = fa.session_id == session_id

abbrev update_fix : Uuid → (FixAction → FixAction) → World → World
update_fix id f w = record w { fixes = update_where (has_fix_id id) f w.fixes }

-- The primary key, the foreign key and the unique (session_id, seq) of the table.
abbrev pub fix_allowed : FixAction → World → Bool
fix_allowed fa w =
    not (any (λ g. g.id == fa.id || g.session_id == fa.session_id && g.seq == fa.seq) w.fixes)
    && any (has_session_id fa.session_id) w.sessions

-- `Create`, of an action whose id and times are not set yet. It fills them in, also when the
-- statement then fails, so the caller goes on with the filled action: `fill`.
unfoldable pub fill : Env → FixAction → World → FixAction
fill env fa w = record fa {
  id = env.new_uuid w.tick;
  created_at = env.clock w.tick;
  updated_at = env.clock w.tick;
}

unfoldable pub create : Env → FixAction → M Unit
unfolding insert
create env fa = insert env (fix_allowed fa) (λ w. record w { fixes = w.fixes ++ fa ∷ [] })

scan_fix_action : Option FixAction → M FixAction
scan_fix_action none = throw not_found
scan_fix_action (some fa) = pure fa

unfoldable pub get_by_id : Env → Uuid → M FixAction
unfolding query scan_fix_action
get_by_id env id = do row ← query env (λ w. find? (has_fix_id id) w.fixes); scan_fix_action row

-- ORDER BY seq.
abbrev pub order_by_seq : List FixAction → List FixAction
order_by_seq fas = sort_by (λ a b. leb a.seq b.seq) fas

abbrev pub fixes_of : Uuid → World → List FixAction
fixes_of session_id w = order_by_seq (filter (in_session session_id) w.fixes)

unfoldable pub get_by_session_id : Env → Uuid → M (List FixAction)
unfolding query
get_by_session_id env session_id = query env (fixes_of session_id)

unfoldable pub update_approval_status : Env → Uuid → ApprovalStatus → M Unit
unfolding call
update_approval_status env id status w =
    call env
      (update_fix id (λ fa. record fa { approval_status = status; updated_at = env.clock w.tick }))
      w

unfoldable pub update_execution_status : Env → Uuid → ExecStatus → M Unit
unfolding call
update_execution_status env id status w =
    call env
      (update_fix id (λ fa. record fa { execution_status = status; updated_at = env.clock w.tick }))
      w

unfoldable pub set_ticket_id : Env → Uuid → String → M Unit
unfolding call
set_ticket_id env id ticket w =
    call env
      (update_fix id (λ fa. record fa { ticket_id = some ticket; updated_at = env.clock w.tick })) w

-- uuid.Nil.
abbrev nil_uuid : Uuid
nil_uuid = 0

abbrev pub with_id : Env → FixAction → World → FixAction
with_id env fa w = record fa { id = if fa.id == nil_uuid then env.new_uuid w.tick else fa.id }

-- The columns of DO UPDATE; the session, the sequence number and the creation time stay.
abbrev pub overwrite : FixAction → FixAction → FixAction
overwrite fa g = record g {
  action_type = fa.action_type;
  target = fa.target;
  risk = fa.risk;
  rollback_plan = fa.rollback_plan;
  requires_approval = fa.requires_approval;
  approval_status = fa.approval_status;
  execution_status = fa.execution_status;
  ticket_id = fa.ticket_id;
  updated_at = fa.updated_at;
}

abbrev pub upsert_row : FixAction → World → World
upsert_row fa w =
    if any (has_fix_id fa.id) w.fixes
    then update_fix fa.id (overwrite fa) w
    else record w { fixes = w.fixes ++ fa ∷ [] }

-- The constraints hold for a row that is inserted; an update keeps the columns that they read.
abbrev pub upsert_allowed : FixAction → World → Bool
upsert_allowed fa w = any (has_fix_id fa.id) w.fixes || fix_allowed fa w

-- INSERT ... ON CONFLICT (id) DO UPDATE, of a row that has its id.
unfoldable pub upsert_as : Env → FixAction → M Uuid
unfolding insert
upsert_as env fa = do insert env (upsert_allowed fa) (upsert_row fa); pure fa.id

-- `Upsert`.
unfoldable pub upsert : Env → FixAction → M Uuid
upsert env fa w = upsert_as env (with_id env fa w) w
