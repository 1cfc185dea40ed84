-- ===== src/Store/ApprovalDao.antt =====
-- internal/store/fix_action.go: ApprovalDAO over the table approvals.
use microservice_diagnosis.Prelude.{
  String, Bool, not, ◌&&◌, ◌||◌, Option, none, some, List, [], ◌∷◌, ◌++◌, filter, find?, any,
  update_where, ◌==◌, leb, str_eq, if◌then◌else◌,
}
use microservice_diagnosis.Store.Rows.{Uuid, ApprovalStatus, is_pending, Approval}
use microservice_diagnosis.Store.World.{
  World, Env, M, not_found, pure, throw, ◌>>=◌, call, query, insert,
}
use microservice_diagnosis.Store.SessionDao.{has_session_id}
use microservice_diagnosis.Store.FixActionDao.{has_fix_id}

abbrev pub has_approval_id : Uuid → Approval → Bool
has_approval_id id a = a.id == id

abbrev update_approval : Uuid → (Approval → Approval) → World → World
update_approval id f w = record w { approvals = update_where (has_approval_id id) f w.approvals }

-- The primary key, the unique request token and the two foreign keys.
abbrev approval_allowed : Approval → World → Bool
approval_allowed a w =
    not (any (λ b. b.id == a.id || str_eq b.request_token a.request_token) w.approvals)
    && any (has_session_id a.session_id) w.sessions
    && any (has_fix_id a.fix_action_id) w.fixes

-- `Create`, of an approval whose id and request time are not set yet.
fill : Env → Approval → World → Approval
fill env a w = record a { id = env.new_uuid w.tick; requested_at = env.clock w.tick }

unfoldable pub create : Env → Approval → M Unit
unfolding insert fill
create env a w =
    let b = fill env a w in
    insert env (approval_allowed b) (λ v. record v { approvals = v.approvals ++ b ∷ [] }) w

scan_approval : Option Approval → M Approval
scan_approval none = throw not_found
scan_approval (some a) = pure a

unfoldable pub get_by_id : Env → Uuid → M Approval
unfolding query scan_approval
get_by_id env id = do
  row ← query env (λ w. find? (has_approval_id id) w.approvals)
  scan_approval row

unfoldable get_by_token : Env → String → M Approval
unfolding query scan_approval
get_by_token env token = if str_eq token "" then throw not_found else do
  row ← query env (λ w. find? (λ a. str_eq a.request_token token) w.approvals)
  scan_approval row

unfoldable pub update_decision : Env → Uuid → ApprovalStatus → String → M Unit
unfolding call
update_decision env id status by w =
    call env
      (update_approval id (λ a. record a {
        status = status;
        decided_at = some (env.clock w.tick);
        decided_by = some by;
      }))
      w

-- ORDER BY requested_at.
abbrev insert_by_requested_at : Approval → List Approval → List Approval
insert_by_requested_at a [] = a ∷ []
insert_by_requested_at a (b ∷ bs) =
    if leb a.requested_at b.requested_at then a ∷ b ∷ bs else b ∷ insert_by_requested_at a bs

abbrev order_by_requested_at : List Approval → List Approval
order_by_requested_at [] = []
order_by_requested_at (a ∷ as') = insert_by_requested_at a (order_by_requested_at as')

unfoldable get_pending_by_session_id : Env → Uuid → M (List Approval)
unfolding query
get_pending_by_session_id env session_id = query env (λ w.
    order_by_requested_at
      (filter (λ a. a.session_id == session_id && is_pending a.status) w.approvals))
