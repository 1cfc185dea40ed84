-- ===== src/Executor/K8s.antt =====
-- internal/executor/k8s.go: Execute and what it calls. The API server is a parameter; the messages of
-- the results are left out. A text is the list of its code points.
pub mod Scaling
use microservice_diagnosis.Prelude.{
  ℕ, zero, suc, ℤ, pos, negsuc, ltbℤ, ◌+◌, ◌-◌, ◌==◌, String, Bool, true, false, ◌||◌, Option, none,
  some, List, [], ◌∷◌, ◌++◌, str_eq, if◌then◌else◌,
}
use microservice_diagnosis.Store.Rows.{Uuid}
use microservice_diagnosis.Store.World.{ExecOutcome, succeeded, failed}
use microservice_diagnosis.Server.Evidence.{Text}

pub record Pod : Type 0 where
  pub namespace : Text
  pub name : Text

-- `replicas` is an int32.
pub record Scale : Type 0 where
  pub namespace : Text
  pub name : Text
  pub replicas : ℤ

-- executor.FixAction.
pub record FixAction : Type 0 where
  pub id : Uuid
  pub action_type : String
  pub target : Text

-- The client of the API server; each call sees how many calls came before it, and none or false is an
-- error. The arguments stand in the order of client-go.
pub record Client : Type 0 where
  pub get_pod : Text → Text → ℕ → Option Pod
  pub list_pods : Text → ℕ → Option (List Pod)
  pub delete_pod : Text → Text → ℕ → Bool
  pub get_scale : Text → Text → ℕ → Option Scale
  pub update_scale : Text → Text → Scale → ℕ → Bool

-- The calls so far, and the changes that the API server has accepted.
pub record Cluster : Type 0 where
  pub calls : ℕ
  pub deleted : List (Text × Text)
  pub scaled : List Scale

abbrev pub called : Cluster → Cluster
called k = record k { calls = k.calls + 1 }

abbrev pub slash : ℕ
slash = 47

abbrev equals_sign : ℕ
equals_sign = 61

-- strings.Contains with a one-character text.
abbrev pub contains : ℕ → Text → Bool
contains c [] = false
contains c (d ∷ t) = (d == c) || contains c t

-- strings.SplitN(target, "/", 2) where a slash is there: what stands before and behind the first one.
abbrev pub split_at : ℕ → Text → Text × Text
split_at c [] = ([], [])
split_at c (d ∷ t) = let rest = split_at c t in if d == c then ([], t) else (d ∷ rest.0, rest.1)

abbrev pub default_namespace : Text
default_namespace = b'd' ∷ b'e' ∷ b'f' ∷ b'a' ∷ b'u' ∷ b'l' ∷ b't' ∷ []

-- The namespace and the name of a target.
unfoldable pub parse_target : Text → Text × Text
parse_target target =
    if contains slash target then split_at slash target else (default_namespace, target)

abbrev one_pod : Option Pod → Option (List Pod)
one_pod none = none
one_pod (some p) = some (p ∷ [])

unfoldable lookup_pods : Client → Text → Cluster → Option (List Pod) × Cluster
unfolding parse_target
lookup_pods c target k =
    if contains equals_sign target
    then (c.list_pods target k.calls, called k)
    else (one_pod (c.get_pod (parse_target target).0 (parse_target target).1 k.calls), called k)

-- The loop over the pods: one that is not deleted is skipped.
unfoldable delete_pods : Client → List Pod → Cluster → Cluster
delete_pods c [] k = k
delete_pods c (p ∷ ps) k = delete_pods c ps (
    if c.delete_pod p.namespace p.name k.calls
    then record (called k) { deleted = k.deleted ++ (p.namespace, p.name) ∷ [] }
    else called k)

abbrev restart_found : Client → Option (List Pod) × Cluster → ExecOutcome × Cluster
restart_found c (none, k) = (failed, k)
restart_found c (some pods, k) = (succeeded, delete_pods c pods k)

unfoldable restart_pod : Client → FixAction → Cluster → ExecOutcome × Cluster
restart_pod c action k = restart_found c (lookup_pods c action.target k)

unfoldable pub get_scale : Client → Text → Cluster → Option Scale × Cluster
get_scale c target k =
    (c.get_scale (parse_target target).0 (parse_target target).1 k.calls, called k)

-- `++` of an int32: the greatest one wraps around.
abbrev pub increment : ℤ → ℤ
increment (pos n) = if n == 2147483647 then negsuc 2147483647 else pos (n + 1)
increment (negsuc zero) = pos 0
increment (negsuc (suc n)) = negsuc n

-- `if replicas > 0 { replicas-- }`.
abbrev pub decrement : ℤ → ℤ
decrement (pos n) = pos (n - 1)
decrement (negsuc n) = negsuc n

-- UpdateScale, with the deployment's name as both callers build it.
unfoldable pub update_scale : Client → Scale → Cluster → ExecOutcome × Cluster
update_scale c s k =
    if c.update_scale s.namespace (s.namespace ++ slash ∷ s.name) s k.calls
    then (succeeded, record (called k) { scaled = k.scaled ++ s ∷ [] })
    else (failed, called k)

abbrev scale_found : Client → (ℤ → ℤ) → Option Scale × Cluster → ExecOutcome × Cluster
scale_found c f (none, k) = (failed, k)
scale_found c f (some s, k) = update_scale c (record s { replicas = f s.replicas }) k

unfoldable pub scale_up : Client → FixAction → Cluster → ExecOutcome × Cluster
scale_up c action k = scale_found c increment (get_scale c action.target k)

unfoldable pub scale_down : Client → FixAction → Cluster → ExecOutcome × Cluster
scale_down c action k = scale_found c decrement (get_scale c action.target k)

-- patchConfigmap is a placeholder that makes no call.
abbrev patch_configmap : FixAction → Cluster → ExecOutcome × Cluster
patch_configmap action k = (succeeded, k)

-- `Execute`, whose error is always nil.
unfoldable execute : Client → FixAction → Cluster → ExecOutcome × Cluster
execute c action k =
    if str_eq action.action_type "restart_pod"
    then restart_pod c action k
    else if str_eq action.action_type "scale_up"
    then scale_up c action k
    else if str_eq action.action_type "scale_down"
    then scale_down c action k
    else if str_eq action.action_type "config_change"
    then patch_configmap action k
    else (failed, k)
