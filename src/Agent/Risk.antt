-- ===== src/Agent/Risk.antt =====
-- internal/agent/fix.go: the steps of a plan, the rule table of risks and the fallback plans.
use microservice_diagnosis.Prelude.{
  String, Option, none, some, List, [], ◌∷◌, find?, str_eq, if◌then◌else◌,
}
use microservice_diagnosis.Store.Rows.{Risk, low, medium}

-- The fields of agent.FixStep that Handle reads.
pub record FixStep : Type 0 where
  pub action_type : String
  pub target : String
  pub description : String
  pub rollback_plan : String

abbrev pub step : String → String → String → String → FixStep
step action target description rollback = record {
  action_type = action;
  target = target;
  description = description;
  rollback_plan = rollback;
}

-- The switch of `assessRisk`: the rule of an action type that has one.
pub record Rule : Type 0 where
  pub action_type : String
  pub risk : Risk
  pub rollback : String

abbrev pub rule : String → Risk → String → Rule
rule action risk rollback = record { action_type = action; risk = risk; rollback = rollback }

abbrev pub rules : List Rule
rules =
    rule "restart_pod" low "Pod will be automatically restarted by Kubernetes if health check fails"
    ∷ rule "scale_up" low "Scale back to original replica count"
    ∷ rule "scale_down" medium "Scale back to original replica count"
    ∷ rule "switch_master" Risk.high "Switch back to the original master node or database"
    ∷ rule "data_migration" Risk.high "Halt migration and restore from backup if possible"
    ∷ rule "config_change" medium "Restore original configuration values"
    ∷ rule "rollback_deploy" Risk.high "Redeploy the previous known-good revision"
    ∷ rule "circuit_break" medium "Disable the circuit breaker or rate limit rule"
    ∷ rule "rate_limit" medium "Disable the circuit breaker or rate limit rule"
    ∷ rule "gc_tune" medium "Restore original tuning parameters"
    ∷ rule "connection_pool_tune" medium "Restore original tuning parameters"
    ∷ []

abbrev pub risk_of_rule : Option Rule → Risk × String
risk_of_rule none = (Risk.high, "Unknown action type; manual intervention required for rollback")
risk_of_rule (some r) = (r.risk, r.rollback)

unfoldable pub assess_risk : FixStep → Risk × String
assess_risk s = risk_of_rule (find? (λ r. str_eq r.action_type s.action_type) rules)

unfoldable pub default_fix_steps : String → List FixStep
default_fix_steps pattern =
    if str_eq pattern "database_connection_pool_exhaustion"
    then step "scale_up" "replicas=+2" "Temporarily scale up to handle connection pressure"
        "Scale back to original replicas"
      ∷ step "config_change" "max_connections" "Increase database max connections config"
          "Restore original max_connections value"
      ∷ []
    else if str_eq pattern "timeout_cascade"
    then step "circuit_break" "downstream-service" "Enable circuit breaker for downstream service"
        "Disable circuit breaker"
      ∷ step "scale_up" "replicas=+1" "Add capacity to downstream service"
          "Scale back to original replicas"
      ∷ []
    else if str_eq pattern "n_plus_one_query"
    then step "config_change" "db.pool.size" "Increase DB pool size to absorb query burst"
        "Restore original pool size"
      ∷ step "restart_pod" "api-gateway" "Restart API gateway to clear stale connections"
          "Manual restart if needed"
      ∷ []
    else if str_eq pattern "resource_leak"
    then step "restart_pod" "*" "Restart affected pods to free leaked resources"
        "No automatic rollback, monitor after restart"
      ∷ step "config_change" "gc_percent" "Tune Go GC percent to run more frequently"
          "Restore original GC percent"
      ∷ []
    else step "restart_pod" "*" "Restart target service as fallback mitigation"
        "Monitor service health after restart"
      ∷ []
