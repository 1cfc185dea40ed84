-- ===== src/Bootstrap/Builders.antt =====
-- internal/server/gin.go: the builders of the components that the configuration names, which
-- internal/bootstrap/bootstrap.go repeats.
use microservice_diagnosis.Prelude.{String, Bool, str_eq, if◌then◌else◌}
use microservice_diagnosis.Notify.Incident.{IncidentNotifier, noop, jira, pager_duty}

pub data ApprovalClient : Type 0 where
  noop_client : ApprovalClient
  -- The URL of the callback.
  webhook_client : String → ApprovalClient

unfoldable pub build_approval_client : String → String → ApprovalClient
build_approval_client mode callback =
    if str_eq mode "webhook" then webhook_client callback else noop_client

pub data Executor : Type 0 where
  noop_executor : Executor
  -- The path of the kubeconfig.
  k8s_executor : String → Executor

-- `connects` says whether NewK8sExecutor returns no error.
unfoldable pub build_executor : (String → Bool) → String → String → Executor
build_executor connects mode kubeconfig =
    if str_eq mode "k8s"
    then (if connects kubeconfig then k8s_executor kubeconfig else noop_executor)
    else noop_executor

-- config.Notify, as far as the builder reads it.
pub record NotifyConfig : Type 0 where
  pub incident_notifier : String
  pub jira_base_url : String
  pub jira_auth_token : String
  pub jira_project_key : String
  pub pd_routing_key : String

unfoldable pub build_incident_notifier : NotifyConfig → IncidentNotifier
build_incident_notifier c =
    if str_eq c.incident_notifier "jira"
    then jira c.jira_base_url c.jira_auth_token c.jira_project_key
    else if str_eq c.incident_notifier "pagerduty"
    then pager_duty c.pd_routing_key
    else noop
