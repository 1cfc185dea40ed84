-- ===== src/Bus/Topic.antt =====
-- internal/bus/topic.go: the names of topics and of consumer groups.
pub mod Groups
use microservice_diagnosis.Prelude.{String, ◌<>◌, has_prefix, trim_prefix, if◌then◌else◌}

-- TopicPrefix and the dot behind it.
abbrev pub dotted_prefix : String
dotted_prefix = "mfdh."

-- `Topic`.
unfoldable pub topic : String → String
topic base = if has_prefix base dotted_prefix then base else dotted_prefix <> base

-- `GroupID`.
unfoldable pub group_id : String → String → String
group_id service t = "mfdh-" <> (service <> ("-" <> trim_prefix t dotted_prefix))
