-- ===== src/Bus/Config.antt =====
-- internal/bus/bus.go: Config, its defaults and its invariants. Durations are in nanoseconds.
pub mod Defaults
use microservice_diagnosis.Prelude.{
  ℕ, ℤ, pos, ltbℤ, is_positive, String, Bool, true, false, not, Option, none, some, List, [], ◌∷◌,
  str_eq, any, if◌then◌else◌,
}

pub record Config : Type 0 where
  pub brokers : List String
  pub dial_timeout : ℤ
  pub write_timeout : ℤ
  pub batch_size : ℤ
  pub batch_bytes : ℤ
  pub batch_timeout : ℤ
  pub required_acks : String
  pub min_bytes : ℤ
  pub max_bytes : ℤ
  pub max_wait : ℤ
  pub replay_idle : ℤ
  pub heartbeat_interval : ℤ
  pub session_timeout : ℤ
  pub rebalance_timeout : ℤ
  pub join_group_backoff : ℤ

pub data ConfigError : Type 0 where
  empty_brokers empty_broker invalid_required_acks : ConfigError
  -- The field that is not above its bound.
  bad_field : String → ConfigError

-- `if v <= 0 { v = d }`.
abbrev pub or_default : ℤ → ℤ → ℤ
or_default d v = if is_positive v then v else d

abbrev or_all : String → String
or_all acks = if str_eq acks "" then "all" else acks

unfoldable pub with_defaults : Config → Config
with_defaults c = record c {
  dial_timeout = or_default (pos 10000000000) c.dial_timeout;
  write_timeout = or_default (pos 10000000000) c.write_timeout;
  batch_size = or_default (pos 100) c.batch_size;
  batch_bytes = or_default (pos 1048576) c.batch_bytes;
  batch_timeout = or_default (pos 100000000) c.batch_timeout;
  required_acks = or_all c.required_acks;
  min_bytes = or_default (pos 1) c.min_bytes;
  max_bytes = or_default (pos 1048576) c.max_bytes;
  max_wait = or_default (pos 500000000) c.max_wait;
  replay_idle = or_default (pos 2000000000) c.replay_idle;
  heartbeat_interval = or_default (pos 3000000000) c.heartbeat_interval;
  session_timeout = or_default (pos 30000000000) c.session_timeout;
  rebalance_timeout = or_default (pos 30000000000) c.rebalance_timeout;
  join_group_backoff = or_default (pos 5000000000) c.join_group_backoff;
}

pub data RequiredAcks : Type 0 where
  require_none require_one require_all : RequiredAcks

-- `clean` is strings.ToLower after strings.TrimSpace.
unfoldable pub required_acks : (String → String) → Config → Option RequiredAcks
required_acks clean c =
    let acks = clean c.required_acks in
    if str_eq acks "none"
    then some require_none
    else if str_eq acks "one"
    then some require_one
    else if str_eq acks "all"
    then some require_all
    else none

abbrev pub is_known : Option RequiredAcks → Bool
is_known none = false
is_known (some acks) = true

abbrev pub is_empty : List String → Bool
is_empty [] = true
is_empty (b ∷ bs) = false

-- `if !ok { return e }`, and else the checks that follow.
abbrev pub require : Bool → ConfigError → Option ConfigError → Option ConfigError
require true e rest = rest
require false e rest = some e

-- The first check that fails; `trim` is strings.TrimSpace.
unfoldable pub validate : (String → String) → (String → String) → Config → Option ConfigError
validate trim clean c = require (not (is_empty c.brokers)) empty_brokers (
    require (not (any (λ b. str_eq (trim b) "") c.brokers)) empty_broker (
      require (is_known (required_acks clean c)) invalid_required_acks (
        require (is_positive c.dial_timeout) (bad_field "dial_timeout") (
          require (is_positive c.write_timeout) (bad_field "write_timeout") (
            require (is_positive c.batch_size) (bad_field "batch_size") (
              require (is_positive c.batch_bytes) (bad_field "batch_bytes") (
                require (is_positive c.batch_timeout) (bad_field "batch_timeout") (
                  require (is_positive c.min_bytes) (bad_field "min_bytes") (
                    require (not (ltbℤ c.max_bytes c.min_bytes)) (bad_field "max_bytes") (
                      require (is_positive c.max_wait) (bad_field "max_wait") (
                        require (is_positive c.replay_idle) (bad_field "replay_idle") (
                          require (is_positive c.heartbeat_interval)
                            (bad_field "heartbeat_interval")
                            (require (not (ltbℤ c.session_timeout c.heartbeat_interval))
                              (bad_field "session_timeout")
                              (require (is_positive c.rebalance_timeout)
                                (bad_field "rebalance_timeout")
                                (require (is_positive c.join_group_backoff)
                                  (bad_field "join_group_backoff") none)))))))))))))))
