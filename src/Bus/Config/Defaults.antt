-- ===== src/Bus/Config/Defaults.antt =====
-- What the defaults of the transport's configuration guarantee.
use microservice_diagnosis.Prelude.{
  ℤ, pos, ◌&&◌, ◌↔◌, ltbℤ, is_positive, String, Bool, true, false, not, none, ◌≡◌, refl, arith,
  str_eq, any, Bool-cases, inl, inr,
}
use microservice_diagnosis.Bus.Config.{
  Config, empty_brokers, empty_broker, invalid_required_acks, bad_field, or_default, with_defaults,
  required_acks, is_known, is_empty, require, validate,
}

or_default_positive : (d v : ℤ) → is_positive d ≡ true → is_positive (or_default d v) ≡ true
or_default_positive d v h = elim (Bool-cases (is_positive v)) [ inl e ↦ rw e e | inr e ↦ rw e h ]

-- The checks that depend on the values the caller has given.
abbrev pub caller_checks : (String → String) → (String → String) → Config → Bool
caller_checks trim clean c =
    not (is_empty c.brokers)
    && (not (any (λ b. str_eq (trim b) "") c.brokers)
        && (is_known (required_acks clean c)
            && (not (ltbℤ c.max_bytes c.min_bytes)
                && not (ltbℤ c.session_timeout c.heartbeat_interval))))

checks_lem :
    (a b c d e : Bool)
    → (require a empty_brokers (
          require b empty_broker (
            require c invalid_required_acks
              (require d (bad_field "max_bytes") (require e (bad_field "session_timeout") none))))
        ≡ none)
      ↔ ((a && (b && (c && (d && e)))) ≡ true)
checks_lem true true true true true = (λ h. refl, λ h. refl)
checks_lem true true true true false = ground arith
checks_lem true true true false e = ground arith
checks_lem true true false d e = ground arith
checks_lem true false c d e = ground arith
checks_lem false b c d e = ground arith

-- With the defaults filled in, Validate accepts a configuration exactly when it names brokers, none of
-- them blank, its acknowledgement level is known, and the upper bounds of the fetch size and of the
-- session are not below the lower ones: no duration or size that was left out is refused.
pub validate-with_defaults :
    (trim clean : String → String) (c : Config)
    → (validate trim clean (with_defaults c) ≡ none)
      ↔ (caller_checks trim clean (with_defaults c) ≡ true)
unfolding validate with_defaults
validate-with_defaults trim clean c =
    rw
      (
        or_default_positive (pos 10000000000) c.dial_timeout refl,
        or_default_positive (pos 10000000000) c.write_timeout refl,
        or_default_positive (pos 100) c.batch_size refl,
        or_default_positive (pos 1048576) c.batch_bytes refl,
        or_default_positive (pos 100000000) c.batch_timeout refl,
        or_default_positive (pos 1) c.min_bytes refl,
        or_default_positive (pos 500000000) c.max_wait refl,
        or_default_positive (pos 2000000000) c.replay_idle refl,
        or_default_positive (pos 3000000000) c.heartbeat_interval refl,
        or_default_positive (pos 30000000000) c.rebalance_timeout refl,
        or_default_positive (pos 5000000000) c.join_group_backoff refl,
      )
      (checks_lem _ _ _ _ _)
