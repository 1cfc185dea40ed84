-- ===== src/Bus/Subscribe/Sound.antt =====
-- What a reader that NewConsumer has made is configured with.
use microservice_diagnosis.Prelude.{
  String, ℤ, pos, negsuc, Option, none, some, str_eq, false, ◌≡◌, ◌⊎◌, inl, inr, refl, arith, subst,
  zero, suc, true,
}
use microservice_diagnosis.Bus.Config.{Config, ConfigError, with_defaults, validate}
use microservice_diagnosis.Bus.Consumer
use microservice_diagnosis.Bus.Consumer.{
  ConsumerConfig, SubscriptionError, start_of, is_start_offset,
}
use microservice_diagnosis.Bus.Subscribe.{
  ReaderConfig, Subscribing, reading, reader_config, check_config, check_subscription, new_consumer,
}

-- A reader reads a topic as a member of a group, both of which have a name, it commits each offset at
-- once, and it starts at the first or at the last offset.
pub record IsReader (r : ReaderConfig) : Type 0 where
  pub named : str_eq r.topic "" ≡ false
  pub grouped : str_eq r.group_id "" ≡ false
  pub synchronous : r.commit_interval ≡ pos 0
  pub placed : (r.start_offset ≡ negsuc 1) ⊎ (r.start_offset ≡ negsuc 0)

start_of-placed :
    (cc : ConsumerConfig) (z : ℤ)
    → cc.start_offset ≡ z
    → is_start_offset z ≡ true
    → (start_of cc ≡ negsuc 1) ⊎ (start_of cc ≡ negsuc 0)
unfolding start_of
start_of-placed cc (pos zero) e h = inl (rw e refl)
start_of-placed cc (pos (suc n)) e h = ground arith
start_of-placed cc (negsuc zero) e h = inr (rw e refl)
start_of-placed cc (negsuc (suc zero)) e h = inl (rw e refl)
start_of-placed cc (negsuc (suc (suc n))) e h = ground arith

valid-IsReader :
    (cfg : Config) (cc : ConsumerConfig)
    → Consumer.validate cc ≡ none
    → IsReader (reader_config cfg cc)
unfolding Consumer.validate
valid-IsReader cfg cc h = record {
  named = ground arith;
  grouped = ground arith;
  synchronous = refl;
  placed = start_of-placed cc cc.start_offset refl (ground arith);
}

-- What is known of an outcome.
Sound : Subscribing → Type 0
Sound (reading r) = IsReader r
Sound _ = Unit

check_subscription-Sound :
    (cfg : Config) (cc : ConsumerConfig) (v : Option SubscriptionError)
    → Consumer.validate cc ≡ v
    → Sound (check_subscription cfg cc v)
unfolding Sound
check_subscription-Sound cfg cc none h = valid-IsReader cfg cc h
check_subscription-Sound cfg cc (some e) h = tt

check_config-Sound :
    (cfg : Config) (cc : ConsumerConfig) (v : Option ConfigError) → Sound (check_config cfg cc v)
unfolding Sound
check_config-Sound cfg cc none = check_subscription-Sound cfg cc (Consumer.validate cc) refl
check_config-Sound cfg cc (some e) = tt

-- When NewConsumer makes a reader, whatever the configurations are, it is one as IsReader says.
pub new_consumer-IsReader :
    (trim clean : String → String) (cfg : Config) (cc : ConsumerConfig) (r : ReaderConfig)
    → new_consumer trim clean cfg cc ≡ reading r
    → IsReader r
unfolding Sound new_consumer
new_consumer-IsReader trim clean cfg cc r h =
    subst Sound h
      (check_config-Sound (with_defaults cfg) cc (validate trim clean (with_defaults cfg)))
