-- ===== src/Server/FanIn/Redelivery.antt =====
-- What becomes of a message whose handler fails.
use microservice_diagnosis.Prelude.{
  ℕ, ◌+◌, ◌<◌, ◌==◌, String, Bool, ◌&&◌, true, false, List, [], ◌∷◌, ◌++◌, All, str_eq, ◌≡◌, ◌⊎◌,
}
use microservice_diagnosis.Store.World.{World}
use microservice_diagnosis.Bus.Consumer.{Message}
use microservice_diagnosis.Server.EventLoop.{process_message}
use microservice_diagnosis.Server.FanIn.{Outside, asks, main_loop}

-- Whether the handler of a message asks for a commit of its offset.
abbrev pub is_handled : Outside → Message → World → Bool
is_handled o m w = asks (process_message o.env o.wiring o.parse (o.unmarshal m.value) w).0

-- Whether the offset of a message is committed.
abbrev pub is_committed : Outside → Message → World × List Message → Bool
is_committed o m s = is_handled o m s.0 && o.commits s.1 m

abbrev pub is_at : String → ℕ → Message → Bool
is_at topic p m = str_eq m.topic topic && m.partition == p

-- `resume cs` is where a consumer group of Kafka starts to read a partition after the commits `cs`:
-- behind the message of the partition that is committed last.
pub record IsResume (resume : List Message → String → ℕ → ℕ) : Type 0 where
  pub own :
      (cs : List Message) (k : Message) (t : String) (p : ℕ)
      → is_at t p k ≡ true
      → resume (cs ++ k ∷ []) t p ≡ k.offset + 1
  pub other :
      (cs : List Message) (k : Message) (t : String) (p : ℕ)
      → is_at t p k ≡ false
      → resume (cs ++ k ∷ []) t p ≡ resume cs t p

-- Of the messages that are taken from a state on, one of the partition of `m` is committed.
pub CommitsLater : Outside → Message → List Message → World × List Message → Type 0
CommitsLater o m [] s = ⊥
CommitsLater o m (n ∷ ns) s =
    ((is_at m.topic m.partition n ≡ true) × (is_committed o n s ≡ true))
    ⊎ CommitsLater o m ns (main_loop o (n ∷ []) s)

-- The messages of the partition of `m` have higher offsets.
abbrev pub AllBehind : Message → List Message → Type 0
AllBehind m ns = All (λ n. is_at m.topic m.partition n ≡ true → m.offset < n.offset) ns
