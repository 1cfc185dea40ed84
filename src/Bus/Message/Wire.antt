-- ===== src/Bus/Message/Wire.antt =====
-- An envelope comes back from the wire as it was sent.
use microservice_diagnosis.Prelude.{
  ℕ, String, none, List, [], ◌∷◌, ◌++◌, ◌≡◌, refl, sym, ap, ◌∙◌, arith, append_assoc, eq_iff,
  append_nil,
}
use microservice_diagnosis.Prelude.Dict.{Dict, lookup, insert, NodupKeys, lookup-insert, insert_new}
use microservice_diagnosis.Bus.Message.{
  Envelope, KafkaMessage, to_kafka_message, from_kafka_message, collect_headers,
}

-- No key of `hs` is in `acc`.
abbrev Fresh : List (String × String) → Dict String → Type 0
Fresh [] acc = Unit
Fresh ((k, _) ∷ hs) acc = (lookup k acc ≡ none) × Fresh hs acc

Fresh-insert :
    (k v : String) (hs : List (String × String)) (acc : Dict String)
    → lookup k hs ≡ none
    → Fresh hs acc
    → Fresh hs (insert k v acc)
unfolding lookup
Fresh-insert k v [] acc h f = tt
Fresh-insert k v ((j, w) ∷ hs) acc h f = (
  ground (arith, lookup-insert j k v acc, eq_iff k j, eq_iff j k),
  Fresh-insert k v hs acc (ground arith) f.1,
)

collect_headers-Fresh :
    (hs acc : Dict String) → NodupKeys hs → Fresh hs acc → collect_headers hs acc ≡ acc ++ hs
unfolding collect_headers
collect_headers-Fresh [] acc u f = sym (append_nil acc)
collect_headers-Fresh ((k, v) ∷ hs) acc (new, u) (f, fs) =
    collect_headers-Fresh hs (insert k v acc) u (Fresh-insert k v hs acc new fs)
    ∙ ap (λ d. d ++ hs) (insert_new k v acc f)
    ∙ append_assoc acc ((k, v) ∷ []) hs

Fresh-nil : (hs : List (String × String)) → Fresh hs []
unfolding lookup
Fresh-nil [] = tt
Fresh-nil (h ∷ hs) = (refl, Fresh-nil hs)

-- Where the broker puts a message.
abbrev pub placed : ℕ → ℕ → KafkaMessage → KafkaMessage
placed p o m = record m { partition = p; offset = o }

-- Whatever the order in which the headers are visited, an envelope that is read back is the one that
-- was sent, at the place that the broker gave it.
pub from_kafka_message-to_kafka_message :
    (p o : ℕ) (m : Envelope)
    → NodupKeys m.headers
    → from_kafka_message (placed p o (to_kafka_message m)) ≡ record m { partition = p; offset = o }
unfolding from_kafka_message to_kafka_message
from_kafka_message-to_kafka_message p o m u =
    ap (λ hs. record m { partition = p; offset = o; headers = hs })
      (collect_headers-Fresh m.headers [] u (Fresh-nil m.headers))
