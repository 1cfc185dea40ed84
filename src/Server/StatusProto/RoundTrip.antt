-- ===== src/Server/StatusProto/RoundTrip.antt =====
-- The statuses of the store and of the HTTP interface stand for each other.
use microservice_diagnosis.Prelude.{ℕ, String, ◌≡◌, ◌≢◌, refl}
use microservice_diagnosis.Store.Rows.{Status}
use microservice_diagnosis.Server.StatusProto.{
  SessionStatus, undefined, status_to_proto, status_proto_to_string,
}

to_proto_round :
    (s : Status)
    → ((t : String) → s ≢ Status.other t)
    → status_proto_to_string (status_to_proto s) ≡ s
unfolding status_to_proto status_proto_to_string
to_proto_round (Status.other t) h = absurd (h t refl)
to_proto_round _ h = refl

of_proto_round :
    (p : SessionStatus)
    → ((n : ℕ) → p ≢ undefined n)
    → status_to_proto (status_proto_to_string p) ≡ p
unfolding status_to_proto status_proto_to_string
of_proto_round (undefined n) h = absurd (h n refl)
of_proto_round _ h = refl

-- Each of the fourteen statuses of the store comes back from its number in the HTTP interface, and
-- each named number, the unspecified one included, comes back from its status.
pub status_round :
    (s : Status) (p : SessionStatus)
    → ((t : String) → s ≢ Status.other t)
    → ((n : ℕ) → p ≢ undefined n)
    → (status_proto_to_string (status_to_proto s) ≡ s)
      × (status_to_proto (status_proto_to_string p) ≡ p)
status_round s p known named = (to_proto_round s known, of_proto_round p named)
