-- ===== src/Bus/Channel/Shutdown.antt =====
-- How a subscription ends.
use microservice_diagnosis.Prelude.{false, length, ◌≡◌, arith}
use microservice_diagnosis.Bus.Consumer.{Message}
use microservice_diagnosis.Bus.Channel.{
  capacity, sending, Subscription, forwarding, closer, Step, fetch, send, give_up, commit,
  commit_fails, commit_ends, fetch_fails, resume, leave, close,
}

-- The handler stands in its select with a message, and the channel is full.
pub record IsBlocked (m : Message) (c : Subscription) : Type 0 where
  pub holds : c.forwarder ≡ sending m
  pub full : length c.buffer ≡ capacity
  pub running : c.cancelled ≡ false

-- Steps of the forwarder and calls of Close.
pub data Unattended : Subscription → Subscription → Type 0 where
  start : {c : Subscription} → Unattended c c
  forwards : {c d e : Subscription} → Unattended c d → Step forwarding d e → Unattended c e
  closes : {c d e : Subscription} → Unattended c d → Step closer d e → Unattended c e

Step-IsBlocked :
    {c d : Subscription} (m : Message) → IsBlocked m c → Step forwarding c d → IsBlocked m d
Step-IsBlocked m b (fetch c k e) = absurd (ground arith)
Step-IsBlocked m b (send c k e room) = absurd (omega (arith, b.full))
Step-IsBlocked m b (give_up c k e done) = absurd (ground arith)
Step-IsBlocked m b (commit c k e) = absurd (ground arith)
Step-IsBlocked m b (commit_fails c k e p q) = absurd (ground arith)
Step-IsBlocked m b (commit_ends c k e p) = absurd (ground arith)
Step-IsBlocked m b (fetch_fails c e p q) = absurd (ground arith)
Step-IsBlocked m b (resume c e) = absurd (ground arith)
Step-IsBlocked m b (leave c e done) = absurd (ground arith)

close-IsBlocked :
    {c d : Subscription} (m : Message) → IsBlocked m c → Step closer c d → IsBlocked m d
close-IsBlocked m b (close c) = record { holds = b.holds; full = b.full; running = b.running }

-- A handler that waits at a full channel goes on waiting, whatever Close does, as long as the runner
-- receives nothing and the context of Subscribe does not end.
pub Unattended-IsBlocked :
    {c d : Subscription} (m : Message) → IsBlocked m c → Unattended c d → IsBlocked m d
Unattended-IsBlocked m b start = b
Unattended-IsBlocked m b (forwards r s) = Step-IsBlocked m (Unattended-IsBlocked m b r) s
Unattended-IsBlocked m b (closes r s) = close-IsBlocked m (Unattended-IsBlocked m b r) s
