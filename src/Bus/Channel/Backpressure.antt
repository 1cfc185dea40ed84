-- ===== src/Bus/Channel/Backpressure.antt =====
-- What a crash can lose of a subscription.
use microservice_diagnosis.Prelude.{
  ℕ, ◌+◌, ◌≤◌, ◌<◌, List, [], ◌∷◌, ◌++◌, length, length-append, append_nil, append_assoc, ◌≡◌, refl,
  sym, subst, ap, ◌∙◌, arith,
}
use microservice_diagnosis.Bus.Consumer.{Message}
use microservice_diagnosis.Bus.Channel.{
  capacity, Forwarder, fetching, backing_off, closed, sending, committing, Subscription, subscribed,
  Actor, Step, fetch, send, give_up, commit, commit_fails, commit_ends, fetch_fails, resume, leave,
  receive, cancel, close, Reach, here, next,
}

-- The message that is sent and not committed yet.
abbrev pub uncommitted : Forwarder → ℕ
uncommitted (committing m) = 1
uncommitted _ = 0

pub record IsSound (c : Subscription) : Type 0 where
  pub bounded : length c.buffer ≤ capacity
  pub ordered : c.sent ≡ c.received ++ c.buffer
  pub accounted : length c.committed + uncommitted c.forwarder ≤ length c.sent

-- A step of the forwarder that neither sends nor commits.
turn-IsSound :
    (c : Subscription) (f : Forwarder)
    → uncommitted f ≤ uncommitted c.forwarder
    → IsSound c
    → IsSound (record c { forwarder = f })
turn-IsSound c f h v = record {
  bounded = v.bounded;
  ordered = v.ordered;
  accounted = omega (arith, v.accounted, h);
}

Step-IsSound : {a : Actor} {c d : Subscription} → Step a c d → IsSound c → IsSound d
Step-IsSound (fetch c m e) v = turn-IsSound c (sending m) (omega arith) v
Step-IsSound (send c m e room) v = record {
  bounded = omega (arith, length-append c.buffer (m ∷ []), room);
  ordered = ap (λ l. l ++ m ∷ []) v.ordered ∙ append_assoc c.received c.buffer (m ∷ []);
  accounted = omega (arith, v.accounted, length-append c.sent (m ∷ []));
}
Step-IsSound (give_up c m e done) v = turn-IsSound c closed (omega arith) v
Step-IsSound (commit c m e) v = record {
  bounded = v.bounded;
  ordered = v.ordered;
  accounted = omega (arith, v.accounted, ap uncommitted e, length-append c.committed (m ∷ []));
}
Step-IsSound (commit_fails c m e k l) v = turn-IsSound c backing_off (omega arith) v
Step-IsSound (commit_ends c m e k) v = turn-IsSound c closed (omega arith) v
Step-IsSound (fetch_fails c e k l) v = turn-IsSound c backing_off (omega arith) v
Step-IsSound (resume c e) v = turn-IsSound c fetching (omega arith) v
Step-IsSound (leave c e done) v = turn-IsSound c closed (omega arith) v
Step-IsSound (receive c m rest e) v = record {
  bounded = omega (arith, v.bounded, ap length e);
  ordered = v.ordered ∙ ap (λ l. c.received ++ l) e ∙ sym (append_assoc c.received (m ∷ []) rest);
  accounted = v.accounted;
}
Step-IsSound (cancel c) v = record {
  bounded = v.bounded;
  ordered = v.ordered;
  accounted = v.accounted;
}
Step-IsSound (close c) v = record {
  bounded = v.bounded;
  ordered = v.ordered;
  accounted = v.accounted;
}

Reach-IsSound : {c d : Subscription} → IsSound c → Reach c d → IsSound d
Reach-IsSound v here = v
Reach-IsSound v (next r s) = Step-IsSound s (Reach-IsSound v r)

subscribed-IsSound : IsSound subscribed
subscribed-IsSound = record { bounded = omega arith; ordered = refl; accounted = omega arith }

-- In every state of a subscription, the messages that are sent on the channel are those that the
-- runner has received and behind them, in order, those in the buffer, which are at most a hundred;
-- and the messages that are committed are at most a hundred more than those that are received.
pub committed-le-received :
    {c : Subscription}
    → Reach subscribed c
    → (c.sent ≡ c.received ++ c.buffer)
      × (length c.buffer ≤ capacity)
      × (length c.committed ≤ length c.received + capacity)
committed-le-received {c} r =
    let v = Reach-IsSound subscribed-IsSound r in
    (
      v.ordered,
      v.bounded,
      omega (arith, v.accounted, v.bounded, ap length v.ordered, length-append c.received c.buffer),
    )

-- The messages `ms` in the buffer, all committed and none received.
abbrev pub all_committed : List Message → Subscription
all_committed ms = record subscribed { sent = ms; buffer = ms; committed = ms }

one_more :
    (ms : List Message) (m : Message)
    → length ms < capacity
    → Reach subscribed (all_committed ms)
    → Reach subscribed (all_committed (ms ++ m ∷ []))
one_more ms m room r =
    next (next (next r (fetch (all_committed ms) m refl)) (send _ m refl room)) (commit _ m refl)

all_committed-append :
    (done ms : List Message)
    → length done + length ms ≤ capacity
    → Reach subscribed (all_committed done)
    → Reach subscribed (all_committed (done ++ ms))
all_committed-append done [] fits r =
    subst (λ l. Reach subscribed (all_committed l)) (sym (append_nil done)) r
all_committed-append done (m ∷ ms) fits r =
    subst (λ l. Reach subscribed (all_committed l)) (append_assoc done (m ∷ []) ms)
      (all_committed-append (done ++ m ∷ []) ms (omega (arith, length-append done (m ∷ [])))
        (one_more done m (omega arith) r))

-- Any messages, up to a hundred of them, can all be committed while the runner has received none: if
-- the process ends there, none of them is delivered again.
pub committed_before_received :
    (ms : List Message) → length ms ≤ capacity → Reach subscribed (all_committed ms)
committed_before_received ms fits = all_committed-append [] ms (omega arith) here
