-- ===== src/Server/FanIn/Order.antt =====
-- What the fan-in of the event loop keeps, whatever the order in which its goroutines run.
use microservice_diagnosis.Prelude.{
  ℕ, ◌≤◌, String, Bool, true, false, none, some, List, [], ◌∷◌, ◌++◌, filter, length, length-append,
  append_nil, append_assoc, str_eq, eq_iff, ◌≡◌, refl, sym, subst, ap, ◌∙◌, arith, Bool-cases, inl,
  inr,
}
use microservice_diagnosis.Store.World.{World}
use microservice_diagnosis.Bus.Consumer.{Message}
use microservice_diagnosis.Server.FanIn.{
  capacity, Forwarder, fetching, backing_off, sending, returned, Outside, main_loop, Loop, set,
  started, Step, fetch, fetch_fails, retry, forward, give_up, leave_fetch, leave_wait, take, stop,
  cancel, Reach, here, next,
}

-- The message that a goroutine has fetched and not sent.
abbrev pub held : Forwarder → List Message
held (sending m) = m ∷ []
held (returned (some m)) = m ∷ []
held _ = []

abbrev pub of_topic : String → List Message → List Message
of_topic t ms = filter (λ m. str_eq m.topic t) ms

filter-append :
    (p : Message → Bool) (xs ys : List Message) → filter p (xs ++ ys) ≡ filter p xs ++ filter p ys
filter-append p [] ys = refl
filter-append p (x ∷ xs) ys = elim (Bool-cases (p x)) [
  | inl e ↦ rw (e, filter-append p xs ys) refl
  | inr e ↦ rw (e, filter-append p xs ys) refl
]

pub main_loop-append :
    (o : Outside) (xs ys : List Message) (s : World × List Message)
    → main_loop o (xs ++ ys) s ≡ main_loop o ys (main_loop o xs s)
unfolding main_loop
main_loop-append o [] ys s = refl
main_loop-append o (m ∷ xs) ys s = main_loop-append o xs ys _

pub record IsSound (o : Outside) (w : World) (l : Loop) : Type 0 where
  pub ordered :
      (t : String) → of_topic t l.fetched ≡ of_topic t (l.taken ++ l.queue) ++ held (l.readers t)
  pub bounded : length l.queue ≤ capacity
  pub sequential : l.done ≡ main_loop o l.taken (w, [])

-- A goroutine that goes on with the message that it holds, if any.
turn-ordered :
    (topic : String) (f : Forwarder) (readers : String → Forwarder)
    → held (readers topic) ≡ held f
    → (t : String) → held (readers t) ≡ held (set topic f readers t)
turn-ordered topic f readers h t = elim (Bool-cases (str_eq topic t)) [
  | inl e ↦ rw e (subst (λ u. held (readers u) ≡ held f) ((eq_iff topic t).0 e) h)
  | inr e ↦ rw e refl
]

turn-IsSound :
    (o : Outside) (w : World) (l : Loop) (topic : String) (f : Forwarder)
    → held (l.readers topic) ≡ held f
    → IsSound o w l
    → IsSound o w (record l { readers = set topic f l.readers })
turn-IsSound o w l topic f h v = record {
  ordered = λ t.
      v.ordered t
      ∙ ap (λ r. of_topic t (l.taken ++ l.queue) ++ r) (turn-ordered topic f l.readers h t);
  bounded = v.bounded;
  sequential = v.sequential;
}

of_topic-snoc-same :
    (t : String) (ms : List Message) (m : Message)
    → str_eq m.topic t ≡ true
    → of_topic t (ms ++ m ∷ []) ≡ of_topic t ms ++ m ∷ []
of_topic-snoc-same t ms m e = filter-append _ ms (m ∷ []) ∙ rw e refl

of_topic-snoc-other :
    (t : String) (ms : List Message) (m : Message)
    → str_eq m.topic t ≡ false
    → of_topic t (ms ++ m ∷ []) ≡ of_topic t ms
of_topic-snoc-other t ms m e = filter-append _ ms (m ∷ []) ∙ rw e (append_nil (of_topic t ms))

-- What the goroutine of a message's topic holds, from the topic of the message.
held_at :
    (readers : String → Forwarder) (m : Message) (t : String) (f : Forwarder)
    → str_eq m.topic t ≡ true
    → readers m.topic ≡ f
    → held (readers t) ≡ held f
held_at readers m t f e h =
    subst (λ u. held (readers u) ≡ held f) ((eq_iff m.topic t).0 e) (ap held h)

fetch-ordered :
    (o : Outside) (w : World) (l : Loop) (m : Message) (backoff : ℕ)
    → l.readers m.topic ≡ fetching backoff
    → IsSound o w l
    → (t : String)
    → of_topic t (l.fetched ++ m ∷ [])
      ≡ of_topic t (l.taken ++ l.queue) ++ held (set m.topic (sending m) l.readers t)
fetch-ordered o w l m backoff h v t = elim (Bool-cases (str_eq m.topic t)) [
  | inl e ↦
      of_topic-snoc-same t l.fetched m e
      ∙ ap (λ r. r ++ m ∷ []) (v.ordered t)
      ∙ append_assoc (of_topic t (l.taken ++ l.queue)) (held (l.readers t)) (m ∷ [])
      ∙ ap (λ r. of_topic t (l.taken ++ l.queue) ++ (r ++ m ∷ [])) (held_at l.readers m t _ e h)
      ∙ sym (rw e refl)
  | inr e ↦ of_topic-snoc-other t l.fetched m e ∙ v.ordered t ∙ sym (rw e refl)
]

forward-ordered :
    (o : Outside) (w : World) (l : Loop) (m : Message)
    → l.readers m.topic ≡ sending m
    → IsSound o w l
    → (t : String)
    → of_topic t l.fetched
      ≡ of_topic t (l.taken ++ (l.queue ++ m ∷ [])) ++ held (set m.topic (fetching 500) l.readers t)
forward-ordered o w l m h v t = elim (Bool-cases (str_eq m.topic t)) [
  | inl e ↦
      v.ordered t
      ∙ ap (λ r. of_topic t (l.taken ++ l.queue) ++ r) (held_at l.readers m t _ e h)
      ∙ sym (of_topic-snoc-same t (l.taken ++ l.queue) m e)
      ∙ ap (of_topic t) (append_assoc l.taken l.queue (m ∷ []))
      ∙ sym (rw e (append_nil _))
  | inr e ↦
      v.ordered t
      ∙ ap (λ r. r ++ held (l.readers t))
          (sym (of_topic-snoc-other t (l.taken ++ l.queue) m e)
            ∙ ap (of_topic t) (append_assoc l.taken l.queue (m ∷ [])))
      ∙ sym (rw e refl)
]

taken_next :
    (l : Loop) (m : Message) (rest : List Message)
    → l.queue ≡ m ∷ rest
    → l.taken ++ l.queue ≡ (l.taken ++ m ∷ []) ++ rest
taken_next l m rest e = ap (λ r. l.taken ++ r) e ∙ sym (append_assoc l.taken (m ∷ []) rest)

Step-IsSound : (o : Outside) (w : World) {k l : Loop} → Step o k l → IsSound o w k → IsSound o w l
Step-IsSound o w (fetch l m backoff has e) v = record {
  ordered = fetch-ordered o w l m backoff e v;
  bounded = v.bounded;
  sequential = v.sequential;
}
Step-IsSound o w (fetch_fails l topic backoff e c) v =
    turn-IsSound o w l topic (backing_off backoff) (ap held e) v
Step-IsSound o w (retry l topic backoff e) v = turn-IsSound o w l topic (fetching _) (ap held e) v
Step-IsSound o w (forward l m e room) v = record {
  ordered = forward-ordered o w l m e v;
  bounded = omega (arith, length-append l.queue (m ∷ []), room);
  sequential = v.sequential;
}
Step-IsSound o w (give_up l m e c) v = turn-IsSound o w l m.topic (returned (some m)) (ap held e) v
Step-IsSound o w (leave_fetch l topic backoff e c) v =
    turn-IsSound o w l topic (returned none) (ap held e) v
Step-IsSound o w (leave_wait l topic backoff e c) v =
    turn-IsSound o w l topic (returned none) (ap held e) v
Step-IsSound o w (take l m rest running e) v = record {
  ordered =
      λ t. v.ordered t ∙ ap (λ ms. of_topic t ms ++ held (l.readers t)) (taken_next l m rest e);
  bounded = omega (arith, v.bounded, ap length e);
  sequential =
      ap (main_loop o (m ∷ [])) v.sequential ∙ sym (main_loop-append o l.taken (m ∷ []) (w, []));
}
Step-IsSound o w (stop l c) v = record {
  ordered = v.ordered;
  bounded = v.bounded;
  sequential = v.sequential;
}
Step-IsSound o w (cancel l) v = record {
  ordered = v.ordered;
  bounded = v.bounded;
  sequential = v.sequential;
}

started-IsSound : (o : Outside) (w : World) → IsSound o w (started w)
unfolding main_loop
started-IsSound o w = record { ordered = λ t. refl; bounded = omega arith; sequential = refl }

-- However the goroutines of the event loop are scheduled: the messages of each topic reach the main
-- loop in the order in which they are fetched, and none is lost or doubled on the way, the last being
-- the one that the topic's goroutine still holds; at most 1024 stand in the channel; and what the
-- handlers have done and the offsets committed are those of the main loop run alone over the messages
-- that it has taken, one after the other.
pub Reach-IsSound : (o : Outside) (w : World) {l : Loop} → Reach o (started w) l → IsSound o w l
Reach-IsSound o w here = started-IsSound o w
Reach-IsSound o w (next r s) = Step-IsSound o w s (Reach-IsSound o w r)
