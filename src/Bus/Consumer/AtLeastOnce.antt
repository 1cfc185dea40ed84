-- ===== src/Bus/Consumer/AtLeastOnce.antt =====
-- What Consume has handled and committed when it ends.
use microservice_diagnosis.Prelude.{
  ◌+◌, List, [], ◌∷◌, ◌++◌, map, append_nil, append_assoc, ◌≡◌, refl, sym, ap, ◌∙◌, Bool-cases, inl,
  inr,
}
use microservice_diagnosis.Bus.Consumer.{
  Message, Fetched, message, cancelled, unreadable, Ending, blocked, stopped, fetch_failed,
  handler_failed, commit_failed, Consumer, Progress, note_handled, note_committed, consume,
}

-- How the answers go on behind the messages that are handled and committed, and which message is
-- handled and not committed.
pub data EndsAt : Ending → List Fetched → List Message → Type 0 where
  waits : EndsAt blocked [] []
  stops : (fs : List Fetched) → EndsAt stopped (cancelled ∷ fs) []
  fetch_fails : (fs : List Fetched) → EndsAt fetch_failed (unreadable ∷ fs) []
  handler_fails : (m : Message) (fs : List Fetched) → EndsAt (handler_failed m) (message m ∷ fs) []
  commit_fails :
      (m : Message) (fs : List Fetched) → EndsAt (commit_failed m) (message m ∷ fs) (m ∷ [])

-- A run of Consume over the answers `fs` from the progress `p`.
pub record Run (fs : List Fetched) (p : Progress) (result : Ending × Progress) : Type 0 where
  pub done : List Message
  pub rest : List Fetched
  pub open_one : List Message
  pub fetched : fs ≡ map message done ++ rest
  pub committed : result.1.committed ≡ p.committed ++ done
  pub handled : result.1.handled ≡ p.handled ++ (done ++ open_one)
  pub ending : EndsAt result.0 rest open_one

-- Nothing is handled on the way to the end.
Run-end : (fs : List Fetched) (p : Progress) (e : Ending) → EndsAt e fs [] → Run fs p (e, p)
Run-end fs p e ends = record {
  done = [];
  rest = fs;
  open_one = [];
  fetched = refl;
  committed = sym (append_nil p.committed);
  handled = sym (append_nil p.handled);
  ending = ends;
}

Run-uncommitted :
    (m : Message) (fs : List Fetched) (p : Progress)
    → Run (message m ∷ fs) p (commit_failed m, note_handled m p)
Run-uncommitted m fs p = record {
  done = [];
  rest = message m ∷ fs;
  open_one = m ∷ [];
  fetched = refl;
  committed = sym (append_nil p.committed);
  handled = refl;
  ending = commit_fails m fs;
}

Run-step :
    (m : Message) (fs : List Fetched) (p : Progress) (result : Ending × Progress)
    → Run fs (note_committed m (note_handled m p)) result
    → Run (message m ∷ fs) p result
Run-step m fs p result r = record {
  done = m ∷ r.done;
  rest = r.rest;
  open_one = r.open_one;
  fetched = ap (λ l. message m ∷ l) r.fetched;
  committed = r.committed ∙ append_assoc p.committed (m ∷ []) r.done;
  handled = r.handled ∙ append_assoc p.handled (m ∷ []) (r.done ++ r.open_one);
  ending = r.ending;
}

-- Consume handles and commits the messages in the order in which they are fetched, until the reader
-- blocks, a call fails or the context ends. A message whose handler fails is not committed, and none
-- behind it is handled; the one message that can be handled without being committed is the last, when
-- its commit fails.
pub consume-Run : (c : Consumer) (fs : List Fetched) (p : Progress) → Run fs p (consume c fs p)
unfolding consume
consume-Run c [] p = Run-end [] p blocked waits
consume-Run c (cancelled ∷ fs) p = Run-end (cancelled ∷ fs) p stopped (stops fs)
consume-Run c (unreadable ∷ fs) p = Run-end (unreadable ∷ fs) p fetch_failed (fetch_fails fs)
consume-Run c (message m ∷ fs) p = elim (Bool-cases (c.handle m p.calls)) [
  | inl e ↦ elim (Bool-cases (c.commit m (p.calls + 1))) [
    | inl k ↦ rw (e, k) (Run-step m fs p _ (consume-Run c fs (note_committed m (note_handled m p))))
    | inr k ↦ rw (e, k) (Run-uncommitted m fs p)
  ]
  | inr e ↦ rw e (Run-end (message m ∷ fs) p (handler_failed m) (handler_fails m fs))
]
