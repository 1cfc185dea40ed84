-- ===== src/Bus/Replay/Partitions.antt =====
-- What Replay reports of the partitions of a topic, and what it hands to its handler on the way.
use microservice_diagnosis.Prelude.{
  ℕ, ℤ, pos, negsuc, suc, zero, filter, leb, subst, Option-cases, String, false, Option, none, some,
  List, [], ◌∷◌, ◌++◌, append_nil, append_assoc, length, str_eq, ◌≡◌, refl, sym, ap, ◌∙◌, arith,
  Bool-cases, inl, inr,
}
use microservice_diagnosis.Bus.Consumer.{Message}
use microservice_diagnosis.Bus.Replay.{
  ReplayError, Connection, Cluster, ReplayResult, Handler, Delivery, dial_leader, undelivered,
  Position, absolute, at_start, after_dial, read_batches, seek_and_read, replay_partition, Replayed,
  with_result, after_partition, replay_each, sort, partitions, invalid_from, replay,
}
use microservice_diagnosis.Bus.Replay.Delivered.{
  until_empty, last_of, Takes, Takes-none, Takes-all, read_batches-Takes,
}

-- The messages of a log that a replay from an offset, or from the start, is to deliver.
abbrev pub from_on : ℤ → List Message → List Message
from_on (pos n) log = filter (λ m. leb n m.offset) log
from_on (negsuc n) log = log

-- `log` has the existing messages of each partition: what a leader hands out, from an offset or from the
-- start, are the messages of the log from there on, and a batch is empty only behind the last of them.
pub record ReadsLog (k : Cluster) (topic : String) (log : ℕ → List Message) : Type 0 where
  pub from_start :
      (b : String) (p : ℕ) (c : Connection)
      → k.dial b topic p ≡ some c
      → until_empty (c.batches at_start) ≡ log p
  pub from_offset :
      (b : String) (p : ℕ) (c : Connection) (n : ℕ)
      → k.dial b topic p ≡ some c
      → until_empty (c.batches (absolute n)) ≡ filter (λ m. leb n m.offset) (log p)

dialled :
    (k : Cluster) (topic : String) (p : ℕ) (bs : List String) (c : Connection)
    → dial_leader k bs topic p ≡ some c
    → (b : String) × (k.dial b topic p ≡ some c)
unfolding dial_leader
dialled k topic p [] c h = ground arith
dialled k topic p (b ∷ bs) c h = elim (Option-cases (k.dial b topic p)) [
  | inl e ↦ dialled k topic p bs c (sym (rw (dial_leader, e) refl) ∙ h)
  | inr (d, e) ↦ (b, e ∙ sym (rw (dial_leader, e) refl) ∙ h)
]

module _ (k : Cluster) (accepts : Handler) (topic : String) (log : ℕ → List Message)
    (reads : ReadsLog k topic log) where
  read-Takes :
      (c : Connection) (position : Position) (from : ℤ) (p : ℕ) (handled : List Message)
      → until_empty (c.batches position) ≡ from_on from (log p)
      → Takes
          (from_on from (log p))
          (undelivered p from handled)
          ((seek_and_read accepts p from c (some position) handled).0 ≡ none)
          (seek_and_read accepts p from c (some position) handled).1
  read-Takes c position from p handled h = elim (Bool-cases (c.seek_fails position)) [
    | inl e ↦ rw e (Takes-none _ _ _ λ q. ground arith)
    | inr e ↦
        let read = read_batches accepts p (c.batches position) (undelivered p from handled) in
        rw e (
          subst (λ ms. Takes ms (undelivered p from handled) (read.0 ≡ none) read.1) h
            (read_batches-Takes accepts p (c.batches position) (undelivered p from handled)))
  ]

  after_dial-Takes :
      (from : ℤ) (p : ℕ) (handled : List Message) (o : Option Connection)
      → dial_leader k k.brokers topic p ≡ o
      → Takes
          (from_on from (log p))
          (undelivered p from handled)
          ((after_dial accepts p from o handled).0 ≡ none)
          (after_dial accepts p from o handled).1
  after_dial-Takes from p handled none e = Takes-none _ _ _ λ h. ground arith
  after_dial-Takes (pos n) p handled (some c) e =
      let (b, d) = dialled k topic p k.brokers c e in
      read-Takes c (absolute n) (pos n) p handled (reads.from_offset b p c n d)
  after_dial-Takes (negsuc (suc zero)) p handled (some c) e =
      let (b, d) = dialled k topic p k.brokers c e in
      read-Takes c at_start (negsuc 1) p handled (reads.from_start b p c d)
  after_dial-Takes (negsuc zero) p handled (some c) e = Takes-none _ _ _ λ h. ground arith
  after_dial-Takes (negsuc (suc (suc n))) p handled (some c) e = Takes-none _ _ _ λ h. ground arith

  replay_partition-Takes :
      (from : ℤ) (p : ℕ) (handled : List Message)
      → Takes
          (from_on from (log p))
          (undelivered p from handled)
          ((replay_partition k accepts topic from p handled).0 ≡ none)
          (replay_partition k accepts topic from p handled).1
  unfolding replay_partition
  replay_partition-Takes from p handled =
      after_dial-Takes from p handled (dial_leader k k.brokers topic p) refl

-- The results for partitions that are read one after the other, and the messages that the handler
-- takes on the way: the whole log of each, and of the one where an error ends the replay the first
-- messages, with no result.
pub data Reports (from : ℤ) (log : ℕ → List Message)
    : Option ReplayError → List ℕ → List ReplayResult → List Message → Type 0 where
  finished : Reports from log none [] [] []
  stopped :
      (e : ReplayError) (p : ℕ) (ps : List ℕ) (taken left : List Message)
      → from_on from (log p) ≡ taken ++ left
      → Reports from log (some e) (p ∷ ps) [] taken
  reported :
      (o : Option ReplayError) (p : ℕ) (ps : List ℕ) (r : ReplayResult) (rs : List ReplayResult)
      (later : List Message)
      → r.partition ≡ p
      → r.from ≡ from
      → r.count ≡ length (from_on from (log p))
      → r.last_offset ≡ last_of 0 (from_on from (log p))
      → Reports from log o ps rs later
      → Reports from log o (p ∷ ps) (r ∷ rs) (from_on from (log p) ++ later)

-- A replay goes on from the messages taken before.
abbrev Extends : ℤ → (ℕ → List Message) → List ℕ → List Message → Replayed → Type 0
Extends from log ps before out =
    (taken : List Message) × (out.2 ≡ before ++ taken) × Reports from log out.0 ps out.1 taken

Extends-stopped :
    (from : ℤ) (log : ℕ → List Message) (e : ReplayError) (p : ℕ) (ps : List ℕ)
    (before : List Message) (C : Type 0) (d : Delivery)
    → Takes (from_on from (log p)) (undelivered p from before) C d
    → Extends from log (p ∷ ps) before (some e, [], d.handled)
Extends-stopped from log e p ps before C d t =
    (t.taken, t.handled, stopped e p ps t.taken t.left t.split)

Extends-next :
    (from : ℤ) (log : ℕ → List Message) (p : ℕ) (ps : List ℕ) (before : List Message) (C : Type 0)
    (d : Delivery) (out : Replayed)
    → Takes (from_on from (log p)) (undelivered p from before) C d
    → C
    → Extends from log ps d.handled out
    → Extends from log (p ∷ ps) before (with_result d.result out)
Extends-next from log p ps before C d (o, rs, handled) t c (taken, same, reports) =
    let whole : from_on from (log p) ≡ t.taken = Takes-all _ _ _ _ t c in
    (
      from_on from (log p) ++ taken,
      same
          ∙ ap (λ l. l ++ taken) (t.handled ∙ ap (λ l. before ++ l) (sym whole))
          ∙ append_assoc before (from_on from (log p)) taken,
      reported o p ps d.result rs taken t.partition t.from
          (omega (arith, t.count, ap (λ l. length l) whole))
          (t.last ∙ ap (λ l. last_of 0 l) (sym whole)) reports,
    )

after_partition-Extends :
    (from : ℤ) (log : ℕ → List Message) (p : ℕ) (ps : List ℕ) (before : List Message)
    (one : Option ReplayError × Delivery) (rest : Replayed)
    → Takes (from_on from (log p)) (undelivered p from before) (one.0 ≡ none) one.1
    → Extends from log ps one.1.handled rest
    → Extends from log (p ∷ ps) before (after_partition one rest)
after_partition-Extends from log p ps before (none, d) rest t h =
    Extends-next from log p ps before _ d rest t refl h
after_partition-Extends from log p ps before (some x, d) rest t h =
    Extends-stopped from log x p ps before _ d t

replay_each-Extends :
    (k : Cluster) (accepts : Handler) (topic : String) (log : ℕ → List Message)
    (reads : ReadsLog k topic log) (from : ℤ) (ps : List ℕ) (before : List Message)
    → Extends from log ps before (replay_each k accepts topic from ps before)
unfolding replay_each
replay_each-Extends k accepts topic log reads from [] before =
    ([], sym (append_nil before), finished)
replay_each-Extends k accepts topic log reads from (p ∷ ps) before =
    after_partition-Extends from log p ps before _ _
      (replay_partition-Takes k accepts topic log reads from p before)
      (replay_each-Extends k accepts topic log reads from ps _)

-- Replay of a topic that is named and whose partitions are known goes through them in the order that
-- sort gives. To its handler it hands, in order and once each, the existing messages of every partition
-- from the offset `from` on, or all of them for FirstOffset, and it returns for each that offset, the
-- number of its messages and the offset of the last; at the first error it stops, with the results of
-- the partitions before, and the handler has taken the first messages of the one that failed. `log` is
-- what the leaders hand out, as ReadsLog says.
pub replay-Reports :
    (k : Cluster) (accepts : Handler) (topic : String) (from : ℤ) (ps : List ℕ)
    (log : ℕ → List Message)
    → ReadsLog k topic log
    → str_eq topic "" ≡ false
    → invalid_from from ≡ false
    → partitions topic (k.describe topic) ≡ inr ps
    → Reports from log
        (replay k accepts topic from).0
        (sort ps)
        (replay k accepts topic from).1
        (replay k accepts topic from).2
unfolding replay
replay-Reports k accepts topic from ps log reads named valid known =
    let (taken, same, reports) = replay_each-Extends k accepts topic log reads from (sort ps) [] in
    rw (named, valid, known) (rw same reports)
