-- ===== src/Bus/Replay/Delivered.antt =====
-- What Replay hands to its handler.
use microservice_diagnosis.Prelude.{
  ℕ, ◌+◌, true, false, Option, none, some, List, [], ◌∷◌, ◌++◌, append_nil, append_assoc, length,
  length-append, ◌≡◌, refl, sym, ap, ◌∙◌, arith, Bool-cases, inl, inr,
}
use microservice_diagnosis.Bus.Consumer.{Message}
use microservice_diagnosis.Bus.Replay.{
  ReplayError, Batch, Handler, Delivery, delivered, read_messages, is_empty, after_read,
  read_batches,
}

-- The messages of a batch and those behind it, unless the batch is empty.
abbrev unless_empty : List Message → List Message → List Message
unless_empty [] later = []
unless_empty (m ∷ ms) later = (m ∷ ms) ++ later

-- The messages up to the end of the log: those of the batches before the first empty one.
abbrev pub until_empty : List Batch → List Message
until_empty [] = []
until_empty (b ∷ bs) = unless_empty b.messages (until_empty bs)

abbrev pub last_of : ℕ → List Message → ℕ
last_of n [] = n
last_of n (m ∷ ms) = last_of m.offset ms

last_of-append : (n : ℕ) (xs ys : List Message) → last_of n (xs ++ ys) ≡ last_of (last_of n xs) ys
last_of-append n [] ys = refl
last_of-append n (m ∷ xs) ys = last_of-append m.offset xs ys

-- From `d` to `e` the handler takes the first of `all`, all of them if `Complete` holds, and the
-- result counts them and has the offset of the last.
pub record Takes (all : List Message) (d : Delivery) (Complete : Type 0) (e : Delivery)
    : Type 0 where
  pub taken : List Message
  pub left : List Message
  pub split : all ≡ taken ++ left
  pub handled : e.handled ≡ d.handled ++ taken
  pub count : e.result.count ≡ d.result.count + length taken
  pub last : e.result.last_offset ≡ last_of d.result.last_offset taken
  pub partition : e.result.partition ≡ d.result.partition
  pub from : e.result.from ≡ d.result.from
  pub complete : Complete → left ≡ []

pub Takes-none : (all : List Message) (d : Delivery) (C : Type 0) → (C → all ≡ []) → Takes all d C d
Takes-none all d C h = record {
  taken = [];
  left = all;
  split = refl;
  handled = sym (append_nil d.handled);
  count = omega arith;
  last = refl;
  partition = refl;
  from = refl;
  complete = h;
}

Takes-step :
    (m : Message) (ms : List Message) (d e : Delivery) (C : Type 0)
    → Takes ms (delivered m d) C e
    → Takes (m ∷ ms) d C e
Takes-step m ms d e C t = record {
  taken = m ∷ t.taken;
  left = t.left;
  split = ap (λ l. m ∷ l) t.split;
  handled = t.handled ∙ append_assoc d.handled (m ∷ []) t.taken;
  count = omega (arith, t.count);
  last = t.last;
  partition = t.partition;
  from = t.from;
  complete = t.complete;
}

Takes-stop :
    (xs ys : List Message) (d e : Delivery) (A C : Type 0)
    → Takes xs d A e
    → ¬ C
    → Takes (xs ++ ys) d C e
Takes-stop xs ys d e A C t h = record {
  taken = t.taken;
  left = t.left ++ ys;
  split = ap (λ l. l ++ ys) t.split ∙ append_assoc t.taken t.left ys;
  handled = t.handled;
  count = t.count;
  last = t.last;
  partition = t.partition;
  from = t.from;
  complete = λ c. absurd (h c);
}

Takes-map :
    (xs : List Message) (d e : Delivery) (A C : Type 0) → Takes xs d A e → (C → A) → Takes xs d C e
Takes-map xs d e A C t h = record {
  taken = t.taken;
  left = t.left;
  split = t.split;
  handled = t.handled;
  count = t.count;
  last = t.last;
  partition = t.partition;
  from = t.from;
  complete = λ c. t.complete (h c);
}

pub Takes-all :
    (xs : List Message) (d e : Delivery) (A : Type 0) (t : Takes xs d A e) → A → xs ≡ t.taken
Takes-all xs d e A t a = t.split ∙ ap (λ l. t.taken ++ l) (t.complete a) ∙ append_nil t.taken

Takes-append :
    (xs ys : List Message) (d e f : Delivery) (A C : Type 0)
    → Takes xs d A e
    → A
    → Takes ys e C f
    → Takes (xs ++ ys) d C f
Takes-append xs ys d e f A C t a u = record {
  taken = t.taken ++ u.taken;
  left = u.left;
  split =
      ap (λ l. l ++ ys) (Takes-all xs d e A t a)
      ∙ ap (λ l. t.taken ++ l) u.split
      ∙ sym (append_assoc t.taken u.taken u.left);
  handled = u.handled ∙ ap (λ l. l ++ u.taken) t.handled ∙ append_assoc d.handled t.taken u.taken;
  count = omega (arith, t.count, u.count, length-append t.taken u.taken);
  last =
      u.last
      ∙ ap (λ n. last_of n u.taken) t.last
      ∙ sym (last_of-append d.result.last_offset t.taken u.taken);
  partition = u.partition ∙ t.partition;
  from = u.from ∙ t.from;
  complete = u.complete;
}

read_messages-Takes :
    (accepts : Handler) (ms : List Message) (d : Delivery)
    → Takes ms d ((read_messages accepts ms d).0 ≡ none) (read_messages accepts ms d).1
unfolding read_messages
read_messages-Takes accepts [] d = Takes-none [] d _ λ h. refl
read_messages-Takes accepts (m ∷ ms) d = elim (Bool-cases (accepts d.handled m)) [
  | inl e ↦ rw e (Takes-step m ms d _ _ (read_messages-Takes accepts ms (delivered m d)))
  | inr e ↦ rw e (Takes-none (m ∷ ms) d _ λ h. ground arith)
]

Takes-failed :
    (ms later : List Message) (d e : Delivery) (A C : Type 0)
    → Takes ms d A e
    → ¬ C
    → Takes (unless_empty ms later) d C e
Takes-failed [] later d e A C t h = Takes-stop [] [] d e A C t h
Takes-failed (m ∷ ms) later d e A C t h = Takes-stop (m ∷ ms) later d e A C t h

Takes-idle :
    (ms later : List Message) (d e : Delivery) (A C : Type 0)
    → is_empty ms ≡ true
    → Takes ms d A e
    → A
    → Takes (unless_empty ms later) d C e
Takes-idle [] later d e A C h t a = Takes-map [] d e A C t λ c. a
Takes-idle (m ∷ ms) later d e A C h t a = cc

Takes-more :
    (ms later : List Message) (d e f : Delivery) (A C : Type 0)
    → is_empty ms ≡ false
    → Takes ms d A e
    → A
    → Takes later e C f
    → Takes (unless_empty ms later) d C f
Takes-more [] later d e f A C h t a u = cc
Takes-more (m ∷ ms) later d e f A C h t a u = Takes-append (m ∷ ms) later d e f A C t a u

after_read-Takes :
    (p : ℕ) (b : Batch) (later : List Message) (d e : Delivery) (o : Option Message)
    (rest : Option ReplayError × Delivery)
    → Takes b.messages d (o ≡ none) e
    → Takes later e (rest.0 ≡ none) rest.1
    → Takes
        (unless_empty b.messages later)
        d
        ((after_read p b (o, e) rest).0 ≡ none)
        (after_read p b (o, e) rest).1
after_read-Takes p b later d e (some m) rest t u =
    Takes-failed b.messages later d e _ _ t λ h. ground arith
after_read-Takes p b later d e none rest t u = elim (Bool-cases b.broken) [
  | inl k ↦ rw k (Takes-failed b.messages later d e _ _ t λ h. ground arith)
  | inr k ↦ elim (Bool-cases (is_empty b.messages)) [
    | inl i ↦ rw (k, i) (Takes-idle b.messages later d e _ _ i t refl)
    | inr i ↦ elim (Bool-cases b.close_fails) [
      | inl c ↦ rw (k, i, c) (Takes-failed b.messages later d e _ _ t λ h. ground arith)
      | inr c ↦ rw (k, i, c) (Takes-more b.messages later d e rest.1 _ _ i t refl u)
    ]
  ]
]

pub read_batches-Takes :
    (accepts : Handler) (p : ℕ) (bs : List Batch) (d : Delivery)
    → Takes
        (until_empty bs)
        d
        ((read_batches accepts p bs d).0 ≡ none)
        (read_batches accepts p bs d).1
unfolding read_batches
read_batches-Takes accepts p [] d = Takes-none [] d _ λ h. refl
read_batches-Takes accepts p (b ∷ bs) d =
    let read = read_messages accepts b.messages d in
    elim (Bool-cases b.no_deadline) [
      | inl e ↦ rw e (Takes-none _ d _ λ h. ground arith)
      | inr e ↦ rw e (
          after_read-Takes p b (until_empty bs) d read.1 read.0 _
            (read_messages-Takes accepts b.messages d) (read_batches-Takes accepts p bs read.1))
    ]
