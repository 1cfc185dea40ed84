-- ===== src/Server/Backlog/Retries.antt =====
-- How the commits of skipBacklogFast are repeated, and how that ends.
use microservice_diagnosis.Prelude.{
  ℕ, zero, suc, ◌+◌, ◌<◌, ◌≤◌, String, Bool, true, false, none, List, [], ◌∷◌, map, ◌≡◌, ◌⊎◌, inl,
  inr, refl, sym, ap, arith, Bool-cases, subst,
}
use microservice_diagnosis.Server.Backlog.{
  Client, CommitRequest, Outcome, committed, timed_out, error_of, partitions_of, retry,
  all_committed, to_tail, skip_backlog_fast,
}
use microservice_diagnosis.Server.Backlog.Moves.{latest_of, IsBehind, Reaches-skip}

abbrev pub repeat : ℕ → CommitRequest → List CommitRequest
repeat zero r = []
repeat (suc n) r = r ∷ repeat n r

-- The first `n` commits from the round `i` on fail.
abbrev pub FailsFor : Client → CommitRequest → ℕ → ℕ → Type 0
FailsFor k r i n = (m : ℕ) → m < n → all_committed (k.offset_commit (i + m) r) ≡ false

-- With `ticks` ticks left in the round `i`: the commits that are sent are all the same, and the last
-- is the first that succeeds, or the one after the last tick.
pub record Tried (k : Client) (r : CommitRequest) (ticks i : ℕ) (out : Outcome × List CommitRequest)
    : Type 0 where
  pub failures : ℕ
  pub within : failures ≤ ticks
  pub sent : out.1 ≡ repeat (suc failures) r
  pub failing : FailsFor k r i failures
  pub ending :
      ((out.0 ≡ committed) × (all_committed (k.offset_commit (i + failures) r) ≡ true))
      ⊎ ((out.0 ≡ timed_out)
          × (failures ≡ ticks)
          × (all_committed (k.offset_commit (i + failures) r) ≡ false))

-- An answer at a round that is written in another way.
at_round :
    (k : Client) (r : CommitRequest) (b : Bool) (i j : ℕ)
    → i ≡ j
    → all_committed (k.offset_commit i r) ≡ b
    → all_committed (k.offset_commit j r) ≡ b
at_round k r b i j e h = subst (λ n. all_committed (k.offset_commit n r) ≡ b) e h

FailsFor-suc :
    (k : Client) (r : CommitRequest) (i n : ℕ)
    → all_committed (k.offset_commit i r) ≡ false
    → FailsFor k r (i + 1) n
    → FailsFor k r i (suc n)
FailsFor-suc k r i n first later zero h = at_round k r false i (i + 0) (omega arith) first
FailsFor-suc k r i n first later (suc m) h =
    at_round k r false (i + 1 + m) (i + suc m) (omega arith) (later m (omega (arith, h)))

Tried-first :
    (k : Client) (r : CommitRequest) (ticks i : ℕ)
    → all_committed (k.offset_commit i r) ≡ true
    → Tried k r ticks i (committed, r ∷ [])
Tried-first k r ticks i h = record {
  failures = 0;
  within = omega arith;
  sent = refl;
  failing = λ m lt. absurd (omega (arith, lt));
  ending = inl (refl, at_round k r true i (i + 0) (omega arith) h);
}

Tried-last :
    (k : Client) (r : CommitRequest) (i : ℕ)
    → all_committed (k.offset_commit i r) ≡ false
    → Tried k r zero i (timed_out, r ∷ [])
Tried-last k r i h = record {
  failures = 0;
  within = omega arith;
  sent = refl;
  failing = λ m lt. absurd (omega (arith, lt));
  ending = inr (refl, refl, at_round k r false i (i + 0) (omega arith) h);
}

Tried-next :
    (k : Client) (r : CommitRequest) (ticks i : ℕ) (out : Outcome × List CommitRequest)
    → all_committed (k.offset_commit i r) ≡ false
    → Tried k r ticks (i + 1) out
    → Tried k r (suc ticks) i (out.0, r ∷ out.1)
Tried-next k r ticks i out h t =
    let shift : i + 1 + t.failures ≡ i + suc t.failures = omega arith in
    record {
      failures = suc t.failures;
      within = omega (arith, t.within);
      sent = ap (λ l. r ∷ l) t.sent;
      failing = FailsFor-suc k r i t.failures h t.failing;
      ending = elim t.ending [
        | inl (a, b) ↦ inl (a, at_round k r true _ _ shift b)
        | inr (a, b, c) ↦ inr (a, ap suc b, at_round k r false _ _ shift c)
      ];
    }

retry-Tried : (k : Client) (r : CommitRequest) (ticks i : ℕ) → Tried k r ticks i (retry k r ticks i)
unfolding retry
retry-Tried k r zero i = elim (Bool-cases (all_committed (k.offset_commit i r))) [
  | inl e ↦ simp (e) (Tried-first k r zero i e)
  | inr e ↦ simp (e) (Tried-last k r i e)
]
retry-Tried k r (suc ticks) i = elim (Bool-cases (all_committed (k.offset_commit i r))) [
  | inl e ↦ simp (e) (Tried-first k r (suc ticks) i e)
  | inr e ↦ simp (e) (Tried-next k r ticks i _ e (retry-Tried k r ticks (i + 1)))
]

-- What a run of skipBacklogFast that commits has done.
pub record Repositions (k : Client) (group topic : String) (skip : ℕ)
    (out : Outcome × List CommitRequest) : Type 0 where
  pub is_behind : IsBehind k group topic skip
  pub request : CommitRequest
  pub same_group : request.group ≡ group
  pub same_topic : request.topic ≡ topic
  pub offsets :
      request.offsets
      ≡ map (λ p. (p, latest_of 0 p is_behind.latest)) (partitions_of topic is_behind.topics)
  pub tried : Tried k request k.ticks 0 out
  pub no_error : error_of out.0 ≡ none

map-same :
    (f g : ℕ → ℕ) (ps : List ℕ)
    → ((p : ℕ) → f p ≡ g p)
    → map {A = ℕ} {B = ℕ × ℕ} (λ p. (p, f p)) ps ≡ map (λ p. (p, g p)) ps
map-same f g [] h = refl
map-same f g (p ∷ ps) h = rw (h p, map-same f g ps h) refl

Tried-error_of :
    (k : Client) (r : CommitRequest) (ticks i : ℕ) (out : Outcome × List CommitRequest)
    → Tried k r ticks i out
    → error_of out.0 ≡ none
Tried-error_of k r ticks i out t = elim t.ending [
  | inl (a, b) ↦ rw a refl
  | inr (a, b, c) ↦ rw a refl
]

-- A group that is behind is moved to the last offset that the brokers gave for each partition of its
-- topic: the same request is sent until the first commit that succeeds, and no more often than once
-- plus once for each tick. No error is returned, also when the commits have timed out.
pub skip_backlog_fast-Repositions :
    (k : Client) (group topic : String) (skip : ℕ)
    → IsBehind k group topic skip
    → Repositions k group topic skip (skip_backlog_fast k group topic skip)
skip_backlog_fast-Repositions k group topic skip b =
    let v = Reaches-skip k group topic skip b in
    let req =
      to_tail group topic (partitions_of topic v.is_behind.topics) v.found.last_by_partition in
    let tried : Tried k req k.ticks 0 (skip_backlog_fast k group topic skip) =
      subst (λ out. Tried k req k.ticks 0 out) (sym v.retries) (retry-Tried k req k.ticks 0) in
    record {
      is_behind = v.is_behind;
      request = req;
      same_group = refl;
      same_topic = refl;
      offsets = map-same _ _ (partitions_of topic v.is_behind.topics) v.scanned.last;
      tried = tried;
      no_error = Tried-error_of k req k.ticks 0 _ tried;
    }
