-- ===== src/Server/Backlog/Moves.antt =====
-- When skipBacklogFast moves a consumer group.
use microservice_diagnosis.Prelude.{
  ℕ, zero, suc, ◌<◌, ℤ, pos, negsuc, String, Bool, false, some, List, [], ◌∷◌, All, ◌≡◌, ◌≢◌, ◌↔◌,
  ◌⊎◌, inl, inr, refl, sym, ◌∙◌, ap, arith, ltb, leb, ◌==◌, ◌||◌, Bool-cases, Option-cases,
  if◌then◌else◌, tests, subst,
}
use microservice_diagnosis.Server.Backlog.{
  PartitionOffset, Client, CommitRequest, Outcome, SkipError, partitions_of, is_empty, lookup,
  lag_of, is_uncommitted, Scan, scanned, scan, empty_scan, retry, threshold_of, decide,
  skip_backlog_fast, to_tail,
}

abbrev pub Some : (PartitionOffset → Type 0) → List PartitionOffset → Type 0
Some P [] = ⊥
Some P (po ∷ rest) = P po ⊎ Some P rest

-- The last offset that the response has for a partition.
abbrev pub latest_of : ℕ → ℕ → List PartitionOffset → ℕ
latest_of d p [] = d
latest_of d p (po ∷ rest) = latest_of (if p == po.partition then po.last_offset else d) p rest

abbrev committed_offset : List (ℕ × ℤ) → PartitionOffset → ℤ
committed_offset offsets po = lookup (pos 0) po.partition offsets

-- What the loop over the last offsets finds, from `s` to `t`.
pub record Scanned (offsets : List (ℕ × ℤ)) (latest : List PartitionOffset) (s t : Scan)
    : Type 0 where
  pub read : All (λ po. po.failed ≡ false) latest
  pub lag :
      (n : ℕ)
      → (n < t.lag) ↔ (
          (n < s.lag) ⊎ Some (λ po. n < lag_of po.last_offset (committed_offset offsets po)) latest)
  pub uncommitted :
      (t.uncommitted ≡ false)
      ↔ ((s.uncommitted ≡ false) × All (λ po. committed_offset offsets po ≢ negsuc 0) latest)
  pub last :
      (p : ℕ) → lookup 0 p t.last_by_partition ≡ latest_of (lookup 0 p s.last_by_partition) p latest

greater_lem : (a b n : ℕ) → (n < (if ltb a b then b else a)) ↔ ((n < a) ⊎ (n < b))
greater_lem a b n = elim (Bool-cases (ltb a b)) [
  | inl e ↦ rw e (grind (tests, e))
  | inr e ↦ rw e (ground arith)
]

regroup : (A B C D E : Type 0) → A ↔ (B ⊎ C) → B ↔ (D ⊎ E) → A ↔ (D ⊎ (E ⊎ C))
regroup A B C D E f g = (
  λ a. elim (f.0 a) [
    | inl b ↦ elim (g.0 b) [ inl d ↦ inl d | inr e ↦ inr (inl e) ]
    | inr c ↦ inr (inr c)
  ],
  λ h. elim h [
    | inl d ↦ f.1 (inl (g.1 (inl d)))
    | inr r ↦ elim r [ inl e ↦ f.1 (inl (g.1 (inr e))) | inr c ↦ f.1 (inr c) ]
  ],
)

regroup_both : (A B C D E : Type 0) → A ↔ (B × C) → B ↔ (D × E) → A ↔ (D × (E × C))
regroup_both A B C D E f g = (
  λ a. let (b, c) = f.0 a in let (d, e) = g.0 b in (d, (e, c)),
  λ (d, (e, c)). f.1 (g.1 (d, e), c),
)

or_false : (a b : Bool) → ((a || b) ≡ false) ↔ ((a ≡ false) × (b ≡ false))
or_false a b = ground arith

uncommitted_lem : (c : ℤ) → (is_uncommitted c ≡ false) ↔ (c ≢ negsuc 0)
uncommitted_lem c = ground arith

both_right : (A B C : Type 0) → B ↔ C → (A × B) ↔ (A × C)
both_right A B C f = (λ (a, b). (a, f.0 b), λ (a, c). (a, f.1 c))

or_uncommitted :
    (b : Bool) (c : ℤ) → ((b || is_uncommitted c) ≡ false) ↔ ((b ≡ false) × (c ≢ negsuc 0))
or_uncommitted b c = ground (arith, or_false b (is_uncommitted c), uncommitted_lem c)

Scanned-nil : (offsets : List (ℕ × ℤ)) (s : Scan) → Scanned offsets [] s s
Scanned-nil offsets s = record {
  read = tt;
  lag = λ n. (λ h. inl h, λ h. elim h [ inl k ↦ k | inr k ↦ absurd k ]);
  uncommitted = (λ h. (h, tt), λ h. h.0);
  last = λ p. refl;
}

Scanned-cons :
    (offsets : List (ℕ × ℤ)) (po : PartitionOffset) (rest : List PartitionOffset) (s t : Scan)
    → po.failed ≡ false
    → Scanned offsets rest (scanned offsets po s) t
    → Scanned offsets (po ∷ rest) s t
Scanned-cons offsets po rest s t read v = record {
  read = (read, v.read);
  lag = λ n.
      regroup _ _ _ _ _ (v.lag n)
        (greater_lem s.lag (lag_of po.last_offset (committed_offset offsets po)) n);
  uncommitted =
      regroup_both _ _ _ _ _ v.uncommitted
        (or_uncommitted s.uncommitted (committed_offset offsets po));
  last = λ p. v.last p;
}

scan-Scanned :
    (offsets : List (ℕ × ℤ)) (latest : List PartitionOffset) (s t : Scan)
    → scan offsets latest s ≡ inr t
    → Scanned offsets latest s t
unfolding scan
scan-Scanned offsets [] s t e =
    subst (λ u. Scanned offsets [] s u) (ground arith) (Scanned-nil offsets s)
scan-Scanned offsets (po ∷ rest) s t e = elim (Bool-cases po.failed) [
  | inl h ↦ ground arith
  | inr h ↦
      Scanned-cons offsets po rest s t h
        (scan-Scanned offsets rest (scanned offsets po s) t (ground arith))
]

scan-read :
    (offsets : List (ℕ × ℤ)) (latest : List PartitionOffset) (s : Scan)
    → All (λ po. po.failed ≡ false) latest
    → (t : Scan) × (scan offsets latest s ≡ inr t)
unfolding scan
scan-read offsets [] s h = (s, refl)
scan-read offsets (po ∷ rest) s h = rw h.0 (scan-read offsets rest (scanned offsets po s) h.1)

-- The brokers answer, some partition is further than the threshold behind its last offset, and the
-- group has committed an offset of every partition.
pub record IsBehind (k : Client) (group topic : String) (skip : ℕ) : Type 0 where
  pub topics : List (String × List ℕ)
  pub offsets : List (ℕ × ℤ)
  pub latest : List PartitionOffset
  pub described : k.metadata ≡ some topics
  pub has_partitions : partitions_of topic topics ≢ []
  pub fetched : k.consumer_offsets group topic ≡ some offsets
  pub listed : k.list_offsets topic (partitions_of topic topics) ≡ some latest
  pub read : All (λ po. po.failed ≡ false) latest
  pub committed : All (λ po. lookup (pos 0) po.partition offsets ≢ negsuc 0) latest
  pub behind :
      Some
        (λ po. threshold_of skip < lag_of po.last_offset (lookup (pos 0) po.partition offsets))
        latest

Sum-cases : (r : SkipError ⊎ Scan) → ((x : SkipError) × (r ≡ inl x)) ⊎ ((s : Scan) × (r ≡ inr s))
Sum-cases (inl x) = inl (x, refl)
Sum-cases (inr s) = inr (s, refl)

-- A run of skipBacklogFast that reaches the loop of commits.
pub record Reaches (k : Client) (group topic : String) (skip : ℕ)
    (out : Outcome × List CommitRequest) : Type 0 where
  pub is_behind : IsBehind k group topic skip
  pub found : Scan
  pub scanned : Scanned is_behind.offsets is_behind.latest empty_scan found
  pub retries :
      out
      ≡ retry k
          (to_tail group topic (partitions_of topic is_behind.topics) found.last_by_partition)
          k.ticks
          0

retry-nonempty : (k : Client) (req : CommitRequest) (ticks i : ℕ) → (retry k req ticks i).1 ≢ []
unfolding retry
retry-nonempty k req zero i h = ground arith
retry-nonempty k req (suc ticks) i h = ground arith

is_empty_lem : (ps : List ℕ) → (is_empty ps ≡ false) ↔ (ps ≢ [])
is_empty_lem ps = ground arith

some_lag : (k n : ℕ) → (leb n k ≡ false) ↔ (k < n)
some_lag k n = ground arith

not_at_start : (n : ℕ) → ¬ (n < 0)
not_at_start n h = omega (arith, h)

pub Reaches-skip :
    (k : Client) (group topic : String) (skip : ℕ) (b : IsBehind k group topic skip)
    → Reaches k group topic skip (skip_backlog_fast k group topic skip)
unfolding skip_backlog_fast
Reaches-skip k group topic skip b =
    let (found, scans) = scan-read b.offsets b.latest empty_scan b.read in
    let v = scan-Scanned b.offsets b.latest empty_scan found scans in
    record {
      is_behind = b;
      found = found;
      scanned = v;
      retries =
          rw
            (
              b.described,
              (is_empty_lem _).1 b.has_partitions,
              b.fetched,
              b.listed,
              scans,
              (some_lag (threshold_of skip) found.lag).1
                  ((v.lag (threshold_of skip)).1 (inr b.behind)),
              v.uncommitted.1 (refl, b.committed),
            )
            refl;
    }

decided :
    (k : Client) (group topic : String) (skip : ℕ) (topics : List (String × List ℕ))
    (offsets : List (ℕ × ℤ)) (latest : List PartitionOffset)
    → k.metadata ≡ some topics
    → partitions_of topic topics ≢ []
    → k.consumer_offsets group topic ≡ some offsets
    → k.list_offsets topic (partitions_of topic topics) ≡ some latest
    → (decide k group topic skip (partitions_of topic topics) (scan offsets latest empty_scan)).1
      ≢ []
    → IsBehind k group topic skip
decided k group topic skip topics offsets latest described has fetched listed h =
    elim (Sum-cases (scan offsets latest empty_scan)) [
      | inl (x, e) ↦ absurd (h (rw e refl))
      | inr (found, e) ↦ elim (Bool-cases (leb found.lag (threshold_of skip))) [
        | inl l ↦ absurd (h (rw (e, l) refl))
        | inr l ↦ elim (Bool-cases found.uncommitted) [
          | inl u ↦ absurd (h (rw (e, l, u) refl))
          | inr u ↦
              let v = scan-Scanned offsets latest empty_scan found e in
              record {
                topics = topics;
                offsets = offsets;
                latest = latest;
                described = described;
                has_partitions = has;
                fetched = fetched;
                listed = listed;
                read = v.read;
                committed = (v.uncommitted.0 u).1;
                behind = elim ((v.lag (threshold_of skip)).0 ((some_lag _ _).0 l)) [
                  | inl z ↦ absurd (not_at_start _ z)
                  | inr more ↦ more
                ];
              }
        ]
      ]
    ]

skip_backlog_fast-IsBehind :
    (k : Client) (group topic : String) (skip : ℕ)
    → (skip_backlog_fast k group topic skip).1 ≢ []
    → IsBehind k group topic skip
unfolding skip_backlog_fast retry
skip_backlog_fast-IsBehind k group topic skip h = elim (Option-cases k.metadata) [
  | inl e ↦ absurd (h (rw e refl))
  | inr (ts, e) ↦ elim (Bool-cases (is_empty (partitions_of topic ts))) [
    | inl i ↦ absurd (h (rw (e, i) refl))
    | inr i ↦ elim (Option-cases (k.consumer_offsets group topic)) [
      | inl f ↦ absurd (h (rw (e, i, f) refl))
      | inr (offsets, f) ↦ elim (Option-cases (k.list_offsets topic (partitions_of topic ts))) [
        | inl g ↦ absurd (h (rw (e, i, f, g) refl))
        | inr (latest, g) ↦
            decided k group topic skip ts offsets latest e ((is_empty_lem _).0 i) f g
              λ empty. h (rw (e, i, f, g) empty)
      ]
    ]
  ]
]

-- skipBacklogFast requests a commit exactly when the brokers answer, the topic has partitions, none
-- of their last offsets comes with an error, some partition is further than the threshold behind, and
-- none is uncommitted.
pub skip_backlog_fast_iff :
    (k : Client) (group topic : String) (skip : ℕ)
    → ((skip_backlog_fast k group topic skip).1 ≢ []) ↔ IsBehind k group topic skip
skip_backlog_fast_iff k group topic skip = (
  skip_backlog_fast-IsBehind k group topic skip,
  λ b h.
      let r = Reaches-skip k group topic skip b in
      retry-nonempty k (to_tail group topic _ r.found.last_by_partition) k.ticks 0
        (sym (ap (λ out. out.1) r.retries) ∙ h),
)
