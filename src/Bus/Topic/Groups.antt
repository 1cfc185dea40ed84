-- ===== src/Bus/Topic/Groups.antt =====
-- How the names of topics and of consumer groups relate.
use Prim.Native.String.{String}
use text.Mathlib.TextLemmas.{append_cancel_left, append_cancel_right}
use microservice_diagnosis.Prelude.{
  ◌≡◌, ◌↔◌, true, refl, sym, ap, ◌∙◌, inl, inr, Bool-cases, Option-cases, arith, has_prefix,
  after_prefix, after_prefix-append, trim_prefix, after_prefix-some,
}
use microservice_diagnosis.Bus.Topic.{dotted_prefix, topic, group_id}

-- A name that Topic has prefixed passes through it unchanged.
pub topic_idem : (base : String) → topic (topic base) ≡ topic base
unfolding topic
topic_idem base = elim (Bool-cases (has_prefix base dotted_prefix)) [
  | inl e ↦ rw (e, e)
  | inr e ↦ rw (e, after_prefix-append dotted_prefix base)
]

-- A group is named after the base name of its topic, whether or not the caller has prefixed it.
pub group_id-topic : (service base : String) → group_id service (topic base) ≡ group_id service base
unfolding topic group_id
group_id-topic service base = elim (Option-cases (after_prefix dotted_prefix base)) [
  | inl e ↦ rw (e, after_prefix-append dotted_prefix base)
  | inr (r, e) ↦ rw (e, e)
]

-- Two services that consume one topic share a group only if they are the same service.
group_id_service : (s s' t : String) → group_id s t ≡ group_id s' t → s ≡ s'
unfolding group_id
group_id_service s s' t h = append_cancel_right s s' _ (append_cancel_left _ _ _ h)

trim_prefix-cancel :
    (t t' : String)
    → has_prefix t dotted_prefix ≡ has_prefix t' dotted_prefix
    → trim_prefix t dotted_prefix ≡ trim_prefix t' dotted_prefix
    → t ≡ t'
trim_prefix-cancel t t' h e = elim (Option-cases (after_prefix dotted_prefix t)) [
  | inl p ↦ elim (Option-cases (after_prefix dotted_prefix t')) [
    | inl q ↦ ground arith
    | inr (r', q) ↦ ground arith
  ]
  | inr (r, p) ↦ elim (Option-cases (after_prefix dotted_prefix t')) [
    | inl q ↦ ground arith
    | inr (r', q) ↦
        ground
          (arith, after_prefix-some dotted_prefix t r p, after_prefix-some dotted_prefix t' r' q)
  ]
]

topic-has_prefix : (base : String) → has_prefix (topic base) dotted_prefix ≡ true
unfolding topic
topic-has_prefix base = elim (Bool-cases (has_prefix base dotted_prefix)) [
  | inl e ↦ rw (e, e)
  | inr e ↦ rw (e, after_prefix-append dotted_prefix base)
]

pub group_id_topics :
    (s t t' : String)
    → has_prefix t dotted_prefix ≡ has_prefix t' dotted_prefix
    → group_id s t ≡ group_id s t'
    → t ≡ t'
unfolding group_id
group_id_topics s t t' p h =
    trim_prefix-cancel t t' p
      (append_cancel_left _ _ _ (append_cancel_left _ _ _ (append_cancel_left _ _ _ h)))

-- When two consumer groups of topics that Topic names have the same name, they belong to one service
-- exactly when they are on one topic: so the services that share a topic have a group each, and a
-- service has a group of its own for each of its topics.
pub group_id_iff :
    (s s' b b' : String)
    → group_id s (topic b) ≡ group_id s' (topic b')
    → (s ≡ s') ↔ (topic b ≡ topic b')
group_id_iff s s' b b' h = (
  λ e.
      group_id_topics s (topic b) (topic b') (topic-has_prefix b ∙ sym (topic-has_prefix b'))
        (h ∙ ap (λ x. group_id x (topic b')) (sym e)),
  λ e. group_id_service s s' (topic b) (h ∙ ap (λ x. group_id s' x) (sym e)),
)

-- Nothing more can be said: two services on two topics may share a group.
shared_group : group_id "agent" "mfdh.log-x" ≡ group_id "agent-log" "mfdh.x"
unfolding group_id after_prefix
shared_group = refl
