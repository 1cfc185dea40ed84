-- ===== src/Server/Readers/Own.antt =====
-- The readers of Run, each with a group of its own.
use microservice_diagnosis.Prelude.{
  String, true, some, List, [], ◌∷◌, find?, any, str_eq, eq_iff, ◌≡◌, refl, arith, sym, ◌∙◌, All,
  has_prefix, after_prefix,
}
use microservice_diagnosis.Bus.Topic.{dotted_prefix}
use microservice_diagnosis.Bus.Topic.Groups.{group_id_topics}
use microservice_diagnosis.Bus.Consumer.{Message}
use microservice_diagnosis.Server.FanIn.{topics}
use microservice_diagnosis.Server.Readers.{reader_of, readers, commit_reader}

find?-readers :
    (brokers ts : List String) (t : String)
    → any (str_eq t) ts ≡ true
    → find? (λ r. str_eq r.topic t) (readers brokers ts) ≡ some (reader_of brokers t)
find?-readers brokers [] t h = ground arith
find?-readers brokers (u ∷ ts) t h =
    ground (arith, eq_iff u t, eq_iff t u, find?-readers brokers ts t)

-- The offset of a message of one of the topics is committed with the reader of that topic, and so in
-- the group that skipBacklogFast has looked at.
pub commit_reader-own :
    (brokers ts : List String) (m : Message)
    → any (str_eq m.topic) ts ≡ true
    → commit_reader (readers brokers ts) m ≡ some (reader_of brokers m.topic)
unfolding commit_reader
commit_reader-own brokers ts m h = rw (find?-readers brokers ts m.topic h) refl

-- Two topics of the program that share the orchestrator's group are one topic.
pub reader_of-group :
    (brokers : List String) (t u : String)
    → has_prefix t dotted_prefix ≡ true
    → has_prefix u dotted_prefix ≡ true
    → (reader_of brokers t).group_id ≡ (reader_of brokers u).group_id
    → t ≡ u
reader_of-group brokers t u p q h = group_id_topics "orchestrator" t u (p ∙ sym q) h

-- The five topics have the prefix that this takes.
topics_prefixed : All (λ t. has_prefix t dotted_prefix ≡ true) topics
unfolding after_prefix
topics_prefixed = (refl, (refl, (refl, (refl, (refl, tt)))))
