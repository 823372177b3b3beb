-- ===== src/Cluster/Topics.antt =====
-- pykafka/cluster.py: TopicDict, which holds a topic once it was asked for.
use pykafka.Prelude.{
  ℕ, ℤ, pos, Bool, true, false, Option, none, some, List, [], ◌∷◌, ◌==◌, ◌&&◌, get_elem?, eq_ℤ,
  if◌then◌else◌,
}
use pykafka.Result.{Result, ok, err, attribute_error, key_error}
use pykafka.Action.{Action, pure, raise, lift, change, go_on, ◌>>=◌, ◌>>◌, for_each}
use pykafka.Dict.{Dict, lookup, insert, retain, int_eq, text_eq}
use pykafka.Compression.{Codec}
use pykafka.Connection.Requests.{Sendall}
use pykafka.Protocol.Response.{Text, raise_error}
use pykafka.Protocol.Response.Brokers.{TopicMetadata}
use pykafka.Broker.{Broker}
use pykafka.Topic.{update_topic}
use pykafka.Cluster.{Cluster, Ref, Topic}
use pykafka.Cluster.Metadata.{get_metadata}

abbrev pub starts_with_underscores : List ℕ → Bool
starts_with_underscores (a ∷ b ∷ name) = a == 95 && b == 95
starts_with_underscores _ = false

-- _should_exclude_topic. None has no `startswith`.
unfoldable pub should_exclude_topic : Bool → Text → Result Bool
should_exclude_topic false name = ok false
should_exclude_topic true none = err attribute_error
should_exclude_topic true (some name) = ok (starts_with_underscores name)

abbrev pub id_or_zero : Option Broker → ℤ
id_or_zero none = pos 0
id_or_zero (some b) = b.id

-- The id of a broker. Each reference has its broker.
abbrev pub id_at : List Broker → Ref → ℤ
id_at store ref = id_or_zero (get_elem? store ref)

abbrev pub keep_topic : Text → Cluster → Result (Unit {0}) × Topic → Result (Unit {0}) × Cluster
keep_topic name c (r, t) = (r, record c { topics = insert name (some t) c.topics })

-- `topic.update(meta)`
unfoldable pub renew_topic : Text → TopicMetadata → Topic → Action Cluster (Unit {0})
renew_topic name meta t c =
    keep_topic name c (update_topic (id_at c.store) c.brokers meta.partitions t)

-- `if name not in self.keys(): ... else: ...`
abbrev pub add_or_renew_topic :
    Text → TopicMetadata → Option (Option Topic) → Action Cluster (Unit {0})
add_or_renew_topic name meta none = change λ c. record c { topics = insert name none c.topics }
add_or_renew_topic name meta (some none) = pure tt
add_or_renew_topic name meta (some (some t)) = renew_topic name meta t

-- One round of the loop of _update_topics.
unfoldable pub update_topic_entry : Text × TopicMetadata → Action Cluster (Unit {0})
update_topic_entry (name, meta) c =
    go_on (should_exclude_topic c.exclude_internal_topics name, c)
      λ excluded.
        if excluded then pure tt else λ d. add_or_renew_topic name meta (lookup name d.topics) d

-- _update_topics
unfoldable pub update_topics : Dict Text TopicMetadata → Action Cluster (Unit {0})
update_topics metadata = do
  change λ c. record c { topics = retain metadata c.topics }
  for_each update_topic_entry metadata

-- meta.topics[key]
abbrev pub topic_at : Text → Dict Text TopicMetadata → Result TopicMetadata
topic_at name topics = elim (lookup name topics) [ none ↦ err key_error | some meta ↦ ok meta ]

module _ (codec : Codec) (depth : ℕ) (sendall : Sendall) where
  abbrev pub made_topic : Text → Cluster → Result (Unit {0}) × Topic → Result Topic × Cluster
  made_topic name c (err e, t) = (err e, c)
  made_topic name c (ok u, t) = (ok t, record c { topics = insert name (some t) c.topics })

  -- Topic(self._cluster(), meta.topics[key]), which is kept once it is made.
  unfoldable pub make_topic : List ℕ → Action Cluster Topic
  make_topic key = do
    response ← get_metadata codec depth sendall (key ∷ [])
    meta ← lift (topic_at (some key) response.topics)
    λ c. made_topic (some key) c (update_topic (id_at c.store) c.brokers meta.partitions [])

  abbrev pub topic_of : List ℕ → Option (Option Topic) → Action Cluster (Option Topic)
  topic_of key none = pure none
  topic_of key (some none) = make_topic key >>= λ t. pure (some t)
  topic_of key (some (some t)) = pure (some t)

  -- __getitem__, where None stands for a call of __missing__.
  unfoldable pub get_topic : List ℕ → Action Cluster (Option Topic)
  unfolding make_topic
  get_topic key c =
      go_on (should_exclude_topic c.exclude_internal_topics (some key), c)
        λ excluded.
          if excluded then raise key_error else λ d. topic_of key (lookup (some key) d.topics) d

  -- What _create_topic does on the error of the new topic, where the argument is `update`: whether its
  -- loop goes on.
  abbrev pub created_topic : Action Cluster (Unit {0}) → ℤ → Action Cluster Bool
  created_topic update error =
      if eq_ℤ error (pos 5)
      then pure true
      else (if eq_ℤ error (pos 0) then update >> pure false else lift (raise_error error))

  -- One round of the loop of _create_topic.
  unfoldable pub create_topic_round : Action Cluster (Unit {0}) → List ℕ → Action Cluster Bool
  create_topic_round update topic_name = do
    response ← get_metadata codec depth sendall (topic_name ∷ [])
    meta ← lift (topic_at (some topic_name) response.topics)
    created_topic update meta.error
