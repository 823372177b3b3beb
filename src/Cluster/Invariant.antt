-- ===== src/Cluster/Invariant.antt =====
-- Each broker that the cluster knows stands under its id, whatever its methods come to.
use pykafka.Prelude.{
  ℕ, zero, suc, ℤ, ◌≡◌, true, false, Bool, Option, none, some, [], ◌∷◌, All, if◌then◌else◌,
}
use pykafka.Result.{Result, ok, err, is_no_leader}
use pykafka.Action.{Action, pure, go_on-keeps, for_each-keeps}
use pykafka.Dict.{Dict, lookup, int_eq, text_eq}
use pykafka.Compression.{Codec}
use pykafka.Connection.Requests.{Sendall}
use pykafka.Protocol.Response.{Text}
use pykafka.Protocol.Response.Brokers.{BrokerMetadata, TopicMetadata}
use pykafka.Protocol.Response.Brokers.Distinct.{IsDistinct}
use pykafka.Cluster.{Cluster, update_broker, update_brokers}
use pykafka.Cluster.Known.{IsKnown}
use pykafka.Cluster.Rounds.{update_broker-Round}
use pykafka.Cluster.Updated.{removed-IsKnown}
use pykafka.Cluster.Metadata.{get_metadata}
use pykafka.Cluster.Asked.{get_metadata-Asked}
use pykafka.Cluster.Topics.{
  should_exclude_topic, renew_topic, add_or_renew_topic, update_topic_entry, update_topics,
}
use pykafka.Cluster.Update.{update_tries, update, unless_no_leader}
use pykafka.Prelude.{All-every}
use pykafka.Cluster.{Topic}

-- All rounds of _update_brokers, those that raise included.
update_brokers-IsKnown :
    (metadata : Dict ℤ BrokerMetadata) (c : Cluster)
    → IsDistinct metadata
    → IsKnown c
    → IsKnown (update_brokers metadata c).1
unfolding update_brokers
update_brokers-IsKnown metadata c d k =
    for_each-keeps IsKnown (λ m. m.1.id ≡ m.0) update_broker
      (λ m s same k'. (update_broker-Round m.0 m.1 s same k').0) metadata _ (under_ids metadata d)
      (removed-IsKnown metadata c k)
  where
    under_ids : (ms : Dict ℤ BrokerMetadata) → IsDistinct ms → All (λ m. m.1.id ≡ m.0) ms
    under_ids [] d = tt
    under_ids (m ∷ ms) d = (d.0, under_ids ms d.1.1)

renewed-IsKnown :
    (name : Text) (meta : TopicMetadata) (o : Option (Option Topic)) (c : Cluster)
    → IsKnown c
    → IsKnown (add_or_renew_topic name meta o c).1
unfolding renew_topic
renewed-IsKnown name meta none c k = record { known = k.known }
renewed-IsKnown name meta (some none) c k = k
renewed-IsKnown name meta (some (some t)) c k = record { known = k.known }

update_topics-IsKnown :
    (metadata : Dict Text TopicMetadata) (c : Cluster)
    → IsKnown c
    → IsKnown (update_topics metadata c).1
unfolding update_topics update_topic_entry
update_topics-IsKnown metadata c k =
    for_each-keeps IsKnown (λ m. Unit {0}) update_topic_entry
      (λ m s u k'.
        go_on-keeps IsKnown (should_exclude_topic s.exclude_internal_topics m.0, s) _ k'
          (λ excluded s' e k''. unless_excluded excluded m s' k''))
      metadata _ (All-every (λ m. tt) metadata) (record { known = k.known })
  where
    unless_excluded :
        (excluded : Bool) (m : Text × TopicMetadata) (s : Cluster)
        → IsKnown s
        → IsKnown
            ((if excluded then pure tt else λ d. add_or_renew_topic m.0 m.1 (lookup m.0 d.topics) d)
              s).1
    unless_excluded true m s k = k
    unless_excluded false m s k = renewed-IsKnown m.0 m.1 (lookup m.0 s.topics) s k

module _ (codec : Codec) (depth : ℕ) (sendall : Sendall) where
  unless_no_leader-IsKnown :
      (next : Action Cluster (Unit {0})) (o : Result (Unit {0}) × Cluster)
      → IsKnown o.1
      → IsKnown (next o.1).1
      → IsKnown (unless_no_leader codec depth sendall next o).1
  unless_no_leader-IsKnown next (ok u, c) k later = k
  unless_no_leader-IsKnown next (err e, c) k later =
      elim (is_no_leader e) as (λ t. IsKnown (if t then next c else (err e, c)).1) [
        | true ↦ later
        | false ↦ k
      ]

  update_tries-IsKnown :
      (n : ℕ) (c : Cluster) → IsKnown c → IsKnown (update_tries codec depth sendall n c).1
  unfolding update_tries
  update_tries-IsKnown zero c k = k
  update_tries-IsKnown (suc n) c k =
      let a = get_metadata-Asked codec depth sendall [] c k in
      go_on-keeps IsKnown (get_metadata codec depth sendall [] c) _ a.known (λ m s e k1.
        go_on-keeps IsKnown (update_brokers m.brokers s) _
          (update_brokers-IsKnown m.brokers s (a.distinct m e) k1)
          (λ u s' e' k2.
            (let o = update_topics m.topics s' in
              let k3 = update_topics-IsKnown m.topics s' k2 in
              unless_no_leader-IsKnown (update_tries codec depth sendall n) o k3
                (update_tries-IsKnown n o.1 k3))))

  -- Whatever Cluster.update comes to, each broker that the cluster knows still stands under its id.
  pub update-IsKnown : (c : Cluster) → IsKnown c → IsKnown (update codec depth sendall c).1
  unfolding update
  update-IsKnown c k = update_tries-IsKnown 3 c k
