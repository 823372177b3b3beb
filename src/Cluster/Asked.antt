-- ===== src/Cluster/Asked.antt =====
-- What _get_metadata leaves and returns.
use pykafka.Prelude.{ℕ, ◌≡◌, sym, ap, subst, ◌∙◌, Option, none, some, List, [], ◌∷◌}
use pykafka.Result.{Result, ok, err}
use pykafka.Action.{Action, go_on, go_on-ok, go_on-keeps}
use pykafka.Dict.{int_eq, text_eq}
use pykafka.Compression.{Codec}
use pykafka.Connection.Requests.{Sendall}
use pykafka.Protocol.Response.Brokers.{MetadataResponse}
use pykafka.Protocol.Response.Brokers.Distinct.{IsDistinct, metadata_response-IsDistinct}
use pykafka.Broker.{request_metadata}
use pykafka.Broker.Kept.{request_metadata-IsSameBroker, request_metadata-ok}
use pykafka.Cluster.{Cluster, Ref, on_broker, next_connection}
use pykafka.Cluster.Known.{IsKnown, Same-IsKnown, next_connection-Same}
use pykafka.Cluster.Metadata.{
  ask_brokers, ask_seeds, ask_seed, seed_broker, or_next, unless_raised, get_metadata, ask_any,
  connected_brokers,
}
use pykafka.Cluster.Seeds.{split, parse_seed}
use pykafka.Cluster.Called.{on_broker-IsKnown, on_broker-ok}
use pykafka.Cluster.{Socket}

module _ (codec : Codec) (depth : ℕ) (sendall : Sendall) where
  -- What _get_metadata leaves: the brokers are known, and what it returns names each under its id.
  pub record Asked (o : Result MetadataResponse × Cluster) : Type 0 where
    pub known : IsKnown o.1
    pub distinct : (m : MetadataResponse) → o.0 ≡ ok m → IsDistinct m.brokers

  or_next-Asked :
      (o : Result (Option MetadataResponse) × Cluster) (next : Action Cluster MetadataResponse)
      → IsKnown o.1
      → ((m : MetadataResponse) → o.0 ≡ ok (some m) → IsDistinct m.brokers)
      → ((c : Cluster) → IsKnown c → Asked (next c))
      → Asked (go_on o (λ response. or_next codec depth sendall response next))
  or_next-Asked (err e, c) next k d later = record { known = k; distinct = λ m h. cc }
  or_next-Asked (ok none, c) next k d later = later c k
  or_next-Asked (ok (some m), c) next k d later = record {
    known = k;
    distinct = λ m' h. (let e : m ≡ m' = cc in d m' (ap (λ (x : MetadataResponse). ok (some x)) e));
  }

  ask_brokers-Asked :
      (topics : List (List ℕ)) (refs : List Ref) (c : Cluster)
      → IsKnown c
      → Asked (ask_brokers codec depth sendall topics refs c)
  unfolding ask_brokers
  ask_brokers-Asked topics [] c k = record { known = k; distinct = λ m h. cc }
  ask_brokers-Asked topics (ref ∷ refs) c k =
      let method = request_metadata codec depth sendall topics in
      or_next-Asked (on_broker ref method c) (ask_brokers codec depth sendall topics refs)
        (on_broker-IsKnown ref method c
          (λ b. (request_metadata-IsSameBroker codec depth sendall topics b).id) k)
        (λ m h.
          (let (b, e) = on_broker-ok ref method c (some m) h in
            let (bytes, read) = request_metadata-ok codec depth sendall topics b m e in
            metadata_response-IsDistinct bytes m read))
        (λ c' k'. ask_brokers-Asked topics refs c' k')

  unless_raised-Asked :
      (o : Result (Option MetadataResponse) × Cluster)
      → IsKnown o.1
      → IsKnown (unless_raised codec depth sendall o).1
  unless_raised-Asked (err e, c) k = k
  unless_raised-Asked (ok r, c) k = k

  unless_raised-ok :
      (o : Result (Option MetadataResponse) × Cluster) (m : MetadataResponse)
      → (unless_raised codec depth sendall o).0 ≡ ok (some m)
      → o.0 ≡ ok (some m)
  unless_raised-ok (err e, c) m h = cc
  unless_raised-ok (ok r, c) m h = h

  next_connection-IsKnown : (c : Cluster) → IsKnown c → IsKnown (next_connection c).1
  next_connection-IsKnown c k =
      let (created, c1, e, s) = next_connection-Same c in
      subst (λ (o : Result (Result Socket) × Cluster). IsKnown o.1) (sym e) (Same-IsKnown c c1 s k)

  ask_seed-IsKnown :
      (topics : List (List ℕ)) (seed : List ℕ) (c : Cluster)
      → IsKnown c
      → IsKnown (ask_seed codec depth sendall topics seed c).1
  unfolding ask_seed
  ask_seed-IsKnown topics seed c k =
      go_on-keeps IsKnown (parse_seed seed, c) _ k
        (λ hp s e k1.
          go_on-keeps IsKnown (seed_broker codec depth sendall hp s) _
            (go_on-keeps IsKnown (next_connection s) _ (next_connection-IsKnown s k1)
              (λ created s' e' k2. k2))
            (λ b s' e' k2. k2))

  -- What a seed host returned was read from some bytes.
  ask_seed-ok :
      (topics : List (List ℕ)) (seed : List ℕ) (c : Cluster) (m : MetadataResponse)
      → (ask_seed codec depth sendall topics seed c).0 ≡ ok (some m)
      → IsDistinct m.brokers
  unfolding ask_seed
  ask_seed-ok topics seed c m h =
      let (hp, e1, s1) = go_on-ok (parse_seed seed, c) _ (some m) h in
      let (b, e2, s2) =
        go_on-ok (seed_broker codec depth sendall hp c) _ (some m)
          (ap (λ (o : Result (Option MetadataResponse) × Cluster). o.0) (sym s1) ∙ h) in
      let (bytes, read) =
        request_metadata-ok codec depth sendall topics b m
          (ap (λ (o : Result (Option MetadataResponse) × Cluster). o.0) (sym (s1 ∙ s2)) ∙ h) in
      metadata_response-IsDistinct bytes m read

  ask_seeds-Asked :
      (topics seeds : List (List ℕ)) (c : Cluster)
      → IsKnown c
      → Asked (ask_seeds codec depth sendall topics seeds c)
  unfolding ask_seeds
  ask_seeds-Asked topics [] c k = record { known = k; distinct = λ m h. cc }
  ask_seeds-Asked topics (seed ∷ seeds) c k =
      let o = ask_seed codec depth sendall topics seed c in
      or_next-Asked (unless_raised codec depth sendall o)
        (ask_seeds codec depth sendall topics seeds)
        (unless_raised-Asked o (ask_seed-IsKnown topics seed c k))
        (λ m h. ask_seed-ok topics seed c m (unless_raised-ok o m h))
        (λ c' k'. ask_seeds-Asked topics seeds c' k')

  ask_any-Asked :
      (topics : List (List ℕ)) (refs : List Ref) (seeds : List (List ℕ)) (c : Cluster)
      → IsKnown c
      → Asked (ask_any codec depth sendall topics refs seeds c)
  ask_any-Asked topics [] seeds c k = ask_seeds-Asked topics seeds c k
  ask_any-Asked topics (ref ∷ refs) seeds c k = ask_brokers-Asked topics (ref ∷ refs) c k

  pub get_metadata-Asked :
      (topics : List (List ℕ)) (c : Cluster)
      → IsKnown c
      → Asked (get_metadata codec depth sendall topics c)
  unfolding get_metadata
  get_metadata-Asked topics c k =
      ask_any-Asked topics (connected_brokers c.store c.brokers) (split 44 c.seed_hosts) c k
