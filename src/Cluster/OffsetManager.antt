-- ===== src/Cluster/OffsetManager.antt =====
-- The offset manager that is found is a broker that the cluster knows.
use pykafka.Prelude.{pos, ◌+◌, ◌<◌, arith}
use pykafka.Result.{protocol, socket_disconnected, exception}
use pykafka.Prelude.{
  ℕ, zero, suc, ℤ, ◌≡◌, refl, sym, ap, ◌∙◌, true, false, Option, none, some, List, map, get_elem?,
  if◌then◌else◌,
}
use pykafka.Result.{Result, ok, err, is_disconnected}
use pykafka.Action.{Action, go_on, ◌>>◌}
use pykafka.Dict.{lookup, int_eq}
use pykafka.Compression.{Codec}
use pykafka.Connection.Requests.{Sendall}
use pykafka.Protocol.Response.Brokers.{ConsumerMetadataResponse, consumer_metadata_response}
use pykafka.Broker.{Broker, ask_broker, consumer_metadata}
use pykafka.Broker.Kept.{ask_broker-IsSameBroker}
use pykafka.Cluster.{Cluster, Ref, on_broker}
use pykafka.Cluster.Known.{IsKnown}
use pykafka.Cluster.Called.{on_broker-IsKnown}
use pykafka.Cluster.Invariant.{update-IsKnown}
use pykafka.Cluster.Update.{
  update, discovered, discover_tries, coordinator, raise_last, get_offset_manager,
  is_no_coordinator, choose,
}
use pykafka.Prelude.{subst}

-- A broker that the cluster knows, under its id.
pub record IsListed (ref : Ref) (c : Cluster) : Type 0 where
  pub broker : Broker
  pub listed : lookup broker.id c.brokers ≡ some ref
  pub at_ref : get_elem? c.store ref ≡ some broker

-- The brokers are known, and what is returned, if it is not None, is one of them.
pub record Manages (o : Result (Option Ref) × Cluster) : Type 0 where
  pub known : IsKnown o.1
  pub manager : (ref : Ref) → o.0 ≡ ok (some ref) → IsListed ref o.1

coordinator-Manages :
    (id : ℤ) (c : Cluster) → IsKnown c → Manages (coordinator (lookup id c.brokers) c)
coordinator-Manages id c k = by_lookup (lookup id c.brokers) refl
  where
    by_lookup : (o : Option Ref) → lookup id c.brokers ≡ o → Manages (coordinator o c)
    by_lookup none e = record { known = k; manager = λ ref h. cc }
    by_lookup (some ref) e = record {
      known = k;
      manager = λ r h.
          (let same : ref ≡ r = cc in
            let (b, at_ref, id_b) = k.known id ref e in
            record {
              broker = b;
              listed = ap (λ i. lookup i c.brokers) id_b ∙ e ∙ ap some same;
              at_ref = ap (get_elem? c.store) (sym same) ∙ at_ref;
            });
    }

module _ (codec : Codec) (depth : ℕ) (sendall : Sendall) where
  raise_last-Manages :
      (n : ℕ) (next : Action Cluster (Option Ref)) (c : Cluster)
      → IsKnown c
      → Manages (next c)
      → Manages (raise_last codec depth sendall n next c)
  raise_last-Manages zero next c k later = record { known = k; manager = λ ref h. cc }
  raise_last-Manages (suc n) next c k later = later

  discovered-Manages :
      (n : ℕ) (next : Action Cluster (Option Ref)) (o : Result ConsumerMetadataResponse × Cluster)
      → IsKnown o.1
      → ((c : Cluster) → IsKnown c → Manages (next c))
      → Manages (discovered codec depth sendall n next o)
  discovered-Manages n next (ok res, c) k later = coordinator-Manages res.coordinator_id c k
  discovered-Manages n next (err e, c) k later =
      elim (is_no_coordinator e)
        as (λ t. Manages (
          if t
          then raise_last codec depth sendall n next c
          else (if is_disconnected e
              then (update codec depth sendall >> next) c
              else (err e, c)))) [
                | true ↦ raise_last-Manages n next c k (later c k)
                | false ↦
                    elim (is_disconnected e)
                      as (λ t.
                        Manages
                          (if t then (update codec depth sendall >> next) c else (err e, c))) [
                            | true ↦
                                after_update (update codec depth sendall c)
                                  (update-IsKnown codec depth sendall c k)
                            | false ↦ record { known = k; manager = λ ref h. cc }
                          ]
              ]
    where
      after_update : (u : Result (Unit {0}) × Cluster) → IsKnown u.1 → Manages (go_on u (λ _. next))
      after_update (ok x, d) k' = later d k'
      after_update (err x, d) k' = record { known = k'; manager = λ ref h. cc }

  discover_tries-Manages :
      (n : ℕ) (group : List ℕ) (ref : Ref) (c : Cluster)
      → IsKnown c
      → Manages (discover_tries codec depth sendall n group ref c)
  unfolding discover_tries
  discover_tries-Manages zero group ref c k = record { known = k; manager = λ r h. cc }
  discover_tries-Manages (suc n) group ref c k =
      let q = consumer_metadata (record { consumer_group = group }) in
      discovered-Manages n (discover_tries codec depth sendall n group ref)
        (on_broker ref (ask_broker codec depth sendall consumer_metadata_response q) c)
        (on_broker-IsKnown ref (ask_broker codec depth sendall consumer_metadata_response q) c
          (λ b. (ask_broker-IsSameBroker codec depth sendall consumer_metadata_response q b).id) k)
        (λ c' k'. discover_tries-Manages n group ref c' k')

  get_offset_manager-Manages :
      (n : ℕ) (group : List ℕ) (c : Cluster)
      → IsKnown c
      → Manages (get_offset_manager codec depth sendall n group c)
  unfolding get_offset_manager
  get_offset_manager-Manages n group c k = by_choice (choose n (map (λ b. b.1) c.brokers))
    where
      by_choice :
          (r : Result Ref) → Manages (go_on (r, c) (discover_tries codec depth sendall 5 group))
      by_choice (ok ref) = discover_tries-Manages 5 group ref c k
      by_choice (err e) = record { known = k; manager = λ ref h. cc }

  module _ (group : List ℕ) (ref : Ref) where
    -- The broker is asked for the coordinator of the group.
    abbrev pub asked : Cluster → Result ConsumerMetadataResponse × Cluster
    asked c =
        on_broker ref
          (ask_broker codec depth sendall consumer_metadata_response
            (consumer_metadata (record { consumer_group = group })))
          c

    -- So many times the broker is asked in vain: the coordinator is not available, or the connection is
    -- lost and the cluster updated.
    pub data Waits : ℕ → Cluster → Cluster → Type 0 where
      at_once : {c : Cluster} → Waits 0 c c
      unavailable :
          {n : ℕ} {c d d' : Cluster}
          → asked c ≡ (err (protocol (pos 15)), d)
          → Waits n d d'
          → Waits (suc n) c d'
      disconnected :
          {n : ℕ} {c d e d' : Cluster}
          → asked c ≡ (err socket_disconnected, d)
          → update codec depth sendall d ≡ (ok tt, e)
          → Waits n e d'
          → Waits (suc n) c d'

    -- What comes of it in the end: the broker under the id that is answered; an exception where there is
    -- none; and where the broker was asked in vain five times, ConsumerCoordinatorNotAvailable if that is
    -- what was answered last, and None if the connection was lost.
    pub data Comes : ℕ → Cluster → Result (Option Ref) × Cluster → Type 0 where
      found :
          {n : ℕ} {d d' : Cluster} (res : ConsumerMetadataResponse) (r : Ref)
          → n < 5
          → asked d ≡ (ok res, d')
          → lookup res.coordinator_id d'.brokers ≡ some r
          → Comes n d (ok (some r), d')
      not_found :
          {n : ℕ} {d d' : Cluster} (res : ConsumerMetadataResponse)
          → n < 5
          → asked d ≡ (ok res, d')
          → lookup res.coordinator_id d'.brokers ≡ none
          → Comes n d (err exception, d')
      gives_up :
          {d d' : Cluster}
          → asked d ≡ (err (protocol (pos 15)), d')
          → Comes 4 d (err (protocol (pos 15)), d')
      silent :
          {d d' e : Cluster}
          → asked d ≡ (err socket_disconnected, d')
          → update codec depth sendall d' ≡ (ok tt, e)
          → Comes 4 d (ok none, e)

    abbrev tries : ℕ → Action Cluster (Option Ref)
    tries m = discover_tries codec depth sendall m group ref

    after : ℕ → Result ConsumerMetadataResponse × Cluster → Result (Option Ref) × Cluster
    after left o = discovered codec depth sendall left (tries left) o

    Comes-few : (t : ℕ) (d : Cluster) (x : Result (Option Ref) × Cluster) → Comes t d x → t < 5
    Comes-few t d x (found res r few a l) = few
    Comes-few t d x (not_found res few a l) = few
    Comes-few t d x (gives_up a) = omega arith
    Comes-few t d x (silent a u) = omega arith

    -- The round in which something comes of it, with the rounds that are left.
    discover_tries-last :
        (m t : ℕ) (d : Cluster) (x : Result (Option Ref) × Cluster)
        → suc m + t ≡ 5
        → Comes t d x
        → tries (suc m) d ≡ x
    unfolding discover_tries after
    discover_tries-last m t d x five (found {d' = d'} res r few a l) =
        ap (after m) a ∙ ap (λ (o : Option Ref). coordinator o d') l
    discover_tries-last m t d x five (not_found {d' = d'} res few a l) =
        ap (after m) a ∙ ap (λ (o : Option Ref). coordinator o d') l
    discover_tries-last zero t d x five (gives_up a) = ap (after zero) a
    discover_tries-last (suc m) t d x five (gives_up a) = absurd (omega (arith, five))
    discover_tries-last zero t d x five (silent a u) =
        ap (after zero) a ∙ ap (λ (o : Result (Unit {0}) × Cluster). go_on o (λ _. tries zero)) u
    discover_tries-last (suc m) t d x five (silent a u) = absurd (omega (arith, five))

    -- Five rounds, of which `k` are over and `m` are left.
    discover_tries-Comes :
        (m n k t : ℕ) (c d : Cluster) (x : Result (Option Ref) × Cluster)
        → m + k ≡ 5
        → t ≡ n + k
        → Comes t d x
        → Waits n c d
        → tries m c ≡ x
    unfolding discover_tries after
    discover_tries-Comes zero n k t c d x five sum o w =
        absurd (omega (arith, five, sum, Comes-few t d x o))
    discover_tries-Comes (suc m) n k t c d x five sum o at_once =
        discover_tries-last m t c x (omega (arith, five, sum)) o
    discover_tries-Comes (suc zero) n k t c d x five sum o (unavailable {n = n'} a w) =
        absurd (omega (arith, five, sum, Comes-few t d x o))
    discover_tries-Comes (suc (suc m)) n k t c d x five sum o (unavailable {n = n'} {d = c'} a w) =
        ap (after (suc m)) a
        ∙ discover_tries-Comes (suc m) n' (suc k) t c' d x (omega (arith, five))
            (omega (arith, sum)) o w
    discover_tries-Comes (suc m) n k t c d x five sum o (disconnected {n = n'} {e = c'} a u w) =
        ap (after m) a
        ∙ ap (λ (r : Result (Unit {0}) × Cluster). go_on r (λ _. tries m)) u
        ∙ discover_tries-Comes m n' (suc k) t c' d x (omega (arith, five)) (omega (arith, sum)) o w

  -- Where each broker that the cluster knows stands under its id, and the broker that is chosen is asked in
  -- vain so many times (the coordinator is not available, or the connection is lost and the cluster
  -- updated) before something comes of it: get_offset_manager returns the broker under the id that is
  -- answered, which has this id; raises an exception where there is none; and, where all of the five tries
  -- are in vain, raises ConsumerCoordinatorNotAvailable if that is what came last, and returns None if the
  -- connection was lost.
  pub get_offset_manager_lem :
      (n : ℕ) (group : List ℕ) (ref : Ref) (k : ℕ) (c d : Cluster)
      (x : Result (Option Ref) × Cluster)
      → IsKnown c
      → choose n (map (λ b. b.1) c.brokers) ≡ ok ref
      → Waits group ref k c d
      → Comes group ref k d x
      → (get_offset_manager codec depth sendall n group c ≡ x) × Manages x
  unfolding get_offset_manager
  get_offset_manager_lem n group ref k c d x known chosen w o =
      let runs : get_offset_manager codec depth sendall n group c ≡ x =
        ap (λ (r : Result Ref). go_on (r, c) (discover_tries codec depth sendall 5 group)) chosen
        ∙ discover_tries-Comes group ref 5 k 0 k c d x refl (omega arith) o w in
      (runs, subst Manages runs (get_offset_manager-Manages n group c known))
