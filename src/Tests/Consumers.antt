-- ===== src/Tests/Consumers.antt =====
-- The theorems on the offsets of a consumer, on concrete ones.
use pykafka.Prelude.{
  refl, sym, ◌∙◌, +ℤ-pos, ◌≡◌, ℕ, ℤ, pos, negsuc, arith, inl, inr, true, some, List, [], ◌∷◌, map,
  All,
}
use pykafka.Result.{ok, err, key_error, exception}
use pykafka.Action.{Action, raise}
use pykafka.Dict.{Dict, lookup, int_eq}
use pykafka.Dict.{insert, get_default}
use pykafka.ErrorHandlers.{
  handle_partition_responses, parts_of, build_parts_by_error, add_partitions, add_part,
  owned_partition, handle_parts, with_success, call_handler,
}
use pykafka.Protocol.Header.{codes}
use pykafka.SimpleConsumer.{OwnedPartition, owned_partition as new_owned, set_offset}
use pykafka.SimpleConsumer.Consumer.{
  Consumer, Services, Settings, Committed, default_error_handlers,
}
use pykafka.SimpleConsumer.Offsets.{commit_offsets, fetch_offsets, commit_tries}
use pykafka.SimpleConsumer.Parts.{keys}
use pykafka.SimpleConsumer.Manager.{Store, keeping, managed}
use pykafka.SimpleConsumer.Committed.{IsKept}
use pykafka.Sorted.{sorted, insert_sorted}
use pykafka.Tests.Requests.{test_message}
use pykafka.SimpleConsumer.{message_count}
use pykafka.SimpleConsumer.Consumer.{release_lock}
use pykafka.SimpleConsumer.Fetch.{
  fetch, fetch_each, request_each, fetch_if_any, handle_messages, unlock_partitions,
}
use pykafka.SimpleConsumer.Held.{Same}
use pykafka.SimpleConsumer.{flush, drain, build_offset_request, build_fetch_request}
use pykafka.Dict.{modify_at}
use pykafka.SimpleConsumer.Consumer.{Limits}
use pykafka.Protocol.Offset.{PartitionOffsetRequest}
use pykafka.Protocol.Response.{Text}
use pykafka.Prelude.{ap, eq_ℤ, total, ◌+◌}
use pykafka.SimpleConsumer.Held.{one, times}
use pykafka.SimpleConsumer.Resetting.{IsAnswering}
use pykafka.SimpleConsumer.Pairs.{owned_offsets, pop_each, pop}
use pykafka.SimpleConsumer.Reset.{
  reset_at, reset_pairs, reset_tries, lock_and_flush, ask_leaders, ask_leader, handle_reset,
}
use pykafka.SimpleConsumer.Unlocked.{IsById, IsOnce, fetch-Same}
use pykafka.SimpleConsumer.Mixed.{commit_tries-mixed}
use pykafka.SimpleConsumer.Resumed.{resumed, IsCommitted, fetch_offsets-commit_offsets}

abbrev group_settings : Settings
group_settings = record {
  consumer_group = some (codes "group");
  auto_offset_reset = negsuc 1;
  offsets_commit_max_retries = 5;
  offsets_fetch_max_retries = 5;
  offsets_reset_max_retries = 5;
  queued_max_messages = 2000;
  fetch_message_max_bytes = pos 1048576;
  fetch_min_bytes = pos 1;
  fetch_wait_max_ms = pos 100;
}

abbrev consumed : ℕ → ℕ → ℤ × OwnedPartition
consumed id offset = (pos id, set_offset (pos offset) (new_owned (codes "test") (pos id) (some 0)))

abbrev consumer_of : Dict ℤ OwnedPartition → Consumer Store
consumer_of partitions = record {
  cluster = record { stored = []; rejects = [] };
  offset_manager = some 0;
  partitions = partitions;
  partitions_by_leader = [];
  locks = [];
  busy = [];
  running = true;
}

abbrev no_reset : List (ℤ × ℤ) → Action (Consumer Store) (Unit {0})
no_reset offsets = raise exception

abbrev first : Consumer Store
first = consumer_of (consumed 0 7 ∷ consumed 1 3 ∷ [])

abbrev second : Consumer Store
second = consumer_of (consumed 1 0 ∷ [])

first-IsKept : IsKept first.partitions
unfolding set_offset
first-IsKept = record {
  some_ps = λ e. absurd cc;
  keyset = ((λ e. absurd cc, tt), (tt, tt));
  by_ids = (refl, (refl, tt));
}

second-IsKept : IsKept second.partitions
unfolding set_offset
second-IsKept = record { some_ps = λ e. absurd cc; keyset = (tt, tt); by_ids = (refl, tt) }

second-IsCommitted : All (λ p. IsCommitted first.partitions p.0) second.partitions
unfolding set_offset lookup
second-IsCommitted = (
  ((consumed 1 3).1, refl, λ e. (let clash : pos 4 ≡ negsuc 0 = sym (+ℤ-pos 3 1) ∙ e in absurd cc)),
  tt,
)

fetch_offsets-commit_offsets_example :
    let services = keeping (codes "test") 0 in
    let committed =
      commit_offsets services group_settings no_reset
        (managed 0 (record { stored = []; rejects = pos 14 ∷ pos 16 ∷ [] }) first) in
    let started =
      fetch_offsets services group_settings no_reset
        (managed 0 (record committed.1.cluster { rejects = pos 16 ∷ [] }) second) in
    (committed.0 ≡ ok tt)
    × ((responses : List (ℤ × Committed)) × (started.0 ≡ ok (some responses))
        × (map (λ r. r.0) responses ≡ keys second.partitions))
    × (started.1.partitions ≡ map (resumed first.partitions) second.partitions)
fetch_offsets-commit_offsets_example =
    fetch_offsets-commit_offsets group_settings (codes "test") 0 no_reset 103 (codes "roup") []
      (pos 14 ∷ pos 16 ∷ []) (pos 16 ∷ []) first second refl first-IsKept second-IsKept
      second-IsCommitted (inl refl, (inr refl, tt)) (inr refl, tt) (omega arith) (omega arith)

-- A manager that accepts partition 0 and turns partition 1 away.
abbrev mixing : Services Store
mixing = record (keeping (codes "test") 0) {
  commit_consumer_group_offsets = λ m group generation consumer reqs s.
      (ok ((some (codes "test"), (pos 0, pos 0) ∷ (pos 1, pos 14) ∷ []) ∷ []), s);
}

commit_tries-mixed_example :
    commit_tries mixing group_settings no_reset 5 (codes "group") [] first ≡ (err key_error, first)
unfolding handle_partition_responses parts_of build_parts_by_error add_partitions add_part
    owned_partition insert get_default lookup handle_parts with_success call_handler
    default_error_handlers
commit_tries-mixed_example =
    commit_tries-mixed mixing group_settings no_reset 4 (codes "group") [] first first first
      ((some (codes "test"), (pos 0, pos 0) ∷ (pos 1, pos 14) ∷ []) ∷ [])
      ((pos 0, (some (pos 0), pos 0) ∷ []) ∷ (pos 14, (some (pos 1), pos 14) ∷ []) ∷ []) (pos 14)
      refl refl ((_, refl), ((_, refl), tt)) (λ e. absurd cc) (λ e. absurd cc) (λ e. absurd cc)

-- Both partitions have the same leader, which answers with a message for the first, and that the offset is
-- out of range for the second. It answers each partition that it is asked for its offset limits.
abbrev limits_of : List PartitionOffsetRequest → Dict ℤ Limits
limits_of reqs = map (λ r. (r.partition_id, (pos 5 ∷ [], pos 0))) reqs

abbrev answering_fetch : Services Store
answering_fetch = record (keeping (codes "test") 0) {
  leader = λ id s. some 0;
  request_offset_limits = λ broker reqs s. (ok ((some (codes "test"), limits_of reqs) ∷ []), s);
  fetch_messages = λ broker reqs timeout bytes s. (
    ok (
        (
          some (codes "test"),
          (
            pos 0,
            record {
              max_offset = pos 9;
              messages = record test_message { offset = pos 8 } ∷ [];
              error = pos 0;
            },
          )
              ∷ (pos 1, record { max_offset = pos 4; messages = []; error = pos 1 })
              ∷ [],
        )
        ∷ []),
    s,
  );
}

times-limits_of :
    (id : ℤ) (reqs : List PartitionOffsetRequest)
    → times id (keys (limits_of reqs)) ≡ times id (map (λ r. r.partition_id) reqs)
times-limits_of id [] = refl
times-limits_of id (r ∷ reqs) =
    ap (λ (n : ℕ). one (eq_ℤ r.partition_id id) + n) (times-limits_of id reqs)

answering_fetch-IsAnswering : IsAnswering answering_fetch
answering_fetch-IsAnswering broker reqs cluster response few e id =
    let same : (some (codes "test"), limits_of reqs) ∷ [] ≡ response = cc in
    ap (λ (r : Dict Text (Dict ℤ Limits)). total (λ t. times id (keys t.1)) r) (sym same)
    ∙ omega (arith, times-limits_of id reqs)

abbrev fetching : Consumer Store
fetching = record first {
  partitions_by_leader = (some 0, pos 1 ∷ pos 0 ∷ []) ∷ [];
  locks = pos 1 ∷ [];
}

-- No id is both.
once : IsOnce (pos 1 ∷ pos 0 ∷ [])
once id = ground arith

fetching-IsOnce : All (λ g. IsOnce g.1) fetching.partitions_by_leader
fetching-IsOnce = (once, tt)

fetching-IsById : IsById fetching.partitions
unfolding set_offset
fetching-IsById = (refl, (refl, tt))

abbrev resets : List (ℤ × ℤ) → Action (Consumer Store) (Unit {0})
resets = reset_at answering_fetch group_settings 2

fetched_through : (fetch answering_fetch group_settings resets fetching).0 ≡ ok tt
unfolding fetch sorted insert_sorted fetch_each request_each fetch_if_any insert lookup
    message_count handle_partition_responses parts_of build_parts_by_error add_partitions add_part
    owned_partition get_default handle_parts with_success call_handler default_error_handlers
    handle_messages unlock_partitions release_lock set_offset reset_at reset_pairs owned_offsets
    reset_tries lock_and_flush flush drain ask_leaders ask_leader pop_each pop handle_reset
    commit_offsets commit_tries build_offset_request build_fetch_request modify_at
fetched_through = refl

fetch-Same_example : Same fetching (fetch answering_fetch group_settings resets fetching).1
fetch-Same_example =
    fetch-Same answering_fetch group_settings 2 fetching fetching-IsById answering_fetch-IsAnswering
      fetching-IsOnce fetched_through
