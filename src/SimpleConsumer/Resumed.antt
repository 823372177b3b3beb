-- ===== src/SimpleConsumer/Resumed.antt =====
-- A consumer resumes where another one has committed, by the offsets that the offset manager keeps.
use pykafka.Prelude.{
  refl, sym, ap, ◌∙◌, ◌≡◌, ◌≢◌, ℕ, ℤ, pos, negsuc, ◌+ℤ◌, ◌-ℤ◌, ◌<◌, Bool-cases, Option, none, some,
  List, [], ◌∷◌, ◌++◌, length, map, All, eq_ℤ, inl, inr, succ_pred, if◌then◌else◌,
}
use pykafka.Result.{Result, ok}
use pykafka.Action.{Action}
use pykafka.Dict.{Dict, lookup, int_eq}
use pykafka.SimpleConsumer.{OwnedPartition, set_offset, build_offset_commit_request}
use pykafka.SimpleConsumer.Consumer.{Consumer, Settings, Committed}
use pykafka.SimpleConsumer.Offsets.{commit_offsets, commit_group, fetch_offsets, fetch_group}
use pykafka.SimpleConsumer.Parts.{keys, keys-answers}
use pykafka.SimpleConsumer.Manager.{Store, IsRetried, committed_by, kept, fetched, keeping, managed}
use pykafka.SimpleConsumer.Committed.{IsKept, requests, commit_tries-stores}
use pykafka.SimpleConsumer.Fetching.{IsStored, set_kept}
use pykafka.SimpleConsumer.Fetches.{fetch_tries-sets}

-- A partition at the offset of another consumer's.
abbrev pub resume : Option OwnedPartition → OwnedPartition → OwnedPartition
resume none p = p
resume (some q) p = set_offset q.last_offset_consumed p

abbrev pub resumed : Dict ℤ OwnedPartition → ℤ × OwnedPartition → ℤ × OwnedPartition
resumed ps (id, p) = (id, resume (lookup id ps) p)

-- One of the partitions, whose next offset is not the -1 that stands for none.
abbrev pub IsCommitted : Dict ℤ OwnedPartition → ℤ → Type 0
IsCommitted ps id =
    (q : OwnedPartition) × (lookup id ps ≡ some q) × (q.last_offset_consumed +ℤ pos 1 ≢ negsuc 0)

-- What is kept of a partition is behind the last offset that was consumed.
lookup-committed :
    (ps : Dict ℤ OwnedPartition) (stored : Dict ℤ ℤ) (id : ℤ) (q : OwnedPartition)
    → All (λ p. p.1.partition_id ≡ p.0) ps
    → lookup id ps ≡ some q
    → lookup id (committed_by (requests ps) ++ stored) ≡ some (q.last_offset_consumed +ℤ pos 1)
unfolding lookup build_offset_commit_request
lookup-committed [] stored id q h found = absurd cc
lookup-committed ((k, v) ∷ ps) stored id q (e, h) found =
    ap
      (λ (z : ℤ).
        if eq_ℤ z id
        then some (v.last_offset_consumed +ℤ pos 1)
        else lookup id (committed_by (requests ps) ++ stored))
      e
    ∙ elim (Bool-cases (eq_ℤ k id)) [
      | inl t ↦
          let same : some v ≡ some q = rw t at found in
          let same_p : v ≡ q = cc in
          rw t (ap (λ (p : OwnedPartition). some (p.last_offset_consumed +ℤ pos 1)) same_p)
      | inr t ↦ rw t (lookup-committed ps stored id q h (rw t at found))
    ]

module _ (ps : Dict ℤ OwnedPartition) (stored : Dict ℤ ℤ)
    (h : All (λ p. p.1.partition_id ≡ p.0) ps) where
  abbrev keeps : Dict ℤ ℤ
  keeps = committed_by (requests ps) ++ stored

  all-IsStored :
      (qs : Dict ℤ OwnedPartition)
      → All (λ p. IsCommitted ps p.0) qs
      → All (IsStored keeps) (keys qs)
  all-IsStored [] c = tt
  all-IsStored (p ∷ qs) ((q, found, ne), c) =
      (λ e. ne (sym (ap kept (lookup-committed ps stored p.0 q h found)) ∙ e), all-IsStored qs c)

  set_kept-resumed :
      (qs : Dict ℤ OwnedPartition)
      → All (λ p. IsCommitted ps p.0) qs
      → map (λ p. (p.0, set_kept keeps p.0 p.1)) qs ≡ map (resumed ps) qs
  set_kept-resumed [] c = refl
  set_kept-resumed (p ∷ qs) ((q, found, ne), c) =
      let rest : Dict ℤ OwnedPartition = map (λ p. (p.0, set_kept keeps p.0 p.1)) qs in
      ap (λ (o : Option ℤ). (p.0, set_offset (kept o -ℤ pos 1) p.1) ∷ rest)
        (lookup-committed ps stored p.0 q h found)
      ∙ ap (λ (z : ℤ). (p.0, set_offset z p.1) ∷ rest) (succ_pred q.last_offset_consumed)
      ∙ ap (λ (o : Option OwnedPartition). (p.0, resume o p.1) ∷ rest) (sym found)
      ∙ ap (λ (l : Dict ℤ OwnedPartition). resumed ps p ∷ l) (set_kept-resumed qs c)

-- Where an offset manager keeps what is committed, but first turns requests away as loading or as not
-- the coordinator, fewer times than there are tries, and both consumers of the group have partitions,
-- each once and under its id: commit_offsets of the first goes through, and then fetch_offsets of the
-- second, whose partitions are among those of the first, returns a response for each of them and sets
-- each to the last offset that the first has consumed, if none of these is -2.
pub fetch_offsets-commit_offsets :
    (settings : Settings) (topic : List ℕ) (manager : ℕ)
    (reset : List (ℤ × ℤ) → Action (Consumer Store) (Unit {0})) (ch : ℕ) (group : List ℕ)
    (stored : Dict ℤ ℤ) (before after : List ℤ) (c c' : Consumer Store)
    → settings.consumer_group ≡ some (ch ∷ group)
    → IsKept c.partitions
    → IsKept c'.partitions
    → All (λ p. IsCommitted c.partitions p.0) c'.partitions
    → All IsRetried before
    → All IsRetried after
    → length before < settings.offsets_commit_max_retries
    → length after < settings.offsets_fetch_max_retries
    → let services = keeping topic manager in
      let committed =
        commit_offsets services settings reset
          (managed manager (record { stored = stored; rejects = before }) c) in
      let started =
        fetch_offsets services settings reset
          (managed manager (record committed.1.cluster { rejects = after }) c') in
      (committed.0 ≡ ok tt)
      × ((responses : List (ℤ × Committed)) × (started.0 ≡ ok (some responses))
          × (map (λ r. r.0) responses ≡ keys c'.partitions))
      × (started.1.partitions ≡ map (resumed c.partitions) c'.partitions)
unfolding commit_offsets fetch_offsets
fetch_offsets-commit_offsets settings topic manager reset ch group stored before after c c' in_group
      k k' of_c hb ha lb la =
    let services = keeping topic manager in
    let s : Consumer Store = managed manager (record { stored = stored; rejects = before }) c in
    let (leaders, run) =
      commit_tries-stores settings topic manager reset (ch ∷ group) before
        settings.offsets_commit_max_retries stored c k hb lb in
    let commits : commit_offsets services settings reset s ≡ _ =
      ap (λ (g : Option (List ℕ)). commit_group services settings reset g s) in_group ∙ run in
    let ks : Dict ℤ ℤ = committed_by (requests c.partitions) ++ stored in
    let (leaders', run') =
      fetch_tries-sets settings topic manager reset (ch ∷ group) ks after
        settings.offsets_fetch_max_retries c' k'
        (all-IsStored c.partitions stored k.by_ids c'.partitions of_c) ha la in
    let start : Store → Result (Option (List (ℤ × Committed))) × Consumer Store =
      λ store. fetch_offsets services settings reset (managed manager store c') in
    let fetches : start (record { stored = ks; rejects = after }) ≡ _ =
      ap
        (λ (g : Option (List ℕ)).
          fetch_group services settings reset g
            (managed manager (record { stored = ks; rejects = after }) c'))
        in_group
      ∙ run' in
    let all =
      ap
        (λ (x : Result (Unit {0}) × Consumer Store). start (record x.1.cluster { rejects = after }))
        commits
      ∙ fetches in
    (
      ap (λ (x : Result (Unit {0}) × Consumer Store). x.0) commits,
      (
        _,
        ap (λ (x : Result (Option (List (ℤ × Committed))) × Consumer Store). x.0) all,
        keys-answers (fetched topic manager ks (pos 0)) (keys c'.partitions),
      ),
      ap (λ (x : Result (Option (List (ℤ × Committed))) × Consumer Store). x.1.partitions) all
          ∙ set_kept-resumed c.partitions stored k.by_ids c'.partitions of_c,
    )
