-- ===== src/ErrorHandlers.antt =====
-- pykafka/utils/error_handlers.py: the partitions of a response by their error, and their handlers.
pub mod Groups
use pykafka.Prelude.{ℕ, ℤ, pos, Option, none, some, List, [], ◌∷◌, ◌++◌, foldl}
use pykafka.Action.{Action, pure, ◌>>◌, ◌>>=◌}
use pykafka.Dict.{Dict, lookup, insert, get_default, int_eq, text_eq}
use pykafka.Protocol.Response.{Text}

-- What is grouped: the OwnedPartition, where it is known, and the partition's response.
abbrev pub Part {ℓ} : Type ℓ → Type ℓ → Type ℓ
Part O R = Option O × R

-- `if partitions_by_id is not None and partition_id in partitions_by_id`
unfoldable pub owned_partition {ℓ} : {O : Type ℓ} → Option (Dict ℤ O) → ℤ → Option O
owned_partition none partition_id = none
owned_partition (some partitions_by_id) partition_id = lookup partition_id partitions_by_id

-- parts_by_error[errcode].append(part)
unfoldable pub add_part {ℓ} : {P : Type ℓ} → ℤ → P → Dict ℤ (List P) → Dict ℤ (List P)
add_part errcode part parts_by_error =
    insert errcode (get_default [] errcode parts_by_error ++ part ∷ []) parts_by_error

module _ {ℓ} {O R : Type ℓ} (error : R → ℤ) where
  -- The inner loop.
  unfoldable pub add_partitions :
      Option (Dict ℤ O) → Dict ℤ (List (Part O R)) → Dict ℤ R → Dict ℤ (List (Part O R))
  add_partitions by_id parts_by_error partitions =
      foldl (λ d p. add_part (error p.1) (owned_partition by_id p.0, p.1) d) parts_by_error
        partitions

  -- build_parts_by_error
  unfoldable pub build_parts_by_error :
      Dict Text (Dict ℤ R) → Option (Dict ℤ O) → Dict ℤ (List (Part O R))
  build_parts_by_error topics by_id = foldl (λ d t. add_partitions by_id d t.1) [] topics

-- A handler acts on a state, and may raise.
abbrev pub Handler {ℓ κ} : Type ℓ → Type κ → Type (ℓ ⊔ κ)
Handler P S = List P → Action S (Unit {0})

module _ {ℓ κ} {P : Type ℓ} {S : Type κ} where
  -- The handlers, with `success_handler` for 0 where it is not None.
  unfoldable pub with_success : Option (Handler P S) → Dict ℤ (Handler P S) → Dict ℤ (Handler P S)
  with_success none error_handlers = error_handlers
  with_success (some success_handler) error_handlers = insert (pos 0) success_handler error_handlers

  -- `if errcode in error_handlers: error_handlers[errcode](parts)`
  unfoldable pub call_handler : Option (Handler P S) → Handler P S
  call_handler none parts = pure tt
  call_handler (some handler) parts = handler parts

  -- The loop of handle_partition_responses.
  unfoldable pub handle_parts : Dict ℤ (Handler P S) → Dict ℤ (List P) → Action S (Unit {0})
  handle_parts error_handlers [] = pure tt
  handle_parts error_handlers ((errcode, parts) ∷ rest) =
      call_handler (lookup errcode error_handlers) parts >> handle_parts error_handlers rest

-- `if parts_by_error is None: ...`
unfoldable pub parts_of {ℓ} :
    {O R : Type ℓ}
    → (R → ℤ)
    → Option (Dict ℤ (List (Part O R)))
    → Dict Text (Dict ℤ R)
    → Option (Dict ℤ O)
    → Dict ℤ (List (Part O R))
parts_of error none topics by_id = build_parts_by_error error topics by_id
parts_of error (some parts_by_error) topics by_id = parts_by_error

-- handle_partition_responses: the partitions by error, after the handlers.
unfoldable pub handle_partition_responses {ℓ κ} :
    {O R : Type ℓ} {S : Type κ}
    → (R → ℤ)
    → Dict ℤ (Handler (Part O R) S)
    → Option (Dict ℤ (List (Part O R)))
    → Option (Handler (Part O R) S)
    → Dict Text (Dict ℤ R)
    → Option (Dict ℤ O)
    → Action S (Dict ℤ (List (Part O R)))
handle_partition_responses error error_handlers parts_by_error success_handler topics by_id =
    let parts = parts_of error parts_by_error topics by_id in
    handle_parts (with_success success_handler error_handlers) parts >> pure parts
