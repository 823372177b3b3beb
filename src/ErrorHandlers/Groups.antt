-- ===== src/ErrorHandlers/Groups.antt =====
-- Every partition of a response stands under its error, in the order of the response.
use pykafka.Prelude.{
  ℤ, ◌≡◌, refl, sym, ap, ◌∙◌, eq_ℤ, eq_ℤ_iff, Bool-cases, inl, inr, Option, List, [], ◌∷◌, ◌++◌,
  append-nil, append_assoc, foldl, concat, map, if◌then◌else◌,
}
use pykafka.Dict.{Dict, insert, get_default, int_eq, text_eq}
use pykafka.Dict.Laws.{get_default-lookup, lookup-insert}
use pykafka.Protocol.Response.{Text}
use pykafka.ErrorHandlers.{Part, owned_partition, add_part, add_partitions, build_parts_by_error}

-- The parts whose error is `e`, in their order.
abbrev pub with_error {ℓ} : {O R : Type ℓ} → (R → ℤ) → ℤ → List (Part O R) → List (Part O R)
with_error error e [] = []
with_error error e (part ∷ parts) =
    let rest = with_error error e parts in if eq_ℤ (error part.1) e then part ∷ rest else rest

-- All parts of a response, topic by topic.
abbrev pub all_parts {ℓ} :
    {O R : Type ℓ} → Dict Text (Dict ℤ R) → Option (Dict ℤ O) → List (Part O R)
all_parts topics by_id = concat (map (λ t. map (λ p. (owned_partition by_id p.0, p.1)) t.1) topics)

module _ {ℓ} {O R : Type ℓ} (error : R → ℤ) (e : ℤ) where
  get_default-add_part :
      (part : Part O R) (d : Dict ℤ (List (Part O R)))
      → get_default [] e (add_part (error part.1) part d)
        ≡ get_default [] e d ++ with_error error e (part ∷ [])
  unfolding add_part
  get_default-add_part part d = elim (Bool-cases (eq_ℤ (error part.1) e)) [
    | inl p ↦
        let same : error part.1 ≡ e = (eq_ℤ_iff (error part.1) e).0 p in
        rw (
          get_default-lookup [] e
              (insert (error part.1) (get_default [] (error part.1) d ++ part ∷ []) d),
          lookup-insert (error part.1) e (get_default [] (error part.1) d ++ part ∷ []) d,
          p,
          same,
        )
    | inr p ↦ rw (
      get_default-lookup [] e
          (insert (error part.1) (get_default [] (error part.1) d ++ part ∷ []) d),
      lookup-insert (error part.1) e (get_default [] (error part.1) d ++ part ∷ []) d,
      p,
      append-nil (get_default [] e d),
      get_default-lookup [] e d,
    )
  ]

  with_error-append :
      (xs ys : List (Part O R))
      → with_error error e (xs ++ ys) ≡ with_error error e xs ++ with_error error e ys
  with_error-append [] ys = refl
  with_error-append (x ∷ xs) ys = elim (Bool-cases (eq_ℤ (error x.1) e)) [
    | inl p ↦ rw (p, with_error-append xs ys)
    | inr p ↦ rw (p, with_error-append xs ys)
  ]

  add_partitions-lem :
      (by_id : Option (Dict ℤ O)) (partitions : Dict ℤ R) (d : Dict ℤ (List (Part O R)))
      → get_default [] e (add_partitions error by_id d partitions)
        ≡ get_default [] e d
          ++ with_error error e (map (λ p. (owned_partition by_id p.0, p.1)) partitions)
  unfolding add_partitions
  add_partitions-lem by_id [] d = sym (append-nil _)
  add_partitions-lem by_id (p ∷ rest) d =
      let part : Part O R = (owned_partition by_id p.0, p.1) in
      add_partitions-lem by_id rest (add_part (error p.1) part d)
      ∙ ap
          (λ (l : List (Part O R)).
            l ++ with_error error e (map (λ q. (owned_partition by_id q.0, q.1)) rest))
          (get_default-add_part part d)
      ∙ append_assoc (get_default [] e d) (with_error error e (part ∷ [])) _
      ∙ ap (λ (l : List (Part O R)). get_default [] e d ++ l)
          (sym (with_error-append (part ∷ []) (map (λ q. (owned_partition by_id q.0, q.1)) rest)))

  topics_lem :
      (by_id : Option (Dict ℤ O)) (topics : Dict Text (Dict ℤ R)) (d : Dict ℤ (List (Part O R)))
      → get_default [] e (foldl (λ d t. add_partitions error by_id d t.1) d topics)
        ≡ get_default [] e d ++ with_error error e (all_parts topics by_id)
  topics_lem by_id [] d = sym (append-nil _)
  topics_lem by_id (t ∷ rest) d =
      let parts : List (Part O R) = map (λ p. (owned_partition by_id p.0, p.1)) t.1 in
      topics_lem by_id rest (add_partitions error by_id d t.1)
      ∙ ap (λ (l : List (Part O R)). l ++ with_error error e (all_parts rest by_id))
          (add_partitions-lem by_id t.1 d)
      ∙ append_assoc (get_default [] e d) (with_error error e parts) _
      ∙ ap (λ (l : List (Part O R)). get_default [] e d ++ l)
          (sym (with_error-append parts (all_parts rest by_id)))

  -- Under an error code, build_parts_by_error has exactly the partitions of the response that have that
  -- error, in their order, each with the OwnedPartition of its id, where that is known.
  pub build_parts_by_error_lem :
      (topics : Dict Text (Dict ℤ R)) (by_id : Option (Dict ℤ O))
      → get_default [] e (build_parts_by_error error topics by_id)
        ≡ with_error error e (all_parts topics by_id)
  unfolding build_parts_by_error get_default
  build_parts_by_error_lem topics by_id = topics_lem by_id topics []
