-- ===== src/Producer/Requested.antt =====
-- The request of a batch holds the messages of the batch, partition by partition.
use pykafka.Prelude.{
  ℕ, ℤ, ◌≡◌, ◌≢◌, refl, sym, ap, ◌∙◌, inl, inr, true, false, Bool-cases, none, some, List, [], ◌∷◌,
  ◌++◌, append-nil, append_assoc, map, concat, foldl, All, eq_ℤ, eq_ℤ_iff, if◌then◌else◌,
}
use pykafka.Dict.{Dict, lookup, insert, get_default, int_eq, bytes_eq}
use pykafka.Dict.Keys.{IsKeyset, insert-IsKeyset}
use pykafka.Protocol.MessageSet.{MessageSet, message_set, append_message}
use pykafka.Protocol.Produce.{ProduceRequest, add_message, Msets}
use pykafka.Producer.Sending.{
  Queued, Options, as_message, as_queued, request_of, set_msgs, set_msgs_if,
}
use mathlib.Core.List.{map-append}
use pykafka.Prelude.{subst}
use pykafka.Dict.Laws.{lookup-none}
use pykafka.Dict.{bytes_beq}
use pykafka.Dict.{bytes_beq_iff}
use pykafka.Dict.Laws.{insert-cons_ne}
use pykafka.Dict.Laws.{insert-cons_eq}
use pykafka.Dict.Laws.{get_default-cons_ne}
use pykafka.Dict.Laws.{get_default-cons_eq}

-- The messages of a partition, in their order.
abbrev pub of_partition : ℤ → List Queued → List Queued
of_partition p [] = []
of_partition p (q ∷ qs) =
    let rest = of_partition p qs in if eq_ℤ q.partition_id p then q ∷ rest else rest

abbrev pub collected : ℤ → Dict ℤ MessageSet → List Queued
collected p d = concat (map (set_msgs_if p) d)

abbrev pub add_part : ℕ → Dict ℤ MessageSet → Queued → Dict ℤ MessageSet
add_part compression d q =
    insert q.partition_id
      (append_message (as_message q) (get_default (message_set compression []) q.partition_id d)) d

eq_ℤ-refl : (k : ℤ) → eq_ℤ k k ≡ true
eq_ℤ-refl k = (eq_ℤ_iff k k).1 refl

collected-absent : (p : ℤ) (d : Dict ℤ MessageSet) → All (λ s. p ≢ s.0) d → collected p d ≡ []
collected-absent p [] a = refl
collected-absent p ((k, s) ∷ d) (ne, a) = elim (Bool-cases (eq_ℤ k p)) [
  | inl e ↦ absurd (ne (sym ((eq_ℤ_iff k p).0 e)))
  | inr e ↦ rw e (collected-absent p d a)
]

-- A message is added to those of its partition.
collected-add_part :
    (compression : ℕ) (p : ℤ) (q : Queued) (d : Dict ℤ MessageSet)
    → IsKeyset d
    → collected p (add_part compression d q) ≡ collected p d ++ of_partition p (q ∷ [])
unfolding insert get_default append_message
collected-add_part compression p q [] h = append-nil _
collected-add_part compression p q ((k, s) ∷ d) (a, h) = elim (Bool-cases (eq_ℤ k q.partition_id)) [
  | inl e ↦
      let same : k ≡ q.partition_id = (eq_ℤ_iff k q.partition_id).0 e in
      elim (Bool-cases (eq_ℤ k p)) [
        | inl e' ↦
            let to_p : eq_ℤ q.partition_id p ≡ true = ap (λ i. eq_ℤ i p) (sym same) ∙ e' in
            let none_else : collected p d ≡ [] =
              collected-absent p d (subst (λ i. All (λ s. i ≢ s.0) d) ((eq_ℤ_iff k p).0 e') a) in
            rw (e, e', to_p, none_else, append-nil (map (as_queued k) s.contents))
              (append-nil _
                ∙ map-append (as_queued k) s.contents (as_message q ∷ [])
                ∙ ap (λ (j : ℤ). map (as_queued k) s.contents ++ as_queued j (as_message q) ∷ [])
                    same)
        | inr e' ↦
            let not_p : eq_ℤ q.partition_id p ≡ false = ap (λ i. eq_ℤ i p) (sym same) ∙ e' in
            rw (e, e', not_p) (sym (append-nil (collected p d)))
      ]
  | inr e ↦
      let v : MessageSet = message_set compression [] in
      let later : add_part compression ((k, s) ∷ d) q ≡ (k, s) ∷ add_part compression d q =
        insert-cons_ne k q.partition_id _ s d e
        ∙ ap
            (λ (x : MessageSet). (k, s) ∷ insert q.partition_id (append_message (as_message q) x) d)
            (get_default-cons_ne k q.partition_id v s d e) in
      ap (collected p) later
      ∙ ap (λ (l : List Queued). set_msgs_if p (k, s) ++ l) (collected-add_part compression p q d h)
      ∙ sym (append_assoc (set_msgs_if p (k, s)) (collected p d) (of_partition p (q ∷ [])))
]

-- Those that are looked up.
pub lookup-collected :
    (p : ℤ) (d : Dict ℤ MessageSet) (s : MessageSet)
    → IsKeyset d
    → lookup p d ≡ some s
    → collected p d ≡ map (as_queued p) s.contents
unfolding lookup
lookup-collected p [] s h e = cc
lookup-collected p ((k, s') ∷ d) s (a, h) e = elim (Bool-cases (eq_ℤ k p)) [
  | inl q ↦
      let same : k ≡ p = (eq_ℤ_iff k p).0 q in
      let found : some s' ≡ some s = rw q at e in
      let here : s' ≡ s = cc in
      rw q (
        ap (λ (l : List Queued). set_msgs (k, s') ++ l)
          (collected-absent p d (subst (λ i. All (λ s. i ≢ s.0) d) same a))
        ∙ append-nil _
        ∙ ap (λ (x : MessageSet). map (as_queued k) x.contents) here
        ∙ ap (λ (j : ℤ). map (as_queued j) s.contents) same)
  | inr q ↦ let later : lookup p d ≡ some s = rw q at e in rw q (lookup-collected p d s h later)
]

pub lookup-none-collected : (p : ℤ) (d : Dict ℤ MessageSet) → lookup p d ≡ none → collected p d ≡ []
lookup-none-collected p d e = collected-absent p d (lookup-none p d e)

pub of_partition-append :
    (p : ℤ) (xs ys : List Queued)
    → of_partition p (xs ++ ys) ≡ of_partition p xs ++ of_partition p ys
of_partition-append p [] ys = refl
of_partition-append p (x ∷ xs) ys = elim (Bool-cases (eq_ℤ x.partition_id p)) [
  | inl e ↦ rw e (ap (λ (l : List Queued). x ∷ l) (of_partition-append p xs ys))
  | inr e ↦ rw e (of_partition-append p xs ys)
]

-- A request that holds the messages of a batch, all for one topic.
pub record Holds (o : Options) (batch : List Queued) (r : ProduceRequest) : Type 0 where
  pub parts : Dict ℤ MessageSet
  pub keyset : IsKeyset parts
  pub one_topic : r.msets ≡ (o.topic_name, parts) ∷ []
  pub messages : (p : ℤ) → collected p parts ≡ of_partition p batch

abbrev add_queued : Options → ProduceRequest → Queued → ProduceRequest
add_queued o r q = add_message r (as_message q) o.topic_name q.partition_id

abbrev msets_with : Options → ℕ → Queued → Msets → Msets
msets_with o compression q msets =
    insert o.topic_name (add_part compression (get_default [] o.topic_name msets) q) msets

one_topic-add :
    (o : Options) (compression : ℕ) (q : Queued) (d : Dict ℤ MessageSet)
    → msets_with o compression q ((o.topic_name, d) ∷ [])
      ≡ (o.topic_name, add_part compression d q) ∷ []
one_topic-add o compression q d =
    let n : List ℕ = o.topic_name in
    let same : bytes_beq n n ≡ true = (bytes_beq_iff n n).1 refl in
    insert-cons_eq n n _ d [] same
    ∙ ap (λ (x : Dict ℤ MessageSet). (n, add_part compression x q) ∷ [])
        (get_default-cons_eq n n [] d [] same)

add_queued-Holds :
    (o : Options) (batch : List Queued) (r : ProduceRequest) (q : Queued)
    → Holds o batch r
    → Holds o (batch ++ q ∷ []) (add_queued o r q)
unfolding add_message
add_queued-Holds o batch r q h = record {
  parts = add_part r.compression_type h.parts q;
  keyset = insert-IsKeyset q.partition_id _ h.parts h.keyset;
  one_topic =
      ap (msets_with o r.compression_type q) h.one_topic
      ∙ one_topic-add o r.compression_type q h.parts;
  messages = λ p.
      collected-add_part r.compression_type p q h.parts h.keyset
      ∙ ap (λ (l : List Queued). l ++ of_partition p (q ∷ [])) (h.messages p)
      ∙ sym (of_partition-append p batch (q ∷ []));
}

foldl-Holds :
    (o : Options) (qs batch : List Queued) (r : ProduceRequest)
    → Holds o batch r
    → Holds o (batch ++ qs) (foldl (add_queued o) r qs)
foldl-Holds o [] batch r h = subst (λ (l : List Queued). Holds o l r) (sym (append-nil batch)) h
foldl-Holds o (q ∷ qs) batch r h =
    subst (λ (l : List Queued). Holds o l (foldl (add_queued o) (add_queued o r q) qs))
      (append_assoc batch (q ∷ []) qs)
      (foldl-Holds o qs (batch ++ q ∷ []) (add_queued o r q) (add_queued-Holds o batch r q h))

-- The request of a batch that is not empty holds its messages.
pub request_of-Holds :
    (o : Options) (q : Queued) (qs : List Queued) → Holds o (q ∷ qs) (request_of o (q ∷ qs))
unfolding request_of add_message insert get_default
request_of-Holds o q qs = foldl-Holds o qs (q ∷ []) _ (record {
  parts = add_part o.compression [] q;
  keyset = (tt, tt);
  one_topic = refl;
  messages = λ p. collected-add_part o.compression p q [] tt;
})
