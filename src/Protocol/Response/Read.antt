-- ===== src/Protocol/Response/Read.antt =====
-- The responses that hold an entry for each partition of each topic, read back from their bytes.
use pykafka.Prelude.{
  ℕ, ℤ, ◌≡◌, refl, sym, ap, ◌∙◌, true, none, some, List, [], ◌∷◌, ◌++◌, append_assoc, append-nil,
  foldl,
}
use pykafka.Result.{Result, ok, ◌>>=◌}
use pykafka.Struct.{Format, pack}
use pykafka.Struct.{int as int_field}
use pykafka.Struct.Pack.{cat-nil}
use pykafka.Dict.{Dict, insert, int_eq, text_eq}
use pykafka.Unpack.{Value, int, list, nil, cons, unwrap, unpack_from, without_spaces, without_order}
use pykafka.Unpack.Schema.{Schemas, num, array, end, also, is_single, encode, show, show_all}
use pykafka.Unpack.RoundTrip.{unpack_from-encode}
use pykafka.Protocol.Topics.Bytes.{array_bytes}
use pykafka.Protocol.Response.{
  Text, for_values, for_items, store_partition, store_topic, read_topics, read_int,
}
use pykafka.Protocol.Response.Encoded.{
  from_list, IsItem, encode-array, response_topic, topic_value, topics_schema, encode-topics,
}

pub for_values-from_list {ℓ κ} :
    {A : Type ℓ} {S : Type κ} (f : A → Value) (step : Value → S → Result S) (g : S → A → S)
    → ((a : A) (s : S) → step (f a) s ≡ ok (g s a))
    → (xs : List A) (s : S) → for_values step (from_list f xs) s ≡ ok (foldl g s xs)
unfolding for_values
for_values-from_list f step g h [] s = refl
for_values-from_list f step g h (a ∷ rest) s =
    rw (h a s) (for_values-from_list f step g h rest (g s a))

-- What the loops store: the entries of the topics in turn, where a topic or a partition that comes
-- again replaces the one before.
abbrev pub entries_of {ℓ} : {A : Type ℓ} → List (ℤ × A) → Dict ℤ A
entries_of parts = foldl (λ d p. insert p.0 p.1 d) [] parts

abbrev pub topics_of {ℓ} : {A : Type ℓ} → List (Text × List (ℤ × A)) → Dict Text (Dict ℤ A)
topics_of topics = foldl (λ d t. insert t.0 (entries_of t.1) d) [] topics

module _ {ℓ} {A : Type ℓ} (read : Value → Result (ℤ × A)) (f : ℤ × A → Value)
    (h : (p : ℤ × A) → read (f p) ≡ ok p) where
  store_topic-value :
      (t : Text × List (ℤ × A)) (d : Dict Text (Dict ℤ A))
      → store_topic read (topic_value f t) d ≡ ok (insert t.0 (entries_of t.1) d)
  unfolding store_topic store_partition
  store_topic-value (none, parts) d = rw (
      for_values-from_list f (store_partition read) (λ e p. insert p.0 p.1 e) (λ p e. rw (h p))
        parts [])
  store_topic-value (some s, parts) d = rw (
      for_values-from_list f (store_partition read) (λ e p. insert p.0 p.1 e) (λ p e. rw (h p))
        parts [])

  pub read_topics-value :
      (topics : List (Text × List (ℤ × A)))
      → read_topics read (list (from_list (topic_value f) topics)) ≡ ok (topics_of topics)
  unfolding read_topics
  read_topics-value topics =
      for_values-from_list (topic_value f) (store_topic read) _ store_topic-value topics []

-- The response whose format is `fmt`, read by its topics.
module _ {ℓ} {A : Type ℓ} (ss : Schemas) (read : Value → Result (ℤ × A)) (f : ℤ × A → Value)
    (item : ℤ × A → Result (List ℕ)) where
  pub response_lem :
      (fmt : List ℕ)
      → without_order (without_spaces fmt) ≡ show_all (topics_schema ss)
      → ((p : ℤ × A) → read (f p) ≡ ok p)
      → IsItem ss f item
      → (topics : List (Text × List (ℤ × A))) (content rest : List ℕ)
      → array_bytes (response_topic item) topics ≡ ok content
      → (unpack_from fmt (content ++ rest) 0 >>= read_topics read) ≡ ok (topics_of topics)
  unfolding unwrap show
  response_lem fmt same reads items topics content rest h =
      let vs = from_list (topic_value f) topics in
      rw
        (unpack_from-encode (topics_schema ss) fmt (cons (list vs) nil) content rest same
          (encode-topics ss f item items topics ∙ h))
        (read_topics-value read f reads topics)

snoc_all {ℓ} : {A : Type ℓ} (xs acc : List A) → foldl (λ s x. s ++ x ∷ []) acc xs ≡ acc ++ xs
snoc_all [] acc = sym (append-nil acc)
snoc_all (x ∷ xs) acc = snoc_all xs (acc ++ x ∷ []) ∙ append_assoc acc (x ∷ []) xs

pub read_int-list : (zs : List ℤ) → for_items read_int (list (from_list int zs)) [] ≡ ok zs
unfolding read_int
read_int-list zs =
    for_values-from_list int read_int (λ s z. s ++ z ∷ []) (λ z s. refl) zs []
    ∙ ap ok (snoc_all zs [])

-- [number]
abbrev pub numbers_bytes : Format → List ℤ → Result (List ℕ)
numbers_bytes f zs = array_bytes (λ z. pack (int_field f z ∷ [])) zs

single_number : (f : Format) → is_single (also (num f) end) ≡ true
unfolding show
single_number f = refl

pub encode-numbers :
    (f : Format) (zs : List ℤ)
    → encode (array (also (num f) end)) (list (from_list int zs)) ≡ numbers_bytes f zs
encode-numbers f zs =
    encode-array (also (num f) end) int (λ z. pack (int_field f z ∷ []))
      (λ z. rw (single_number f) (unfold encode in cat-nil _)) zs
