-- ===== src/Protocol/Response/Encoded.antt =====
-- The bytes of a response in the grammar of the Kafka protocol, and the values that stand for them.
use pykafka.Prelude.{
  ℕ, suc, arith, negsuc, ◌≡◌, refl, ap, ap₂, ◌∙◌, false, none, some, List, [], ◌∷◌, length,
}
use pykafka.Result.{Result, ◌>>=◌}
use pykafka.Struct.{int16, pack}
use pykafka.Struct.{int as int_field}
use pykafka.Struct.Pack.{cat, cat-nil}
use pykafka.Writer.Writes.{cat_all}
use pykafka.Dict.{int_eq, text_eq}
use pykafka.Unpack.{Value, Values, bytes, null, tuple, list, nil, cons, count_values}
use pykafka.Unpack.Schema.{
  Schemas, string, array, end, also, rows_bytes, row_values, is_single, encode, encode_all, show,
}
use pykafka.Protocol.Topics.Bytes.{string_bytes, array_bytes}
use pykafka.Protocol.Response.{Text}

module _ {ℓ} {A : Type ℓ} (f : A → Value) where
  abbrev pub from_list : List A → Values
  from_list [] = nil
  from_list (a ∷ rest) = cons (f a) (from_list rest)

  count-from_list : (xs : List A) → count_values (from_list xs) ≡ length xs
  count-from_list [] = refl
  count-from_list (a ∷ rest) = ap suc (count-from_list rest)

abbrev pub text_value : Text → Value
text_value none = null
text_value (some s) = bytes s

-- string => int16 length, bytes; a length of -1 for null
abbrev pub text_bytes : Text → Result (List ℕ)
text_bytes none = pack (int_field int16 (negsuc 0) ∷ [])
text_bytes (some s) = string_bytes s

pub encode-text : (s : Text) → encode string (text_value s) ≡ text_bytes s
unfolding encode
encode-text none = refl
encode-text (some s) = refl

module _ {ℓ} {A : Type ℓ} (ss : Schemas) (f : A → Value) (item : A → Result (List ℕ)) where
  abbrev pub IsItem : Type ℓ
  IsItem = (a : A) → (row_values (is_single ss) (f a) >>= encode_all ss) ≡ item a

  rows-from_list :
      IsItem
      → (xs : List A)
      → rows_bytes (λ row. row_values (is_single ss) row >>= encode_all ss) (from_list f xs)
        ≡ cat_all item xs
  rows-from_list h [] = refl
  rows-from_list h (a ∷ rest) = rw (h a, rows-from_list h rest)

  pub encode-array :
      IsItem → (xs : List A) → encode (array ss) (list (from_list f xs)) ≡ array_bytes item xs
  unfolding encode
  encode-array h xs = rw (count-from_list f xs, rows-from_list h xs)

-- TopicName [partition]
abbrev pub response_topic {ℓ} :
    {A : Type ℓ} → (A → Result (List ℕ)) → Text × List A → Result (List ℕ)
response_topic partition t = cat (text_bytes t.0) (array_bytes partition t.1)

abbrev pub topic_value {ℓ} : {A : Type ℓ} → (A → Value) → Text × List A → Value
topic_value f t = tuple (cons (text_value t.0) (cons (list (from_list f t.1)) nil))

-- '[S [...]]'
abbrev pub topics_schema : Schemas → Schemas
topics_schema ss = also (array (also string (also (array ss) end))) end

topic_not_single : (ss : Schemas) → is_single (also string (also (array ss) end)) ≡ false
unfolding show
topic_not_single ss = ground arith

module _ {ℓ} {A : Type ℓ} (ss : Schemas) (f : A → Value) (item : A → Result (List ℕ)) where
  topic_item :
      IsItem ss f item
      → IsItem (also string (also (array ss) end)) (topic_value f) (response_topic item)
  unfolding encode
  topic_item h t =
      rw (topic_not_single ss)
        (ap₂ cat (encode-text t.0) (cat-nil _ ∙ encode-array ss f item h t.1))

  pub encode-topics :
      IsItem ss f item
      → (topics : List (Text × List A))
      → encode_all (topics_schema ss) (cons (list (from_list (topic_value f) topics)) nil)
        ≡ array_bytes (response_topic item) topics
  unfolding encode
  encode-topics h topics =
      cat-nil _ ∙ encode-array _ (topic_value f) (response_topic item) (topic_item h) topics
