-- ===== src/Tests/Groups.antt =====
-- The theorems on the shares of a group, on a group of three and a topic of four partitions.
use pykafka.Prelude.{
  ℕ, ◌+◌, ◌/◌, ◌%◌, ◌≡◌, refl, arith, ltb, List, [], ◌∷◌, map, concat, length, if◌then◌else◌,
}
use pykafka.Sorted.{insert_sorted, sorted}
use pykafka.Result.{ok}
use pykafka.Protocol.Header.{codes}
use pykafka.BalancedConsumer.{bytes_leb, decide_partitions, share, index_from, num_parts, start}
use pykafka.BalancedConsumer.Order.{Distinct}
use pykafka.BalancedConsumer.Shares.{decide_partitions-concat, length-share}

abbrev four : List (List ℕ)
four = codes "t-0-3" ∷ codes "t-0-1" ∷ codes "t-0-2" ∷ codes "t-0-0" ∷ []

abbrev three : List (List ℕ)
three = codes "aa" ∷ codes "aaa" ∷ codes "a" ∷ []

three-Distinct : Distinct three
three-Distinct = ((λ e. cc, (λ e. cc, tt)), ((λ e. cc, tt), (tt, tt)))

first_share :
    decide_partitions (λ p. p) four (codes "a") three ≡ ok (codes "t-0-0" ∷ codes "t-0-1" ∷ [])
unfolding decide_partitions share index_from sorted insert_sorted num_parts start
first_share = refl

decide_partitions-concat_example :
    (shares : List (List (List ℕ))) × (map
        (λ p. decide_partitions (λ q. q) four p three)
        (sorted bytes_leb three)
      ≡ map ok shares)
    × (concat shares ≡ sorted bytes_leb four)
decide_partitions-concat_example =
    decide_partitions-concat (λ p. p) four three three-Distinct (omega arith)

length-share_example :
    length (share four 3 1) ≡ length four / 3 + (if ltb 1 (length four % 3) then 1 else 0)
length-share_example = length-share four 3 1 (omega arith)
