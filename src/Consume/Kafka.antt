-- ===== src/Consume/Kafka.antt =====
-- The settling of messages in consumer/kafka.rs: the highest offset of each partition, and the
-- positions that are committed.
pub mod Commits
use pg_x.Base.{
  ℕ, zero, suc, ◌+◌, ◌≡◌, ◌↔◌, ap, Option, none, some, List, [], ◌∷◌, Bool, true, false, ◌==◌,
  ==_iff, ltb, if◌then◌else◌, arith,
}
use pg_x.Base.Int.{ℤ, pos, negsuc}
use pg_x.Map.{Map, Eq, get, insert}
use pg_x.Consume.DeliveryTag.{DeliveryTag, kafka_position}

abbrev int_eq : ℤ → ℤ → Bool
int_eq (pos m) (pos n) = m == n
int_eq (negsuc m) (negsuc n) = m == n
int_eq _ _ = false

pub int_eq_iff : (a b : ℤ) → (int_eq a b ≡ true) ↔ (a ≡ b)
int_eq_iff (pos m) (pos n) = ground (arith, ==_iff m n)
int_eq_iff (negsuc m) (negsuc n) = ground (arith, ==_iff m n)
int_eq_iff (pos m) (negsuc n) = ground arith
int_eq_iff (negsuc m) (pos n) = ground arith

instance abbrev pub int_key : Eq ℤ
int_key = record { beq = int_eq; beq_iff = int_eq_iff }

-- `commits` holds the positions handed to the client for committing, the last one first.
pub record KafkaConsumer : Type 0 where
  pub last_offsets : Map ℤ ℤ
  pub commits : List (ℤ × ℤ)

-- `a > b`
unfoldable pub greater : ℤ → ℤ → Bool
greater (pos m) (pos n) = ltb n m
greater (pos m) (negsuc n) = true
greater (negsuc m) (pos n) = false
greater (negsuc m) (negsuc n) = ltb m n

-- `*last + 1`
abbrev pub next : ℤ → ℤ
next (pos n) = pos (suc n)
next (negsuc zero) = pos 0
next (negsuc (suc n)) = negsuc n

abbrev or_zero : Option ℤ → ℤ
or_zero none = pos 0
or_zero (some offset) = offset

-- The entry of a partition, which is 0 where there is none.
abbrev pub last_of : ℤ → Map ℤ ℤ → ℤ
last_of partition offsets = or_zero (get partition offsets)

-- `sent` says whether the client takes a partition's position for committing.
module _ (sent : ℤ → ℤ → Bool) where
  unfoldable pub ack : DeliveryTag → KafkaConsumer → Bool × KafkaConsumer
  unfolding greater
  ack tag s =
      let (partition, offset) = kafka_position tag in
      let before = last_of partition s.last_offsets in
      let last = if greater offset before then offset else before in
      (
        sent partition (next last),
        record {
          last_offsets = insert partition last s.last_offsets;
          commits = (partition, next last) ∷ s.commits;
        },
      )

  unfoldable pub nack : DeliveryTag → Bool → KafkaConsumer → Bool × KafkaConsumer
  unfolding ack
  nack tag requeue s = if requeue then (true, s) else ack tag s
