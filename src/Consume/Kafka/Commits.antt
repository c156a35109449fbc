-- ===== src/Consume/Kafka/Commits.antt =====
-- The positions that the settling of consumer/kafka.rs commits.
use pg_x.Base.{
  ℕ, suc, ◌<◌, ◌≡◌, refl, ap, List, [], ◌∷◌, Bool, true, false, ltb, if◌then◌else◌, All, inl, inr,
  Bool-cases, arith,
}
use pg_x.Base.Int.{ℤ, pos, InRange}
use pg_x.Map.{Map, get, insert, get-insert}
use pg_x.Word.{u32_mod}
use pg_x.Consume.DeliveryTag.{kafka, kafka_position-kafka}
use pg_x.Consume.Kafka.{KafkaConsumer, int_key, greater, last_of, ack, nack}

-- A session's settling of the message at a partition and an offset.
pub data Settling : Type 0 where
  acked : ℤ → ℕ → Settling
  nacked : Bool → ℤ → ℕ → Settling

-- The tag holds 32 bits of the offset.
abbrev pub Fits : Settling → Type 0
Fits (acked partition offset) = InRange u32_mod partition × (offset < u32_mod)
Fits (nacked requeue partition offset) = InRange u32_mod partition × (offset < u32_mod)

abbrev pub larger : ℕ → ℕ → ℕ
larger m n = if ltb n m then m else n

-- The highest offset of a partition that is settled for good, `n` before any.
unfoldable pub highest : ℤ → ℕ → List Settling → ℕ
highest p n [] = n
highest p n (acked q o ∷ rest) = highest p (if int_key.beq q p then larger o n else n) rest
highest p n (nacked true q o ∷ rest) = highest p n rest
highest p n (nacked false q o ∷ rest) = highest p (if int_key.beq q p then larger o n else n) rest

abbrev pub start : KafkaConsumer
start = record { last_offsets = []; commits = [] }

last_of-insert :
    (p q v : ℤ) (m : Map ℤ ℤ)
    → last_of p (insert q v m) ≡ (if int_key.beq q p then v else last_of p m)
last_of-insert p q v m = ground (arith, get-insert q p v m)

module _ (sent : ℤ → ℤ → Bool) where
  abbrev settle : Settling → KafkaConsumer → KafkaConsumer
  settle (acked p o) s = (ack sent (kafka p (pos o)) s).1
  settle (nacked requeue p o) s = (nack sent (kafka p (pos o)) requeue s).1

  abbrev pub settle_all : List Settling → KafkaConsumer → KafkaConsumer
  settle_all [] s = s
  settle_all (x ∷ rest) s = settle_all rest (settle x s)

  ack-larger :
      (q : ℤ) (o n : ℕ) (s : KafkaConsumer)
      → Fits (acked q o)
      → last_of q s.last_offsets ≡ pos n
      → (ack sent (kafka q (pos o)) s).1 ≡ record {
        last_offsets = insert q (pos (larger o n)) s.last_offsets;
        commits = (q, pos (suc (larger o n))) ∷ s.commits;
      }
  unfolding ack greater
  ack-larger q o n s (h, k) e = rw (kafka_position-kafka q o h k, e) (ground arith)

  -- The entry of every partition after an acknowledgement, from those before.
  ack_entries :
      (q : ℤ) (o : ℕ) (s : KafkaConsumer) (n : ℤ → ℕ)
      → Fits (acked q o)
      → ((p : ℤ) → last_of p s.last_offsets ≡ pos (n p))
      → (p : ℤ)
      → last_of p (ack sent (kafka q (pos o)) s).1.last_offsets
        ≡ pos (if int_key.beq q p then larger o (n p) else n p)
  ack_entries q o s n f e p =
      rw (ack-larger q o (n q) s f (e q), last_of-insert p q (pos (larger o (n q))) s.last_offsets)
        (elim (Bool-cases (int_key.beq q p)) [
          | inl same ↦ let k = (int_key.beq_iff q p).0 same in rw (same, k) refl
          | inr other ↦ rw other (e p)
        ])

  settle_all-highest :
      (done : List Settling) (s : KafkaConsumer) (n : ℤ → ℕ)
      → All Fits done
      → ((p : ℤ) → last_of p s.last_offsets ≡ pos (n p))
      → (p : ℤ) → last_of p (settle_all done s).last_offsets ≡ pos (highest p (n p) done)
  unfolding highest nack
  settle_all-highest [] s n h e p = e p
  settle_all-highest (acked q o ∷ rest) s n (f, h) e p =
      settle_all-highest rest (ack sent (kafka q (pos o)) s).1
        (λ r. if int_key.beq q r then larger o (n r) else n r) h (ack_entries q o s n f e) p
  settle_all-highest (nacked true q o ∷ rest) s n (f, h) e p = settle_all-highest rest s n h e p
  settle_all-highest (nacked false q o ∷ rest) s n (f, h) e p =
      settle_all-highest rest (ack sent (kafka q (pos o)) s).1
        (λ r. if int_key.beq q r then larger o (n r) else n r) h (ack_entries q o s n f e) p

  -- Whatever was settled before, with offsets below 2 ^ 32: an acknowledgement commits the position
  -- behind the highest offset of its partition that was acknowledged or refused without requeueing. A
  -- message refused with requeueing does not hold the position back.
  pub ack-commits :
      (done : List Settling) (q : ℤ) (o : ℕ)
      → All Fits done
      → Fits (acked q o)
      → let s = settle_all done start in
        (ack sent (kafka q (pos o)) s).1.commits
        ≡ (q, pos (suc (larger o (highest q 0 done)))) ∷ s.commits
  unfolding get
  ack-commits done q o h f =
      let s = settle_all done start in
      ap (λ r. r.commits)
        (ack-larger q o (highest q 0 done) s f
          (settle_all-highest done start (λ p. 0) h (λ p. refl) q))
