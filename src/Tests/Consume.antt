-- ===== src/Tests/Consume.antt =====
-- Runs of the consumer's parts and of the reconnection loop.
use pg_x.Base.{suc, ℕ, ◌≡◌, ◌≤◌, ◌-◌, ◌+◌, ◌/◌, refl, true, false, none, some, List, [], ◌∷◌, arith}
use pg_x.Base.Int.{pos}
use pg_x.Map.{text_key}
use pg_x.Text.{Text, codes}
use pg_x.Utils.Backoff.{capped_base, delay, delay_bounds}
use pg_x.Utils.SessionLoop.{reconnect, ReconnectConfig, Round, max_reached, run}
use pg_x.Utils.SessionLoop.Policy.{Fails, gives_up}
use pg_x.Consume.DeliveryTag.{kafka}
use pg_x.Consume.Kafka.{ack, nack}
use pg_x.Consume.Kafka.Commits.{acked, nacked, highest, larger, settle_all, start, ack-commits}
use pg_x.Consume.Dedupe.{DedupCache, contains, record_id}
use pg_x.Consume.Dedupe.Window.{lookup, note, sweep, apply_calls, contains-record_id}
use pg_x.Consume.Session.{
  contract, lenient, BrokerMessage, World, Settings, Answers, State, handle_message,
}
use pg_x.Consume.Session.Settle.{Settled, handle_message-Settled}

-- A document is the query's text with the variables' values behind it.
abbrev world : World
world = record {
  Json = Text;
  json_string = λ s. s;
  as_object = λ s. none;
  object_from_text = λ s. none;
  try_parse = λ s. some (none, s);
  Query = Text;
  query = λ name. some name;
}

abbrev settings : Settings
settings = record {
  query_mode = contract;
  on_error = lenient;
  idempotent = true;
  default_query = codes "orders";
}

abbrev order_message : BrokerMessage
order_message = record { payload = codes "{}"; message_id = some (codes "m1"); delivery_tag = 5 }

abbrev answers : Answers world
answers = record {
  now = 10;
  later = 11;
  composed = λ q variables. some q;
  sink_accepts = λ doc id. true;
  ack_succeeds = true;
}

abbrev fresh_cache : DedupCache
fresh_cache = record { ttl = 60; entries = [] }

abbrev at_start : State world
at_start = record { dedup = some fresh_cache; log = [] }

handle_message-Settled_example :
    Settled world settings order_message answers at_start
      (handle_message world settings order_message answers at_start).0
      (handle_message world settings order_message answers at_start).1.log
handle_message-Settled_example =
    handle_message-Settled world settings order_message answers at_start

contains-record_id_example :
    (contains 50 (codes "m1") (
      apply_calls
        ((20, note (codes "m2")) ∷ (30, sweep) ∷ (40, lookup (codes "m1")) ∷ [])
        (record_id 10 (codes "m1") fresh_cache))).0
    ≡ true
contains-record_id_example =
    contains-record_id 10 50 (codes "m1") fresh_cache
      ((20, note (codes "m2")) ∷ (30, sweep) ∷ (40, lookup (codes "m1")) ∷ [])
      ((omega arith, omega arith), ((omega arith, omega arith), ((omega arith, omega arith), tt)))
      (omega arith)

ack-commits_example :
    let done =
      acked (pos 0) 7 ∷ nacked true (pos 0) 9 ∷ nacked false (pos 0) 8 ∷ acked (pos 1) 30 ∷ [] in
    let s = settle_all (λ p o. true) done start in
    (ack (λ p o. true) (kafka (pos 0) (pos 5)) s).1.commits
    ≡ (pos 0, pos (suc (larger 5 (highest (pos 0) 0 done)))) ∷ s.commits
ack-commits_example =
    ack-commits (λ p o. true)
      (acked (pos 0) 7 ∷ nacked true (pos 0) 9 ∷ nacked false (pos 0) 8 ∷ acked (pos 1) 30 ∷ [])
      (pos 0) 5 (ground arith) (ground arith)

-- A refused message that was to come again is passed over by the next acknowledgement.
passed_over :
    (ack
      (λ p o. true)
      (kafka (pos 0) (pos 8))
      (nack (λ p o. true) (kafka (pos 0) (pos 7)) true start).1).1.commits
    ≡ (pos 0, pos 9) ∷ []
unfolding ack nack pg_x.Consume.DeliveryTag.kafka_position kafka pg_x.Map.get
passed_over = refl

delay_bounds_example :
    (delay 12345 4 500 30000 ≤ 30000)
    × (capped_base 4 500 30000 - capped_base 4 500 30000 / 5 ≤ delay 12345 4 500 30000)
    × (delay 12345 4 500 30000 ≤ capped_base 4 500 30000 + capped_base 4 500 30000 / 5)
delay_bounds_example = delay_bounds 12345 4 500 30000 (omega arith)

abbrev policy : ℕ → ReconnectConfig
policy max_attempts = record { max_attempts = max_attempts; base_ms = 500; max_ms = 30000 }

abbrev failing : Round Text
failing = record { signalled = false; random = 7; outcome = reconnect }

abbrev three_failures : List (Round Text)
three_failures = failing ∷ failing ∷ failing ∷ []

failing-Fails : Fails (policy 2) failing
failing-Fails = record { not_signalled = refl; fails = refl }

gives_up_example :
    ((run (policy 2) three_failures).ending ≡ max_reached 2)
    × ((run (policy 2) three_failures).sessions ≡ 2)
gives_up_example =
    gives_up (policy 2) three_failures (failing-Fails, (failing-Fails, (failing-Fails, tt)))
      (omega arith) (omega arith) (omega arith)
