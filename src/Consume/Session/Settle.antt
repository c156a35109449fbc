-- ===== src/Consume/Session/Settle.antt =====
-- How commands/consume_session.rs settles a message: by an ack or a nack, and behind which effects.
use mathlib.Core.List.{append_assoc}
use pg_x.Base.{
  ◌≡◌, ◌≢◌, refl, inl, inr, arith, Option, none, some, List, [], ◌∷◌, ◌++◌, true, false, Bool-cases,
  if◌then◌else◌,
}
use pg_x.Map.{Map}
use pg_x.Text.{Text}
use pg_x.Consume.DeliveryTag.{DeliveryTag}
use pg_x.Consume.Session.{
  ErrorMode, lenient, strict, ErrorStage, parse, lookup, compose, sink, BrokerMessage, World,
  Settings, Answers, Effect, acked, nacked, sent, rejected, State, Turn, go_on, lost, aborted, fail,
  is_duplicate, resolve, deliver, process, handle_message,
}

abbrev pub by_mode {ℓ} : {A : Type ℓ} → ErrorMode → A → A → A
by_mode lenient x y = x
by_mode strict x y = y

module _ (w : World) (c : Settings) (m : BrokerMessage) (a : Answers w) (s : State w) where
  abbrev tag : DeliveryTag
  tag = m.delivery_tag

  -- How a message may end, by the turn of the loop and the log behind it.
  pub data Settled (turn : Turn w) (log : List (Effect w)) : Type 0 where
    -- seen before: acknowledged, and nothing is sent
    duplicate :
        (is_duplicate w a.now m.message_id s).0 ≡ true
        → log ≡ s.log ++ acked m.delivery_tag ∷ []
        → turn ≡ (if a.ack_succeeds then go_on else lost)
        → Settled turn log
    -- taken by the sink, then acknowledged
    delivered :
        (doc : w.Json) (id : Option Text)
        → a.sink_accepts doc id ≡ true
        → log ≡ s.log ++ sent doc id ∷ acked m.delivery_tag ∷ []
        → turn ≡ (if a.ack_succeeds then go_on else lost)
        → Settled turn log
    -- refused by the sink: given back to the broker in either mode
    refused :
        (doc : w.Json) (id : Option Text)
        → a.sink_accepts doc id ≡ false
        → log ≡ s.log ++ rejected doc id ∷ nacked m.delivery_tag true ∷ []
        → turn ≡ by_mode c.on_error go_on (aborted sink)
        → Settled turn log
    -- never sent: discarded in lenient mode, given back in strict mode
    unusable :
        (stage : ErrorStage)
        → stage ≢ sink
        → log ≡ s.log ++ nacked m.delivery_tag (by_mode c.on_error false true) ∷ []
        → turn ≡ by_mode c.on_error go_on (aborted stage)
        → Settled turn log

  fail_unusable :
      (stage : ErrorStage) (s' : State w)
      → stage ≢ sink
      → s'.log ≡ s.log
      → Settled
          (fail w c.on_error m.delivery_tag stage s').0
          (fail w c.on_error m.delivery_tag stage s').1.log
  unfolding fail
  fail_unusable stage s' ne e = unusable stage ne (ground arith) (ground arith)

  deliver-Settled :
      (doc : w.Json) (s' : State w)
      → s'.log ≡ s.log
      → Settled (deliver w c m a doc s').0 (deliver w c m a doc s').1.log
  unfolding deliver
  deliver-Settled doc s' e =
      let id : Option Text = if c.idempotent then m.message_id else none in
      elim (Bool-cases (a.sink_accepts doc id)) [
        | inl h ↦
            let assoc = append_assoc s.log (sent doc id ∷ []) (acked m.delivery_tag ∷ []) in
            delivered doc id h (ground (arith, assoc)) (ground arith)
        | inr h ↦
            let assoc =
              append_assoc s.log (rejected doc id ∷ []) (nacked m.delivery_tag true ∷ []) in
            refused doc id h (ground (arith, assoc)) (ground arith)
      ]

  process-Settled :
      (r : Option (Text × Map Text w.Json)) (s' : State w)
      → s'.log ≡ s.log
      → Settled (process w c m a r s').0 (process w c m a r s').1.log
  unfolding process
  process-Settled none s' e = fail_unusable parse s' (λ p. cc) e
  process-Settled (some (name, variables)) s' e = at_query (w.query name) refl
    where
      at_doc :
          (q : w.Query) (d : Option w.Json)
          → w.query name ≡ some q
          → a.composed q variables ≡ d
          → Settled
              (process w c m a (some (name, variables)) s').0
              (process w c m a (some (name, variables)) s').1.log
      at_doc q none eq ed = rw (eq, ed, process) (fail_unusable compose s' (λ p. cc) e)
      at_doc q (some doc) eq ed = rw (eq, ed, process) (deliver-Settled doc s' e)

      at_query :
          (q : Option w.Query)
          → w.query name ≡ q
          → Settled
              (process w c m a (some (name, variables)) s').0
              (process w c m a (some (name, variables)) s').1.log
      at_query none eq = rw (eq, process) (fail_unusable lookup s' (λ p. cc) e)
      at_query (some q) eq = at_doc q (a.composed q variables) eq refl

  is_duplicate-log : (is_duplicate w a.now m.message_id s).1.log ≡ s.log
  unfolding is_duplicate
  is_duplicate-log = ground arith

  -- Every message ends in one of the four ways of `Settled`: it is settled exactly once, by its own
  -- tag and as the last effect, and it is acknowledged only as a duplicate or after the sink took it.
  pub handle_message-Settled : Settled (handle_message w c m a s).0 (handle_message w c m a s).1.log
  unfolding handle_message
  handle_message-Settled = elim (Bool-cases (is_duplicate w a.now m.message_id s).0) [
    | inl h ↦ duplicate h (ground (arith, is_duplicate-log)) (ground arith)
    | inr h ↦ rw h (
        process-Settled (resolve w c m.payload) (is_duplicate w a.now m.message_id s).1
          is_duplicate-log)
  ]
