-- ===== src/Consume/Session.antt =====
-- commands/consume_session.rs: the session, and the error policy of commands/consume.rs.
pub mod Settle
use pg_x.Base.{ℕ, Option, none, some, List, [], ◌∷◌, ◌++◌, Bool, true, false, if◌then◌else◌}
use pg_x.Map
use pg_x.Map.{Map, text_key}
use pg_x.Text.{Text, codes}
use pg_x.Consume.DeliveryTag.{DeliveryTag}
use pg_x.Consume.Dedupe.{DedupCache, contains, record_id, expire}
use pg_x.Utils.SessionLoop.{SessionExit, reconnect_after_healthy, shutdown, fatal}

pub data QueryMode : Type 0 where
  simple contract : QueryMode

pub data ErrorMode : Type 0 where
  lenient strict : ErrorMode

pub data ErrorStage : Type 0 where
  parse lookup compose sink : ErrorStage

pub data ErrorAction : Type 0 where
  discard requeue abort : ErrorAction

-- `ConsumeErrorMode::handle`
unfoldable pub handle_error : ErrorMode → ErrorStage → ErrorAction
handle_error lenient sink = requeue
handle_error lenient _ = discard
handle_error strict _ = abort

-- The part of `BrokerMessage` that the session reads.
pub record BrokerMessage : Type 0 where
  pub payload : Text
  pub message_id : Option Text
  pub delivery_tag : DeliveryTag

-- `serde_json` and the parts behind traits. `Json` is `serde_json::Value`; `try_parse` gives the
-- event type and the data of a contract message, `as_object` the entries of an object.
pub record World : Type 1 where
  pub Json : Type 0
  pub json_string : Text → Json
  pub as_object : Json → Option (Map Text Json)
  pub object_from_text : Text → Option (Map Text Json)
  pub try_parse : Text → Option (Option Text × Json)
  -- the loaded queries, by name
  pub Query : Type 0
  pub query : Text → Option Query

pub record Settings : Type 0 where
  pub query_mode : QueryMode
  pub on_error : ErrorMode
  pub idempotent : Bool
  pub default_query : Text

module _ (w : World) where
  -- What the world answers while one message is handled. The two times are those of the lookup and
  -- of the record; `composed` is `none` where the composition fails.
  pub record Answers : Type 0 where
    pub now : ℕ
    pub later : ℕ
    pub composed : w.Query → Map Text w.Json → Option w.Json
    pub sink_accepts : w.Json → Option Text → Bool
    pub ack_succeeds : Bool

  pub data Input : Type 0 where
    signal closed recv_error : Input
    -- the sweeper of the cache, which runs beside the session
    sweep : (now : ℕ) → Input
    message : BrokerMessage → Answers → Input

  -- What the broker and the sink see, in order. `sent` is a call that the sink accepted.
  pub data Effect : Type 0 where
    acked : DeliveryTag → Effect
    nacked : DeliveryTag → (requeue : Bool) → Effect
    sent rejected : w.Json → Option Text → Effect

  pub record State : Type 0 where
    pub dedup : Option DedupCache
    pub log : List Effect

  -- How one turn ends: the loop goes on, breaks with `session_failed`, or breaks with the error.
  pub data Turn : Type 0 where
    go_on lost : Turn
    aborted : ErrorStage → Turn

  abbrev pub emit : Effect → State → State
  emit e s = record s { log = s.log ++ e ∷ [] }

  -- `fail`: settle by the policy; the nack's own failure is ignored.
  unfoldable pub fail : ErrorMode → DeliveryTag → ErrorStage → State → Turn × State
  unfolding handle_error
  fail on_error tag stage s = elim (handle_error on_error stage) [
    | discard ↦ (go_on, emit (nacked tag false) s)
    | requeue ↦ (go_on, emit (nacked tag true) s)
    | abort ↦ (aborted stage, emit (nacked tag true) s)
  ]

  -- `consumer.ack(tag)`; a failed ack ends the session.
  unfoldable pub ack : Bool → DeliveryTag → State → Turn × State
  ack succeeds tag s = (if succeeds then go_on else lost, emit (acked tag) s)

  unfoldable pub is_duplicate : ℕ → Option Text → State → Bool × State
  is_duplicate now none s = (false, s)
  is_duplicate now (some id) s = elim s.dedup [
    | none ↦ (false, s)
    | some cache ↦
        let (dup, cache') = contains now id cache in (dup, record s { dedup = some cache' })
  ]

  unfoldable pub record_processed : ℕ → Option Text → State → State
  record_processed now none s = s
  record_processed now (some id) s = record s {
    dedup = elim s.dedup [ none ↦ none | some cache ↦ some (record_id now id cache) ];
  }

  unfoldable pub data_to_variables : w.Json → Map Text w.Json
  data_to_variables value = elim (w.as_object value) [
    | some m ↦ m
    | none ↦ Map.insert (codes "data") value []
  ]

  unfoldable pub payload_to_variables : Text → Map Text w.Json
  payload_to_variables payload = elim (w.object_from_text payload) [
    | some m ↦ m
    | none ↦ Map.insert (codes "payload") (w.json_string payload) []
  ]

  name_or : Option Text → Text → Text
  name_or none d = d
  name_or (some n) d = n

  module _ (c : Settings) where
    -- The query's name and its variables, or `none` where the payload is no contract message.
    unfoldable pub resolve : Text → Option (Text × Map Text w.Json)
    unfolding data_to_variables payload_to_variables name_or
    resolve payload = elim c.query_mode [
      | simple ↦ some (c.default_query, payload_to_variables payload)
      | contract ↦ elim (w.try_parse payload) [
        | none ↦ none
        | some (event_type, value) ↦
            some (name_or event_type c.default_query, data_to_variables value)
      ]
    ]

    -- From the composed document on: sink, record, ack.
    unfoldable pub deliver : BrokerMessage → Answers → w.Json → State → Turn × State
    unfolding fail ack record_processed
    deliver m a doc s =
        let id : Option Text = if c.idempotent then m.message_id else none in
        if a.sink_accepts doc id
        then ack a.ack_succeeds m.delivery_tag
            (record_processed a.later m.message_id (emit (sent doc id) s))
        else fail c.on_error m.delivery_tag sink (emit (rejected doc id) s)

    -- From the resolved query on: lookup, composition, delivery.
    unfoldable pub process :
        BrokerMessage → Answers → Option (Text × Map Text w.Json) → State → Turn × State
    unfolding fail deliver
    process m a none s = fail c.on_error m.delivery_tag parse s
    process m a (some (name, variables)) s = elim (w.query name) [
      | none ↦ fail c.on_error m.delivery_tag lookup s
      | some q ↦ elim (a.composed q variables) [
        | none ↦ fail c.on_error m.delivery_tag compose s
        | some doc ↦ deliver m a doc s
      ]
    ]

    unfoldable pub handle_message : BrokerMessage → Answers → State → Turn × State
    unfolding is_duplicate ack resolve process
    handle_message m a s =
        let (duplicate, s') = is_duplicate a.now m.message_id s in
        if duplicate
        then ack a.ack_succeeds m.delivery_tag s'
        else process m a (resolve m.payload) s'

    -- The exit of the session; the list's end is a run that still waits.
    unfoldable pub run : List Input → State → Option (SessionExit ErrorStage) × State
    unfolding handle_message
    run [] s = (none, s)
    run (signal ∷ inputs) s = (some shutdown, s)
    run (closed ∷ inputs) s = (some reconnect_after_healthy, s)
    run (recv_error ∷ inputs) s = (some reconnect_after_healthy, s)
    run (sweep now ∷ inputs) s =
        run inputs
          (record s { dedup = elim s.dedup [ none ↦ none | some cache ↦ some (expire now cache) ] })
    run (message m a ∷ inputs) s =
        let r = handle_message m a s in
        elim r.0 [
          | go_on ↦ run inputs r.1
          | lost ↦ (some reconnect_after_healthy, r.1)
          | aborted stage ↦ (some (fatal stage), r.1)
        ]
