-- ===== src/Replicate/Session/Run.antt =====
-- `ReplicateSession::run` of replicate_session.rs. The source is the list of what its calls give;
-- the sink and the applier, which stand behind traits, are functions on states of their own.
use pg_x.Base.{
  Option, none, some, List, [], ◌∷◌, Bool, true, false, not, ◌==◌, if◌then◌else◌, ok, err,
}
use pg_x.Map.{Map}
use pg_x.Text.{Bytes, Text, codes}
use pg_x.Replication.Lsn.{Lsn, to_text}
use pg_x.Replication.Event.{Row, WalEvent}
use pg_x.Replication.Event
use pg_x.Replication.Client.{ReplicationEvent, keep_alive, begin, xlog_data, commit, update_applied}
use pg_x.Replication.Decoder.Message.{RelationCache}
use pg_x.Replication.Decoder.Dispatch.{decode_pgoutput}
use pg_x.Replicate.Filter.{Floats, RowFilter}
use pg_x.Replicate.Transforms.{ColumnTransforms}
use pg_x.Replicate.Transforms
use pg_x.Replicate.Session.Gate.{SessionConfig, should_forward, event_env}
use pg_x.Utils.SessionLoop.{SessionExit, reconnect, reconnect_after_healthy, shutdown}

-- What the session takes from elsewhere: `f64`, `hex::encode`, `serde_json::to_string` (`none`
-- where it fails), and the traits `WalSink` and `Applier`. A call's flag says that it succeeded.
pub record World : Type 1 where
  pub floats : Floats
  pub hex_encode : Bytes → Text
  pub event_json : WalEvent → Option Text
  pub row_json : Row → Option Text
  pub Sink : Type 0
  pub send_wal : Text → Map Text Text → Sink → Bool × Sink
  pub Applier : Type 0
  pub handle_begin : Applier → Applier
  pub handle_event : WalEvent → Applier → Bool × Applier
  pub handle_commit : Applier → Bool × Applier

-- What wins the `select!` of one turn. The list's end is the source's `Ok(None)`.
pub data Input : Type 0 where
  signal idle recv_error : Input
  received : ReplicationEvent → Input

module _ (w : World) where
  pub record State : Type 0 where
    -- the source's shared progress
    pub applied : Lsn
    -- whether `source.stop()` was called
    pub stopped : Bool
    pub rel_cache : RelationCache
    pub sink : w.Sink
    pub applier : Option w.Applier

  -- `WalEvent::to_json`
  to_json : WalEvent → Text
  to_json event = elim (w.event_json event) [ none ↦ codes "{}" | some s ↦ s ]

  -- `source.update_applied_lsn(lsn)`
  unfoldable pub advance : Lsn → State → State
  unfolding update_applied
  advance lsn s = record s { applied = update_applied s.applied lsn }

  -- `self.sink.send_wal(&event.to_json(), &event_env(..))`
  unfoldable pub send : WalEvent → Lsn → State → Bool × State
  unfolding to_json
  send event lsn s =
      let (sent, sink) =
        w.send_wal (to_json event) (event_env w.row_json event (to_text lsn)) s.sink in
      (sent, record s { sink = sink })

  applier_begin : State → State
  applier_begin s = record s {
    applier = elim s.applier [ none ↦ none | some a ↦ some (w.handle_begin a) ];
  }

  with_applier : (w.Applier → Bool × w.Applier) → Option w.Applier → Bool × Option w.Applier
  with_applier call none = (true, none)
  with_applier call (some a) = let (fine, a') = call a in (fine, some a')

  -- One call of the applier, if there is one.
  call_applier : (w.Applier → Bool × w.Applier) → State → Bool × State
  unfolding with_applier
  call_applier call s =
      let (fine, applier) = with_applier call s.applier in (fine, record s { applier = applier })

  unfoldable pub is_active : Option w.Applier → Bool
  is_active none = false
  is_active (some a) = true

  module _ (config : SessionConfig) (rules : RowFilter w.floats)
      (transforms : ColumnTransforms) where
    -- Where the boundary event is to be sent, a failure keeps the LSN, and the loop goes on.
    boundary : WalEvent → Lsn → State → State
    unfolding send advance
    boundary event lsn s =
        let (sent, s') = send event lsn s in
        if config.emit_txn_boundaries then if sent then advance lsn s' else s' else advance lsn s

    -- Behind the applier: the sink, then the LSN unless an applier is active.
    deliver : WalEvent → Lsn → Bool → State → State
    unfolding send advance
    deliver event wal_end active s =
        let (sent, s') = send event wal_end s in
        if not sent then s' else if active then s' else advance wal_end s'

    -- A decoded event: `forward` was computed before the transforms. The flag says whether the loop
    -- goes on.
    handle_decoded : WalEvent → Bool → Lsn → State → Bool × State
    unfolding call_applier deliver is_active
    handle_decoded event forward wal_end s =
        let active = is_active s.applier in
        let (fine, s') = call_applier (w.handle_event event) s in
        if not forward
        then (true, if active then s else advance wal_end s)
        else if fine
        then (true, deliver event wal_end active s')
        else (false, s')

    handle_xlog : Bytes → Lsn → State → Bool × State
    unfolding handle_decoded advance
    handle_xlog bytes wal_end s =
        let (outcome, cache) = decode_pgoutput w.hex_encode bytes s.rel_cache in
        let s' : State = record s { rel_cache = cache } in
        elim outcome [
          | ok (some event) ↦
              handle_decoded (Transforms.apply transforms event)
                (should_forward w.floats config rules event) wal_end s'
          | ok none ↦ (true, advance wal_end s')
          | err e ↦ (true, s')
        ]

    unfoldable pub handle : ReplicationEvent → State → Bool × State
    unfolding handle_xlog boundary call_applier applier_begin advance
    handle (keep_alive wal_end) s = (true, advance wal_end s)
    handle (begin final_lsn xid commit_time) s = (
      true,
      boundary (Event.begin (to_text final_lsn) commit_time xid) final_lsn (applier_begin s),
    )
    handle (commit lsn end_lsn commit_time) s =
        let (fine, s') = call_applier w.handle_commit s in
        if fine
        then (true, boundary (Event.commit (to_text lsn) (to_text end_lsn) commit_time) end_lsn s')
        else (false, s')
    handle (xlog_data wal_start wal_end bytes) s = handle_xlog bytes wal_end s

    -- The loop, with the source's calls; the flag is `clean_exit`.
    unfoldable pub loop : List Input → State → Bool × State
    unfolding handle
    loop [] s = (true, s)
    loop (signal ∷ inputs) s = (true, record s { stopped = true })
    loop (idle ∷ inputs) s = (false, record s { stopped = true })
    loop (recv_error ∷ inputs) s = (false, s)
    loop (received event ∷ inputs) s =
        let r = handle event s in elim r.0 [ true ↦ loop inputs r.1 | false ↦ (false, r.1) ]

    -- The outcome by `clean_exit` and the progress since the start.
    unfoldable pub exit_of : Lsn → Bool × State → SessionExit Text
    exit_of start_lsn (clean, s) =
        if clean
        then shutdown
        else if not (s.applied == start_lsn)
        then reconnect_after_healthy
        else reconnect

    -- The outcome, the resume LSN that is kept for the next run, and the state.
    unfoldable pub run : Lsn → List Input → State → SessionExit Text × Lsn × State
    unfolding loop exit_of
    run resume_lsn inputs s = let r = loop inputs s in (exit_of resume_lsn r, r.1.applied, r.1)
