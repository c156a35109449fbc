-- ===== src/Replicate/Session/Progress.antt =====
-- The LSN over the turns of the session of commands/replicate/replicate_session.rs, by the outcome of
-- its calls.
use pg_x.Base.{
  ◌≤◌, ◌<◌, ◌≡◌, some, List, [], ◌∷◌, true, false, not, ◌&&◌, ◌||◌, if◌then◌else◌, ok, arith,
}
use pg_x.Text.{Bytes, Text}
use pg_x.Replication.Lsn.{Lsn}
use pg_x.Replication.Event.{WalEvent}
use pg_x.Replication.Client.{ReplicationEvent, keep_alive, begin, xlog_data, commit, update_applied}
use pg_x.Replication.Decoder.Message.{RelationCache}
use pg_x.Replication.Decoder.Dispatch.{decode_pgoutput}
use pg_x.Replicate.Filter.{RowFilter}
use pg_x.Replicate.Transforms.{ColumnTransforms}
use pg_x.Replicate.Transforms
use pg_x.Replicate.Session.Gate.{SessionConfig, should_forward}
use pg_x.Replicate.Session.Run.{
  World, Input, signal, idle, recv_error, received, State, is_active, advance, send, handle, loop,
  run,
}
use pg_x.Utils.SessionLoop.{SessionExit, reconnect, reconnect_after_healthy, shutdown, fatal}

update_applied_bounds :
    (applied lsn : Lsn)
    → (applied ≤ update_applied applied lsn) × (lsn ≤ update_applied applied lsn)
unfolding update_applied
update_applied_bounds applied lsn = ground arith

module _ (w : World) (config : SessionConfig) (rules : RowFilter w.floats)
    (transforms : ColumnTransforms) where
  advance_mono : (lsn : Lsn) (s : State w) → s.applied ≤ (advance w lsn s).applied
  unfolding advance
  advance_mono lsn s = (update_applied_bounds s.applied lsn).0

  handle_mono :
      (event : ReplicationEvent) (s : State w)
      → s.applied ≤ (handle w config rules transforms event s).1.applied
  unfolding handle
  handle_mono (keep_alive wal_end) s = ground arith
  handle_mono (begin final_lsn xid commit_time) s = ground arith
  handle_mono (commit lsn end_lsn commit_time) s = ground arith
  handle_mono (xlog_data wal_start wal_end bytes) s = ground arith

  loop_mono :
      (inputs : List Input) (s : State w)
      → s.applied ≤ (loop w config rules transforms inputs s).1.applied
  unfolding loop
  loop_mono [] s = omega arith
  loop_mono (signal ∷ inputs) s = omega arith
  loop_mono (idle ∷ inputs) s = omega arith
  loop_mono (recv_error ∷ inputs) s = omega arith
  loop_mono (received event ∷ inputs) s =
      ground
        (arith, handle_mono event s, loop_mono inputs (handle w config rules transforms event s).1)

  -- What an outcome says of the resume LSN.
  abbrev pub ExitMeans : Lsn → SessionExit Text → Lsn → Type 0
  ExitMeans start shutdown kept = start ≤ kept
  ExitMeans start reconnect kept = kept ≡ start
  ExitMeans start reconnect_after_healthy kept = start < kept
  ExitMeans start (fatal e) kept = ⊥

  -- A session whose resume LSN is what its source has applied keeps a resume LSN that is never
  -- behind it. It asks for a plain reconnect only where the LSN stayed, for a reconnect after a
  -- healthy run only where it grew, and is never fatal.
  pub run-ExitMeans :
      (inputs : List Input) (s : State w)
      → ExitMeans s.applied
          (run w config rules transforms s.applied inputs s).0
          (run w config rules transforms s.applied inputs s).1
  unfolding run
  run-ExitMeans inputs s = ground (arith, loop_mono inputs s)

  -- The LSN-advance policy for a decoded message: it stays while an applier is active, and where the
  -- gate lets the event through and the sink then fails; otherwise it moves up to the message's end.
  pub xlog_policy :
      (wal_start wal_end : Lsn) (bytes : Bytes) (s : State w) (event : WalEvent)
      (cache : RelationCache)
      → decode_pgoutput w.hex_encode bytes s.rel_cache ≡ (ok (some event), cache)
      → (handle w config rules transforms (xlog_data wal_start wal_end bytes) s).1.applied ≡ (
          if is_active w s.applier
            || (should_forward w.floats config rules event
                && not (send w (Transforms.apply transforms event) wal_end s).0)
          then s.applied
          else update_applied s.applied wal_end)
  unfolding handle is_active send
  xlog_policy wal_start wal_end bytes s event cache e = ground arith

  xlog_refused :
      (wal_start wal_end : Lsn) (bytes : Bytes) (s : State w) (event : WalEvent)
      (cache : RelationCache)
      → decode_pgoutput w.hex_encode bytes s.rel_cache ≡ (ok (some event), cache)
      → is_active w s.applier ≡ false
      → should_forward w.floats config rules event ≡ true
      → (send w (Transforms.apply transforms event) wal_end s).0 ≡ false
      → ((handle w config rules transforms (xlog_data wal_start wal_end bytes) s).0 ≡ true)
        × ((handle w config rules transforms (xlog_data wal_start wal_end bytes) s).1.applied
            ≡ s.applied)
  unfolding handle is_active send
  xlog_refused wal_start wal_end bytes s event cache decoded alone forward refused =
      ground (arith, decoded, alone, forward, refused)

  keep_alive_reaches :
      (wal_end : Lsn) (s : State w)
      → ((handle w config rules transforms (keep_alive wal_end) s).0 ≡ true)
        × (wal_end ≤ (handle w config rules transforms (keep_alive wal_end) s).1.applied)
  unfolding handle
  keep_alive_reaches wal_end s = ground arith

  -- An event past the LSN that the gate lets through, with no applier at work, and that the sink
  -- refuses: the loop goes on with an LSN before the event's end. A keepalive whose end is not before
  -- the event's then moves the LSN past the event, and no later input moves it back.
  pub keep_alive_passes_over :
      (wal_start wal_end : Lsn) (bytes : Bytes) (event : WalEvent) (cache : RelationCache)
      (keep_alive_end : Lsn) (inputs : List Input) (s : State w)
      → decode_pgoutput w.hex_encode bytes s.rel_cache ≡ (ok (some event), cache)
      → is_active w s.applier ≡ false
      → should_forward w.floats config rules event ≡ true
      → (send w (Transforms.apply transforms event) wal_end s).0 ≡ false
      → s.applied < wal_end
      → wal_end ≤ keep_alive_end
      → (loop w config rules transforms (received (xlog_data wal_start wal_end bytes) ∷ []) s).0
          ≡ true
        × ((loop w config rules transforms
              (received (xlog_data wal_start wal_end bytes) ∷ [])
              s).1.applied
            < wal_end)
        × (wal_end
            ≤ (loop w config rules transforms
                (received (xlog_data wal_start wal_end bytes)
                  ∷ received (keep_alive keep_alive_end)
                  ∷ inputs)
                s).1.applied)
  unfolding loop
  keep_alive_passes_over wal_start wal_end bytes event cache keep_alive_end inputs s decoded alone
        forward refused past before =
      let (goes, stays) =
        xlog_refused wal_start wal_end bytes s event cache decoded alone forward refused in
      let s1 = (handle w config rules transforms (xlog_data wal_start wal_end bytes) s).1 in
      let s2 = (handle w config rules transforms (keep_alive keep_alive_end) s1).1 in
      let reached = keep_alive_reaches keep_alive_end s1 in
      let kept = loop_mono inputs s2 in
      (
        ground (arith, goes),
        ground (arith, goes, stays, past),
        ground (arith, goes, reached, kept, before),
      )
