-- ===== src/Replication/Client/Stream.antt =====
-- The main loop of `ReplicationProtocol` in replication/client.rs, from START_REPLICATION on. What a
-- turn reads from outside stands in its `Turn`: the clock, the shared progress, the messages of the
-- server, the stop signal, and whether writes succeed. `log` is what left the loop, the latest first.
pub mod Feedback
pub mod Events
use pg_x.Base.{
  ℕ, ◌-◌, none, some, List, [], ◌∷◌, Bool, true, false, ◌==◌, leb, if◌then◌else◌, take, Result, ok,
  err,
}
use pg_x.Base.Int.{ℤ}
use pg_x.Text.{Bytes}
use pg_x.Replication.Lsn.{Lsn}
use pg_x.Replication.Error.{ReplError, io, server}
use pg_x.Replication.Messages.{parse_error_response}
use pg_x.Replication.BytesCrate.{BytesCrate}
use pg_x.Replication.Framing.{BackendMessage, copy_data, copy_done}
use pg_x.Replication.Proto
use pg_x.Replication.Proto.{
  parse_copy_data, encode_standby_status_update, PgOutputBoundary, begin_boundary, commit_boundary,
  parse_pgoutput_boundary,
}
use pg_x.Replication.Client.{ReplicationEvent, keep_alive, begin, xlog_data, commit}

-- The shared progress, `current_pg_timestamp()`, `Instant::now()` in seconds from an origin that lies
-- at least a status interval back, and whether the connection takes a write.
pub record Seen : Type 0 where
  pub applied : Lsn
  pub timestamp : ℤ
  pub instant : ℕ
  pub writes : Bool

pub data Output : Type 0 where
  wrote : Bytes → Output
  emitted : ReplicationEvent → Output

-- The locals of `stream_loop`, and what left it.
pub record Stream : Type 0 where
  pub last_applied : Lsn
  pub last_status : ℕ
  pub log : List Output

pub data Flow : Type 0 where
  goes_on stops : Flow
  fails : ReplError → Flow

abbrev pub Incoming : Type 0
Incoming = Seen × Result ReplError BackendMessage

pub data Wait : Type 0 where
  signalled : (stop : Bool) → Wait
  idle : Seen → Wait
  arrived : Incoming → Wait

pub record Turn : Type 0 where
  pub seen : Seen
  -- What is read while five bytes are buffered.
  pub buffered : List Incoming
  -- The stop signal behind the drain phase.
  pub stopping : Bool
  -- What wins the wait phase.
  pub wait : Wait
  -- Whether the connection takes the CopyDone.
  pub closes : Bool

abbrev pub logged : Output → Stream → Stream
logged o s = record s { log = o ∷ s.log }

-- The next step where the last one goes on.
abbrev pub next : Flow × Stream → (Stream → Flow × Stream) → Flow × Stream
next (goes_on, s) f = f s
next (stops, s) f = (stops, s)
next (fails e, s) f = (fails e, s)

unfoldable pub emit : ReplicationEvent → Stream → Stream
emit event s = logged (emitted event) s

unfoldable pub boundary_event : PgOutputBoundary → ReplicationEvent
boundary_event (begin_boundary final_lsn commit_time xid) = begin final_lsn xid commit_time
boundary_event (commit_boundary lsn end_lsn commit_time) = commit lsn end_lsn commit_time

-- `let _ = self.send_copy_done().await; return Ok(())`
unfoldable pub send_copy_done : Bool → Stream → Flow × Stream
unfolding copy_done
send_copy_done closes s = (stops, if closes then logged (wrote copy_done) s else s)

module _ (c : BytesCrate) where
  unfoldable pub send_feedback : Lsn → Bool → Seen → Stream → Flow × Stream
  unfolding copy_data encode_standby_status_update
  send_feedback applied reply_requested seen s =
      if seen.writes
      then (
        goes_on,
        logged
            (wrote
              (copy_data c (encode_standby_status_update applied seen.timestamp reply_requested)))
            s,
      )
      else (fails io, s)

  -- Feedback with the progress of this moment.
  unfoldable pub report : Bool → Seen → Stream → Flow × Stream
  unfolding send_feedback
  report reply_requested seen s =
      next
        (send_feedback seen.applied reply_requested seen (record s { last_applied = seen.applied }))
        (λ s'. (goes_on, record s' { last_status = seen.instant }))

  handle_xlog_data : (wal_start wal_end : Lsn) (bytes : Bytes) → Stream → Flow × Stream
  unfolding parse_pgoutput_boundary emit boundary_event
  handle_xlog_data wal_start wal_end bytes s = elim (parse_pgoutput_boundary bytes) [
    | err e ↦ (fails e, s)
    | ok none ↦ (goes_on, emit (xlog_data wal_start wal_end bytes) s)
    | ok (some b) ↦ (goes_on, emit (boundary_event b) s)
  ]

  handle_keep_alive : Lsn → Bool → Seen → Stream → Flow × Stream
  unfolding report emit
  handle_keep_alive wal_end reply_requested seen s =
      next (if reply_requested then report true seen s else (goes_on, s))
        (λ s'. (goes_on, emit (keep_alive wal_end) s'))

  unfoldable pub handle_copy_data : Bytes → Seen → Stream → Flow × Stream
  unfolding parse_copy_data handle_xlog_data handle_keep_alive
  handle_copy_data payload seen s = elim (parse_copy_data c payload) [
    | err e ↦ (fails e, s)
    | ok (Proto.keep_alive wal_end time reply_requested) ↦
        handle_keep_alive wal_end reply_requested seen s
    | ok (Proto.xlog_data wal_start wal_end time bytes) ↦ handle_xlog_data wal_start wal_end bytes s
  ]

  -- A message that was read, in the drain phase and in the wait phase.
  unfoldable pub on_message : Seen → Result ReplError BackendMessage → Stream → Flow × Stream
  unfolding handle_copy_data parse_error_response
  on_message seen (err e) s = (fails e, s)
  on_message seen (ok m) s =
      if m.tag == b'd'
      then handle_copy_data m.payload seen s
      else if m.tag == b'E'
      then (fails (server (parse_error_response m.payload)), s)
      else (goes_on, s)

  unfoldable pub drain : List Incoming → Stream → Flow × Stream
  unfolding on_message
  drain [] s = (goes_on, s)
  drain ((seen, m) ∷ ms) s = next (on_message seen m s) (drain ms)

  unfoldable pub wait_phase : Wait → Bool → Stream → Flow × Stream
  unfolding report on_message send_copy_done
  wait_phase (signalled stop) closes s = if stop then send_copy_done closes s else (goes_on, s)
  wait_phase (idle seen) closes s = report false seen s
  wait_phase (arrived (seen, m)) closes s = on_message seen m s

  -- The periodic feedback, with the progress that the turn began with.
  unfoldable pub periodic : ℕ → Seen → Stream → Flow × Stream
  unfolding report
  periodic status_interval seen s =
      if leb status_interval (seen.instant - s.last_status)
      then report false seen s
      else (goes_on, record s { last_applied = seen.applied })

  behind_drain : List Incoming → Turn → Stream → Flow × Stream
  unfolding wait_phase send_copy_done
  behind_drain [] t s = wait_phase t.wait t.closes s
  behind_drain (_ ∷ _) t s = if t.stopping then send_copy_done t.closes s else (goes_on, s)

  -- One turn of the loop; a drain phase ends after 256 messages.
  unfoldable pub turn : ℕ → Turn → Stream → Flow × Stream
  unfolding periodic drain behind_drain
  turn status_interval t s =
      next (periodic status_interval t.seen s)
        λ s1. next (drain (take 256 t.buffered) s1) λ s2. behind_drain (take 256 t.buffered) t s2

  turns_from : ℕ → List Turn → Stream → Flow × Stream
  unfolding turn
  turns_from status_interval [] s = (goes_on, s)
  turns_from status_interval (t ∷ ts) s =
      next (turn status_interval t s) (turns_from status_interval ts)

  -- `first` is read before the first turn. Where the turns end, the loop still runs.
  unfoldable pub stream_loop : ℕ → Seen → List Turn → Flow × Stream
  unfolding turns_from
  stream_loop status_interval first turns = turns_from status_interval turns (record {
    last_applied = first.applied;
    last_status = first.instant - status_interval;
    log = [];
  })
