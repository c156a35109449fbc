-- ===== src/Replication/Client/Stream/Events.antt =====
-- The events that the main loop of replication/client.rs makes of what a server sends.
use pg_x.Base.{
  ℕ, ◌≡◌, ◌≢◌, refl, ap, ◌∙◌, none, List, [], ◌∷◌, ◌++◌, map, Bool, true, false, ◌==◌, ok, All,
  arith,
}
use pg_x.Base.Int.{ℤ}
use pg_x.Text.{Bytes}
use pg_x.Replication.Lsn.{Lsn}
use pg_x.Replication.BytesCrate.{BytesCrate, BytesRules}
use pg_x.Replication.Proto
use pg_x.Replication.Proto.{
  ReplicationCopyData, PgOutputBoundary, begin_boundary, commit_boundary, parse_pgoutput_boundary,
}
use pg_x.Replication.Proto.RoundTrip.{
  copy_data_wire, Fits, parse_copy_data-wire, boundary_wire, BoundaryFits,
  parse_pgoutput_boundary-wire,
}
use pg_x.Replication.Client.{ReplicationEvent, keep_alive, begin, xlog_data, commit}
use pg_x.Replication.Client.Stream.{
  Seen, Output, wrote, emitted, Stream, Flow, goes_on, Incoming, emit, boundary_event,
  send_feedback, report, handle_xlog_data, handle_keep_alive, handle_copy_data, on_message, drain,
}

-- What a server sends in the copy: a keepalive, a message that is no boundary, or a boundary, with
-- what a later version of the protocol may put behind it.
pub data Sent : Type 0 where
  heartbeat : (wal_end : Lsn) (time : ℤ) (reply : Bool) → Sent
  change : (wal_start wal_end : Lsn) (time : ℤ) (bytes : Bytes) → Sent
  boundary :
      (wal_start wal_end : Lsn) (time : ℤ) (flags : ℕ) (b : PgOutputBoundary) (more : Bytes) → Sent

abbrev pub copy_data_of : Sent → ReplicationCopyData
copy_data_of (heartbeat wal_end time reply) = Proto.keep_alive wal_end time reply
copy_data_of (change wal_start wal_end time bytes) = Proto.xlog_data wal_start wal_end time bytes
copy_data_of (boundary wal_start wal_end time flags b more) =
    Proto.xlog_data wal_start wal_end time (boundary_wire flags b ++ more)

abbrev pub event_of : Sent → ReplicationEvent
event_of (heartbeat wal_end time reply) = keep_alive wal_end
event_of (change wal_start wal_end time bytes) = xlog_data wal_start wal_end bytes
event_of (boundary wal_start wal_end time flags (begin_boundary final_lsn at xid) more) =
    begin final_lsn xid at
event_of (boundary wal_start wal_end time flags (commit_boundary lsn end_lsn at) more) =
    commit lsn end_lsn at

abbrev NoBoundary : Bytes → Type 0
NoBoundary [] = Unit
NoBoundary (tag ∷ _) = (tag ≢ b'B') × (tag ≢ b'C')

-- Every number fits its word, and a change does not begin as a boundary does.
abbrev pub WellSent : Sent → Type 0
WellSent (heartbeat wal_end time reply) = Fits (Proto.keep_alive wal_end time reply)
WellSent (change wal_start wal_end time bytes) =
    Fits (Proto.xlog_data wal_start wal_end time bytes) × NoBoundary bytes
WellSent (boundary wal_start wal_end time flags b more) =
    Fits (Proto.xlog_data wal_start wal_end time []) × BoundaryFits b

-- A message as it is read, where the connection takes the answer.
abbrev pub incoming : Seen × Sent → Incoming
incoming (seen, x) = (seen, ok (record { tag = b'd'; payload = copy_data_wire (copy_data_of x) }))

abbrev pub Well : Seen × Sent → Type 0
Well (seen, x) = (seen.writes ≡ true) × WellSent x

-- The events that left the loop, the latest first.
abbrev pub events : List Output → List ReplicationEvent
events [] = []
events (wrote frame ∷ log) = events log
events (emitted event ∷ log) = event ∷ events log

abbrev pub events_onto : List (Seen × Sent) → List ReplicationEvent → List ReplicationEvent
events_onto [] log = log
events_onto ((seen, x) ∷ xs) log = events_onto xs (event_of x ∷ log)

module _ (c : BytesCrate) (h : BytesRules c) where
  Emits : Flow × Stream → List ReplicationEvent → Type 0
  Emits r es = (s' : Stream) × (r ≡ (goes_on, s')) × (events s'.log ≡ es)

  handle_keep_alive-Emits :
      (wal_end : Lsn) (reply : Bool) (seen : Seen) (s : Stream)
      → seen.writes ≡ true
      → Emits (handle_keep_alive c wal_end reply seen s) (keep_alive wal_end ∷ events s.log)
  unfolding Emits handle_keep_alive
  handle_keep_alive-Emits wal_end true seen s w = rw (report, send_feedback, w) (_, refl, refl)
  handle_keep_alive-Emits wal_end false seen s w = (_, refl, refl)

  no_boundary : (bytes : Bytes) → NoBoundary bytes → parse_pgoutput_boundary bytes ≡ ok none
  unfolding parse_pgoutput_boundary
  no_boundary [] n = refl
  no_boundary (tag ∷ p) (nb, nc) =
      let eb : (tag == b'B') ≡ false = ground arith in
      let ec : (tag == b'C') ≡ false = ground arith in rw (eb, ec) refl

  Emits-boundary :
      (wal_start wal_end : Lsn) (time : ℤ) (flags : ℕ) (b : PgOutputBoundary) (more : Bytes)
      (s : Stream)
      → Emits
          (goes_on, emit (boundary_event b) s)
          (event_of (boundary wal_start wal_end time flags b more) ∷ events s.log)
  unfolding Emits emit boundary_event
  Emits-boundary wal_start wal_end time flags (begin_boundary l at xid) more s = (_, refl, refl)
  Emits-boundary wal_start wal_end time flags (commit_boundary l e at) more s = (_, refl, refl)

  handle_copy_data-Emits :
      (seen : Seen) (x : Sent) (s : Stream)
      → Well (seen, x)
      → Emits
          (handle_copy_data c (copy_data_wire (copy_data_of x)) seen s)
          (event_of x ∷ events s.log)
  unfolding Emits handle_copy_data
  handle_copy_data-Emits seen (heartbeat wal_end time reply) s (w, fits) =
      rw (handle_copy_data, parse_copy_data-wire c h (Proto.keep_alive wal_end time reply) fits)
        (handle_keep_alive-Emits wal_end reply seen s w)
  handle_copy_data-Emits seen (change wal_start wal_end time bytes) s (w, (fits, neither)) =
      rw
        (
          handle_copy_data,
          parse_copy_data-wire c h (Proto.xlog_data wal_start wal_end time bytes) fits,
          handle_xlog_data,
          no_boundary bytes neither,
        )
        (_, refl, refl)
  handle_copy_data-Emits seen (boundary wal_start wal_end time flags b more) s (w, (fits, fits')) =
      rw
        (
          handle_copy_data,
          parse_copy_data-wire c h
              (Proto.xlog_data wal_start wal_end time (boundary_wire flags b ++ more)) fits,
          handle_xlog_data,
          parse_pgoutput_boundary-wire flags b more fits',
        )
        (Emits-boundary wal_start wal_end time flags b more s)

  -- Whatever the server sends in the copy, as long as the connection takes the answers: the drain
  -- phase reads all of it, without an error, and sends on exactly its events, in order.
  pub drain-Emits :
      (xs : List (Seen × Sent)) (s : Stream)
      → All Well xs
      → (s' : Stream) × (drain c (map incoming xs) s ≡ (goes_on, s'))
        × (events s'.log ≡ events_onto xs (events s.log))
  unfolding Emits drain on_message
  drain-Emits [] s w = (s, refl, refl)
  drain-Emits ((seen, x) ∷ xs) s (w, ws) =
      let (s1, e1, v1) = handle_copy_data-Emits seen x s w in
      let (s2, e2, v2) = drain-Emits xs s1 ws in (s2, rw e1 e2, v2 ∙ ap (events_onto xs) v1)
