-- ===== src/Replication/Client/Stream/Feedback.antt =====
-- What the main loop of replication/client.rs tells the server.
use pg_x.Base.{
  ℕ, zero, suc, ◌≤◌, ◌≡◌, refl, ◌⊎◌, inl, inr, Bool-cases, Result-cases, none, some, ◌==◌, ◌-◌, leb,
  List, [], ◌∷◌, Bool, true, false, if◌then◌else◌, take, Result, ok, err, All,
}
use pg_x.Base.Int.{ℤ}
use pg_x.Text.{Bytes}
use pg_x.Replication.Lsn.{Lsn}
use pg_x.Replication.Error.{ReplError}
use pg_x.Replication.BytesCrate.{BytesCrate}
use pg_x.Replication.Framing.{BackendMessage, copy_data, copy_done}
use pg_x.Replication.Proto
use pg_x.Replication.Proto.{encode_standby_status_update, parse_copy_data, parse_pgoutput_boundary}
use pg_x.Replication.Client.Stream.{
  Seen, Output, wrote, emitted, Stream, Flow, goes_on, stops, fails, Incoming, Wait, signalled,
  idle, arrived, Turn, next, send_copy_done, send_feedback, report, handle_xlog_data,
  handle_keep_alive, handle_copy_data, on_message, drain, wait_phase, periodic, behind_drain, turn,
  turns_from, stream_loop,
}

All-take : {A : Type 0} (P : A → Type 0) (n : ℕ) (xs : List A) → All P xs → All P (take n xs)
All-take P zero xs h = tt
All-take P (suc n) [] h = tt
All-take P (suc n) (x ∷ xs) (p, h) = (p, All-take P n xs h)

module _ (c : BytesCrate) (bound : Lsn) where
  -- What left the loop before its end: an event, or a status with a position up to `bound`.
  unfoldable pub Told : Output → Type 0
  Told (emitted event) = Unit
  Told (wrote frame) =
      (l : Lsn) × (t : ℤ) × (reply : Bool) × (frame
        ≡ copy_data c (encode_standby_status_update l t reply))
      × (l ≤ bound)

  -- What left the loop by how it ends, the latest first: where it stops, one end of the copy may
  -- stand behind all the others.
  abbrev pub LoopTold : Flow × Stream → Type 0
  LoopTold (goes_on, s) = All Told s.log
  LoopTold (fails e, s) = All Told s.log
  LoopTold (stops, s) =
      All Told s.log
      ⊎ ((before : List Output) × (s.log ≡ wrote copy_done ∷ before) × All Told before)

  abbrev Before : Incoming → Type 0
  Before m = m.0.applied ≤ bound

  abbrev WaitBefore : Wait → Type 0
  WaitBefore (signalled stop) = Unit
  WaitBefore (idle seen) = seen.applied ≤ bound
  WaitBefore (arrived m) = Before m

  -- Every load of the shared progress in a turn gives a position up to `bound`.
  abbrev pub TurnBefore : Turn → Type 0
  TurnBefore t = (t.seen.applied ≤ bound) × All Before t.buffered × WaitBefore t.wait

  next-LoopTold :
      (r : Flow × Stream) (f : Stream → Flow × Stream)
      → LoopTold r
      → ((s : Stream) → All Told s.log → LoopTold (f s))
      → LoopTold (next r f)
  next-LoopTold (goes_on, s) f h g = g s h
  next-LoopTold (stops, s) f h g = h
  next-LoopTold (fails e, s) f h g = h

  send_feedback-LoopTold :
      (l : Lsn) (reply : Bool) (seen : Seen) (s : Stream)
      → l ≤ bound
      → All Told s.log
      → LoopTold (send_feedback c l reply seen s)
  unfolding Told send_feedback
  send_feedback-LoopTold l reply seen s le h = elim (Bool-cases seen.writes) [
    | inl e ↦ rw e ((l, seen.timestamp, reply, refl, le), h)
    | inr e ↦ rw e h
  ]

  report-LoopTold :
      (reply : Bool) (seen : Seen) (s : Stream)
      → seen.applied ≤ bound
      → All Told s.log
      → LoopTold (report c reply seen s)
  unfolding report
  report-LoopTold reply seen s le h =
      next-LoopTold
        (send_feedback c seen.applied reply seen (record s { last_applied = seen.applied }))
        (λ s'. (goes_on, record s' { last_status = seen.instant }))
        (send_feedback-LoopTold seen.applied reply seen (record s { last_applied = seen.applied })
          le h)
        (λ s' h'. h')

  send_copy_done-LoopTold :
      (closes : Bool) (s : Stream) → All Told s.log → LoopTold (send_copy_done closes s)
  unfolding Told send_copy_done
  send_copy_done-LoopTold true s h = inr (s.log, refl, h)
  send_copy_done-LoopTold false s h = inl h

  handle_xlog_data-LoopTold :
      (wal_start wal_end : Lsn) (bytes : Bytes) (s : Stream)
      → All Told s.log
      → LoopTold (handle_xlog_data c wal_start wal_end bytes s)
  unfolding Told handle_xlog_data
  handle_xlog_data-LoopTold wal_start wal_end bytes s h =
      elim (Result-cases (parse_pgoutput_boundary bytes)) [
        | inl (none, e) ↦ rw (e, handle_xlog_data) (tt, h)
        | inl (some b, e) ↦ rw (e, handle_xlog_data) (tt, h)
        | inr (_, e) ↦ rw (e, handle_xlog_data) h
      ]

  handle_keep_alive-LoopTold :
      (wal_end : Lsn) (reply : Bool) (seen : Seen) (s : Stream)
      → seen.applied ≤ bound
      → All Told s.log
      → LoopTold (handle_keep_alive c wal_end reply seen s)
  unfolding Told handle_keep_alive
  handle_keep_alive-LoopTold wal_end reply seen s le h =
      next-LoopTold (if reply then report c true seen s else (goes_on, s)) _
        (elim reply as (λ b. LoopTold (if b then report c true seen s else (goes_on, s))) [
          | true ↦ report-LoopTold true seen s le h
          | false ↦ h
        ])
        (λ s' h'. (tt, h'))

  handle_copy_data-LoopTold :
      (payload : Bytes) (seen : Seen) (s : Stream)
      → seen.applied ≤ bound
      → All Told s.log
      → LoopTold (handle_copy_data c payload seen s)
  unfolding handle_copy_data
  handle_copy_data-LoopTold payload seen s le h = elim (Result-cases (parse_copy_data c payload)) [
    | inl (Proto.keep_alive wal_end time reply, e) ↦
        rw (e, handle_copy_data) (handle_keep_alive-LoopTold wal_end reply seen s le h)
    | inl (Proto.xlog_data wal_start wal_end time bytes, e) ↦
        rw (e, handle_copy_data) (handle_xlog_data-LoopTold wal_start wal_end bytes s h)
    | inr (_, e) ↦ rw (e, handle_copy_data) h
  ]

  on_message-LoopTold :
      (seen : Seen) (m : Result ReplError BackendMessage) (s : Stream)
      → seen.applied ≤ bound
      → All Told s.log
      → LoopTold (on_message c seen m s)
  unfolding on_message
  on_message-LoopTold seen (err e) s le h = h
  on_message-LoopTold seen (ok m) s le h = elim (Bool-cases (m.tag == b'd')) [
    | inl d ↦ rw d (handle_copy_data-LoopTold m.payload seen s le h)
    | inr d ↦ elim (Bool-cases (m.tag == b'E')) [ inl e ↦ rw (d, e) h | inr e ↦ rw (d, e) h ]
  ]

  drain-LoopTold :
      (ms : List Incoming) (s : Stream) → All Before ms → All Told s.log → LoopTold (drain c ms s)
  unfolding drain
  drain-LoopTold [] s b h = h
  drain-LoopTold ((seen, m) ∷ ms) s (le, b) h =
      next-LoopTold (on_message c seen m s) (drain c ms) (on_message-LoopTold seen m s le h)
        (λ s' h'. drain-LoopTold ms s' b h')

  wait_phase-LoopTold :
      (w : Wait) (closes : Bool) (s : Stream)
      → WaitBefore w
      → All Told s.log
      → LoopTold (wait_phase c w closes s)
  unfolding wait_phase
  wait_phase-LoopTold (signalled true) closes s b h = send_copy_done-LoopTold closes s h
  wait_phase-LoopTold (signalled false) closes s b h = h
  wait_phase-LoopTold (idle seen) closes s b h = report-LoopTold false seen s b h
  wait_phase-LoopTold (arrived (seen, m)) closes s b h = on_message-LoopTold seen m s b h

  periodic-LoopTold :
      (interval : ℕ) (seen : Seen) (s : Stream)
      → seen.applied ≤ bound
      → All Told s.log
      → LoopTold (periodic c interval seen s)
  unfolding periodic
  periodic-LoopTold interval seen s le h =
      elim (Bool-cases (leb interval (seen.instant - s.last_status))) [
        | inl due ↦ rw due (report-LoopTold false seen s le h)
        | inr due ↦ rw due h
      ]

  behind_drain-LoopTold :
      (ms : List Incoming) (t : Turn) (s : Stream)
      → TurnBefore t
      → All Told s.log
      → LoopTold (behind_drain c ms t s)
  unfolding behind_drain
  behind_drain-LoopTold [] t s (le, b, w) h = wait_phase-LoopTold t.wait t.closes s w h
  behind_drain-LoopTold (m ∷ ms) t s b h = elim (Bool-cases t.stopping) [
    | inl e ↦ rw e (send_copy_done-LoopTold t.closes s h)
    | inr e ↦ rw e h
  ]

  turn-LoopTold :
      (interval : ℕ) (t : Turn) (s : Stream)
      → TurnBefore t
      → All Told s.log
      → LoopTold (turn c interval t s)
  unfolding turn
  turn-LoopTold interval t s (le, b, w) h =
      let ms = take 256 t.buffered in
      next-LoopTold (periodic c interval t.seen s) _ (periodic-LoopTold interval t.seen s le h)
        λ s1 h1.
          next-LoopTold (drain c ms s1) _
            (drain-LoopTold ms s1 (All-take Before 256 t.buffered b) h1)
            λ s2 h2. behind_drain-LoopTold ms t s2 (le, b, w) h2

  turns_from-LoopTold :
      (interval : ℕ) (ts : List Turn) (s : Stream)
      → All TurnBefore ts
      → All Told s.log
      → LoopTold (turns_from c interval ts s)
  unfolding turns_from
  turns_from-LoopTold interval [] s b h = h
  turns_from-LoopTold interval (t ∷ ts) s (bt, b) h =
      next-LoopTold (turn c interval t s) (turns_from c interval ts)
        (turn-LoopTold interval t s bt h) (λ s' h'. turns_from-LoopTold interval ts s' b h')

  -- The server is told of no position past those that the shared progress gave: where no load gives
  -- more than a bound, no status that the loop writes does, however the loop ends. It writes nothing
  -- but statuses, and where it stops at most one end of the copy, behind which nothing leaves it.
  pub stream_loop-LoopTold :
      (interval : ℕ) (first : Seen) (ts : List Turn)
      → All TurnBefore ts
      → LoopTold (stream_loop c interval first ts)
  unfolding stream_loop
  stream_loop-LoopTold interval first ts b = turns_from-LoopTold interval ts _ b tt
