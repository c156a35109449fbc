-- ===== src/Replicate/Session/Applied.antt =====
-- The session of commands/replicate/replicate_session.rs with the applier of
-- commands/replicate/applier.rs behind its trait.
use pg_x.Base.{
  ℕ, ◌≡◌, refl, sym, ap, ◌∙◌, inl, inr, Result-cases, Option, none, some, List, [], ◌∷◌, ◌++◌, true,
  if◌then◌else◌, Result, ok, arith,
}
use pg_x.Base.Int.{ℤ}
use pg_x.Text.{Bytes}
use pg_x.Replication.Lsn.{Lsn}
use pg_x.Replication.Event.{WalEvent}
use pg_x.Replication.Client.{ReplicationEvent, begin, xlog_data, commit}
use pg_x.Replication.Decoder.Buf.{DecodeError}
use pg_x.Replication.Decoder.Message.{RelationCache}
use pg_x.Replication.Decoder.Dispatch.{decode_pgoutput}
use pg_x.Replicate.Filter.{RowFilter}
use pg_x.Replicate.Transforms.{ColumnTransforms}
use pg_x.Replicate.Transforms
use pg_x.Replicate.Session.Gate.{SessionConfig, should_forward}
use pg_x.Replicate.Session.Run.{World, Input, received, State, handle, loop}
use pg_x.Replicate.Applier.Sql.{gen_statements}
use pg_x.Replicate.Applier
use pg_x.Replicate.Applier.{Client, PostgresApplier}
use pg_x.Replicate.Applier.Transaction.{handle_events, committed, handle_commit-transaction}

handle_event-true :
    (c : Client) (event : WalEvent) (a : PostgresApplier c)
    → (Applier.handle_event c event a).0 ≡ true
unfolding Applier.handle_event
handle_event-true c event a = ground arith

-- The messages between a Begin and its Commit.
abbrev pub inputs_of : List (Lsn × Lsn × Bytes) → List Input
inputs_of [] = []
inputs_of ((wal_start, wal_end, bytes) ∷ changes) =
    received (xlog_data wal_start wal_end bytes) ∷ inputs_of changes

module _ (w : World) (config : SessionConfig) (rules : RowFilter w.floats)
    (transforms : ColumnTransforms) where
  -- What a decoded message gives the target: the transformed event where the gate lets it pass.
  abbrev applicable : Result DecodeError (Option WalEvent) → List WalEvent
  applicable (ok (some event)) =
      if should_forward w.floats config rules event
      then Transforms.apply transforms event ∷ []
      else []
  applicable _ = []

  -- The messages of a transaction, in order, with the relations that the earlier ones declare.
  abbrev pub events_of : RelationCache → List (Lsn × Lsn × Bytes) → List WalEvent
  events_of cache [] = []
  events_of cache ((wal_start, wal_end, bytes) ∷ changes) =
      let (outcome, cache') = decode_pgoutput w.hex_encode bytes cache in
      applicable outcome ++ events_of cache' changes

  -- An applier's calls for some events.
  abbrev handled : List WalEvent → w.Applier → w.Applier
  handled [] a = a
  handled (event ∷ events) a = handled events (w.handle_event event a).1

  handled-append :
      (xs ys : List WalEvent) (a : w.Applier) → handled (xs ++ ys) a ≡ handled ys (handled xs a)
  handled-append [] ys a = refl
  handled-append (x ∷ xs) ys a = handled-append xs ys (w.handle_event x a).1

  loop_step :
      (event : ReplicationEvent) (inputs : List Input) (s : State w)
      → (handle w config rules transforms event s).0 ≡ true
      → loop w config rules transforms (received event ∷ inputs) s
        ≡ loop w config rules transforms inputs (handle w config rules transforms event s).1
  unfolding loop
  loop_step event inputs s h = rw (loop, h) refl

  begin_applied :
      (final_lsn : Lsn) (xid : ℕ) (time : ℤ) (s : State w) (a : w.Applier)
      → s.applier ≡ some a
      → let r = handle w config rules transforms (begin final_lsn xid time) s in
        (r.0 ≡ true) × (r.1.applier ≡ some (w.handle_begin a)) × (r.1.rel_cache ≡ s.rel_cache)
  unfolding handle
  begin_applied final_lsn xid time s a e = (refl, ground (arith, e), ground arith)

  -- A commit ends the loop where the applier fails.
  commit_applied :
      (lsn end_lsn : Lsn) (time : ℤ) (s : State w) (a : w.Applier)
      → s.applier ≡ some a
      → let r = loop w config rules transforms (received (commit lsn end_lsn time) ∷ []) s in
        (r.0 ≡ (w.handle_commit a).0) × (r.1.applier ≡ some (w.handle_commit a).1)
  unfolding loop handle
  commit_applied lsn end_lsn time s a e = (ground (arith, e), ground (arith, e))

  module _ (fine : (event : WalEvent) (a : w.Applier) → (w.handle_event event a).0 ≡ true) where
    handle_goes_on :
        (wal_start wal_end : Lsn) (bytes : Bytes) (s : State w) (a : w.Applier)
        → s.applier ≡ some a
        → (handle w config rules transforms (xlog_data wal_start wal_end bytes) s).0 ≡ true
    unfolding handle
    handle_goes_on wal_start wal_end bytes s a e =
        elim (Result-cases (decode_pgoutput w.hex_encode bytes s.rel_cache).0) [
          | inl (some event, o) ↦
              let f = fine (Transforms.apply transforms event) a in ground (arith, e, o, f)
          | inl (none, o) ↦ ground (arith, o)
          | inr (x, o) ↦ ground (arith, o)
        ]

    handle_known :
        (wal_start wal_end : Lsn) (bytes : Bytes) (s : State w)
        → (handle w config rules transforms (xlog_data wal_start wal_end bytes) s).1.rel_cache
          ≡ (decode_pgoutput w.hex_encode bytes s.rel_cache).1
    unfolding handle
    handle_known wal_start wal_end bytes s = ground arith

    handle_applied :
        (wal_start wal_end : Lsn) (bytes : Bytes) (s : State w) (a : w.Applier)
        → s.applier ≡ some a
        → (handle w config rules transforms (xlog_data wal_start wal_end bytes) s).1.applier
          ≡ some (handled (applicable (decode_pgoutput w.hex_encode bytes s.rel_cache).0) a)
    unfolding handle
    handle_applied wal_start wal_end bytes s a e = ground (arith, e, fine)

    -- The loop over a transaction's messages: it goes on behind them, and the applier has got their
    -- events.
    loop_changes :
        (changes : List (Lsn × Lsn × Bytes)) (rest : List Input) (s : State w) (a : w.Applier)
        → s.applier ≡ some a
        → (s' : State w) × (loop w config rules transforms (inputs_of changes ++ rest) s
            ≡ loop w config rules transforms rest s')
          × (s'.applier ≡ some (handled (events_of s.rel_cache changes) a))
    unfolding loop
    loop_changes [] rest s a e = (s, refl, e)
    loop_changes ((wal_start, wal_end, bytes) ∷ changes) rest s a e =
        let (outcome, cache) = decode_pgoutput w.hex_encode bytes s.rel_cache in
        let s1 = (handle w config rules transforms (xlog_data wal_start wal_end bytes) s).1 in
        let on = handle_goes_on wal_start wal_end bytes s a e in
        let known = handle_known wal_start wal_end bytes s in
        let (s2, same, applied) =
          loop_changes changes rest s1 (handled (applicable outcome) a)
            (handle_applied wal_start wal_end bytes s a e) in
        (
          s2,
          loop_step (xlog_data wal_start wal_end bytes) (inputs_of changes ++ rest) s on ∙ same,
          applied
              ∙ ap (λ k. some (handled (events_of k changes) (handled (applicable outcome) a)))
                  known
              ∙ ap some (sym (handled-append (applicable outcome) (events_of cache changes) a)),
        )

module _ (w : World) (c : Client) where
  -- The session's surroundings, with the PostgreSQL applier.
  abbrev pub replicating : World
  replicating = record {
    floats = w.floats;
    hex_encode = w.hex_encode;
    event_json = w.event_json;
    row_json = w.row_json;
    Sink = w.Sink;
    send_wal = w.send_wal;
    Applier = PostgresApplier c;
    handle_begin = Applier.handle_begin c;
    handle_event = Applier.handle_event c;
    handle_commit = Applier.handle_commit c;
  }

  module _ (config : SessionConfig) (rules : RowFilter w.floats)
      (transforms : ColumnTransforms) where
    handled-handle_events :
        (events : List WalEvent) (a : PostgresApplier c)
        → handled replicating config rules transforms events a ≡ handle_events c events a
    handled-handle_events [] a = refl
    handled-handle_events (event ∷ events) a =
        handled-handle_events events (Applier.handle_event c event a).1

    -- From a Begin over any messages to the Commit, and whatever the sink does: the target runs, as one
    -- transaction, the statements of exactly the decoded events that the gate lets pass, transformed
    -- and in order. The session goes on behind the Commit exactly where that transaction succeeds.
    pub loop-committed :
        (final_lsn lsn end_lsn : Lsn) (xid : ℕ) (time time' : ℤ)
        (changes : List (Lsn × Lsn × Bytes)) (s : State replicating) (a : PostgresApplier c)
        → s.applier ≡ some a
        → let inputs =
            received (begin final_lsn xid time)
            ∷ (inputs_of changes ++ received (commit lsn end_lsn time') ∷ []) in
          let r = loop replicating config rules transforms inputs s in
          let events = events_of replicating config rules transforms s.rel_cache changes in
          let target = committed c (gen_statements a.schema_map events) a in
          (r.0 ≡ target.0) × (r.1.applier ≡ some target.1)
    loop-committed final_lsn lsn end_lsn xid time time' changes s a e =
        let v = replicating in
        let last : List Input = received (commit lsn end_lsn time') ∷ [] in
        let s0 = (handle v config rules transforms (begin final_lsn xid time) s).1 in
        let (on, e0, k0) = begin_applied v config rules transforms final_lsn xid time s a e in
        let first =
          loop_step v config rules transforms (begin final_lsn xid time) (inputs_of changes ++ last)
            s on in
        let (s1, middle, e1) =
          loop_changes v config rules transforms (handle_event-true c) changes last s0
            (Applier.handle_begin c a) e0 in
        let events = events_of v config rules transforms s.rel_cache changes in
        let b = handle_events c events (Applier.handle_begin c a) in
        let e2 : s1.applier ≡ some b =
          e1
          ∙ ap
              (λ k. some (
                handled v config rules transforms (events_of v config rules transforms k changes)
                  (Applier.handle_begin c a)))
              k0
          ∙ ap some (handled-handle_events events (Applier.handle_begin c a)) in
        let (flag, applied) = commit_applied v config rules transforms lsn end_lsn time' s1 b e2 in
        let target = handle_commit-transaction c events a in
        let whole = first ∙ middle in
        (
          ap (λ r. r.0) whole ∙ flag ∙ ap (λ r. r.0) target,
          ap (λ r. r.1.applier) whole ∙ applied ∙ ap (λ r. some r.1) target,
        )
