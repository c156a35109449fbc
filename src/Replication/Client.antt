-- ===== src/Replication/Client.antt =====
-- replication/client.rs: the events of the client, and the progress it shares with its user.
pub mod Exchange
pub mod Stream
pub mod Talk
pub mod Handshake
use pg_x.Base.{ℕ, Option, none, some, List, [], ◌∷◌, ltb, if◌then◌else◌}
use pg_x.Base.Int.{ℤ}
use pg_x.Text.{Bytes}
use pg_x.Replication.Lsn.{Lsn}

pub data ReplicationEvent : Type 0 where
  keep_alive : (wal_end : Lsn) → ReplicationEvent
  begin : (final_lsn : Lsn) (xid : ℕ) (commit_time : ℤ) → ReplicationEvent
  xlog_data : (wal_start wal_end : Lsn) (bytes : Bytes) → ReplicationEvent
  commit : (lsn end_lsn : Lsn) (commit_time : ℤ) → ReplicationEvent

-- The loop of `SharedProgress::update_applied`: what this call stores, if it stores. `current` is
-- the value that it last read; each entry of `observed` is the value that one failed exchange
-- reads instead, and behind them the exchange succeeds.
unfoldable pub stores : Lsn → Lsn → List Lsn → Option Lsn
stores new current [] = if ltb current new then some new else none
stores new current (seen ∷ observed) =
    let again = stores new seen observed in if ltb current new then again else none

-- The call with nobody else writing: `fetch_max` by hand.
unfoldable pub update_applied : Lsn → Lsn → Lsn
unfolding stores
update_applied applied lsn = elim (stores lsn applied []) [ none ↦ applied | some new ↦ new ]
