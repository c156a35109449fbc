-- ===== src/Replication/Client/Handshake.antt =====
-- Startup, authentication and START_REPLICATION of `ReplicationProtocol` in replication/client.rs.
pub mod Fuel
pub mod Verified
use pg_x.Base.{
  ℕ, zero, suc, ◌%◌, List, [], ◌∷◌, ◌++◌, Bool, false, ◌||◌, ◌==◌, if◌then◌else◌, length,
}
use pg_x.Base.Int.{ℤ, pos, negsuc}
use pg_x.Map.{text_eq}
use pg_x.Text.{Bytes, Text, codes}
use pg_x.Text.Utf8.{from_utf8_lossy}
use pg_x.Word.{to_be_bytes, u32_mod}
use pg_x.Replicate.Applier.Sql.{escape}
use pg_x.Replication.Lsn.{Lsn, to_text}
use pg_x.Replication.Error.{server, auth, unsupported, no_scram, unexpected_code}
use pg_x.Replication.Messages.{parse_auth_request, parse_error_response, parse_sasl_mechanisms}
use pg_x.Replication.BytesCrate.{BytesCrate}
use pg_x.Replication.Framing.{BackendMessage, startup_message, query_message, password_message}
use pg_x.Replication.Scram
use pg_x.Replication.Scram.{Crypto, ScramClient, client_final_of, verify_server_final}
use pg_x.Replication.Client.Talk.{
  fails, out_of_fuel, Talk, ◌>>=◌, ◌>>◌, give, lift, read_message, send,
}

-- The fields of `ReplicationConfig` that the protocol reads here.
pub record ReplicationConfig : Type 0 where
  pub user : Text
  pub password : Text
  pub database : Text
  pub slot : Text
  pub publication : Text
  pub start_lsn : Lsn
  pub temporary : Bool

abbrev pub is_code : ℕ → ℤ → Bool
is_code n (pos m) = m == n
is_code n (negsuc m) = false

abbrev offers_scram : List Text → Bool
offers_scram [] = false
offers_scram (m ∷ ms) = text_eq m (codes "SCRAM-SHA-256") || offers_scram ms

-- What the loops do with an ErrorResponse.
unfoldable pub server_error : {A : Type 0} → BackendMessage → Talk A
unfolding parse_error_response
server_error m l = (fails (server (parse_error_response m.payload)), l)

-- The loops that wait for one tag, in `start_replication` and `create_temp_slot`. A loop that reads has
-- a round for each message that is there, and one to wait in.
await_rounds : ℕ → ℕ → Talk (Unit {0})
unfolding server_error read_message
await_rounds zero tag l = (out_of_fuel, l)
await_rounds (suc n) tag l =
    (read_message >>= λ m.
    if m.tag == tag then give tt else if m.tag == b'E' then server_error m else await_rounds n tag)
      l

unfoldable pub await_tag : ℕ → Talk (Unit {0})
unfolding await_rounds
await_tag tag l = await_rounds (suc (length l.incoming)) tag l

-- `nonces` is the random number generator, at the number of messages that are still to be read.
module _ (c : BytesCrate) (k : Crypto) (nonces : ℕ → Bytes) (cfg : ReplicationConfig) where
  unfoldable pub startup : Talk (Unit {0})
  unfolding startup_message send
  startup = send (
      startup_message c (pos 196608) (
        (codes "user", cfg.user)
        ∷ (codes "database", cfg.database)
        ∷ (codes "replication", codes "database")
        ∷ (codes "client_encoding", codes "UTF8")
        ∷ (codes "application_name", codes "pgx-replicate")
        ∷ []))

  unfoldable pub auth_data : ℕ → BackendMessage → Talk Bytes
  unfolding parse_auth_request
  auth_data expected m = lift (parse_auth_request c m.payload) >>= λ r.
      if is_code expected r.0 then give r.1 else λ l.
      (fails (auth (unexpected_code r.0 (pos expected))), l)

  unfoldable pub read_auth_rounds : ℕ → ℕ → Talk Bytes
  unfolding auth_data server_error read_message
  read_auth_rounds zero expected l = (out_of_fuel, l)
  read_auth_rounds (suc n) expected l =
      (read_message >>= λ m.
      if m.tag == b'R'
      then auth_data expected m
      else if m.tag == b'E'
      then server_error m
      else read_auth_rounds n expected)
        l

  unfoldable pub read_auth_data : ℕ → Talk Bytes
  unfolding read_auth_rounds
  read_auth_data expected l = read_auth_rounds (suc (length l.incoming)) expected l

  -- The SASLInitialResponse.
  abbrev pub initial_response : Text → Bytes
  initial_response client_first =
      codes "SCRAM-SHA-256" ++ 0 ∷ (to_be_bytes 4 (length client_first % u32_mod) ++ client_first)

  scram_with : ScramClient → Talk (Unit {0})
  unfolding send read_auth_data client_final_of verify_server_final from_utf8_lossy password_message
  scram_with client = do
    send (password_message c (initial_response client.client_first))
    server_first ← read_auth_data 11
    final ← lift (client_final_of k client cfg.password (from_utf8_lossy server_first))
    send (password_message c final.client_final)
    server_final ← read_auth_data 12
    lift (
        verify_server_final k (from_utf8_lossy server_final) final.salted_password
          final.auth_message)

  unfoldable pub auth_scram : Talk (Unit {0})
  unfolding scram_with Scram.new
  auth_scram l = scram_with (Scram.new k (nonces (length l.incoming)) cfg.user) l

  unfoldable pub handle_auth : ℤ → Bytes → Talk (Unit {0})
  unfolding auth_scram parse_sasl_mechanisms password_message send
  handle_auth code bytes l =
      if is_code 0 code
      then give tt l
      else if is_code 3 code
      then send (password_message c (cfg.password ++ 0 ∷ [])) l
      else if is_code 10 code
      then (if offers_scram (parse_sasl_mechanisms bytes)
          then auth_scram l
          else (fails (auth (no_scram (parse_sasl_mechanisms bytes))), l))
      else (fails (auth (unsupported code)), l)

  auth_request : BackendMessage → Talk (Unit {0})
  unfolding parse_auth_request handle_auth
  auth_request m = lift (parse_auth_request c m.payload) >>= λ r. handle_auth r.0 r.1

  auth_rounds : ℕ → Talk (Unit {0})
  unfolding auth_request server_error read_message
  auth_rounds zero l = (out_of_fuel, l)
  auth_rounds (suc n) l =
      (read_message >>= λ m.
      if m.tag == b'R'
      then (auth_request m >>= λ _. auth_rounds n)
      else if m.tag == b'E'
      then server_error m
      else if m.tag == b'Z'
      then give tt
      else auth_rounds n)
        l

  unfoldable pub authenticate : Talk (Unit {0})
  unfolding auth_rounds
  authenticate l = auth_rounds (suc (length l.incoming)) l

  unfoldable pub create_temp_slot : Talk (Unit {0})
  unfolding query_message await_tag escape send
  create_temp_slot = do
    send (
        query_message c (
          codes "CREATE_REPLICATION_SLOT \""
          ++ (escape b'"' cfg.slot ++ codes "\" TEMPORARY LOGICAL pgoutput NOEXPORT_SNAPSHOT")))
    await_tag b'Z'

  unfoldable pub start_replication : Talk (Unit {0})
  unfolding query_message await_tag escape to_text send
  start_replication = do
    send (
        query_message c (
          codes "START_REPLICATION SLOT \""
          ++ (escape b'"' cfg.slot
              ++ (codes "\" LOGICAL "
                  ++ (to_text cfg.start_lsn
                      ++ (codes " (proto_version '1', publication_names '"
                          ++ (escape b'\'' cfg.publication ++ codes "', messages 'true')")))))))
    await_tag b'W'

  -- `run`, up to the streaming loop.
  unfoldable pub connect : Talk (Unit {0})
  unfolding startup authenticate create_temp_slot start_replication
  connect = do
    startup
    authenticate
    if cfg.temporary then create_temp_slot else give tt
    start_replication
