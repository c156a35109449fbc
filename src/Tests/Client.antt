-- ===== src/Tests/Client.antt =====
-- The replication client's handshake, SCRAM and stream, with a toy in the place of the cryptography.
use pg_x.Base.{
  ◌≡◌, ◌≢◌, ◌↔◌, refl, some, List, [], ◌∷◌, ◌++◌, map, true, false, All, ok, err, arith,
}
use pg_x.Base.Int.{pos}
use pg_x.Text.{Bytes, codes}
use pg_x.Word.{to_be_bytes}
use pg_x.Tests.Wire.{bytes_crate, bytes_rules}
use pg_x.Replication.Error.{auth, nonce_mismatch}
use pg_x.Replication.Framing.{copy_done, copy_data}
use pg_x.Replication.Proto.{begin_boundary, encode_standby_status_update}
use pg_x.Replication.Client.{keep_alive, begin, xlog_data}
use pg_x.Replication.Client.Stream.{
  Seen, Stream, goes_on, wrote, signalled, Turn, drain, stream_loop,
}
use pg_x.Replication.Client.Stream.Feedback.{LoopTold, stream_loop-LoopTold}
use pg_x.Replication.Client.Stream.Events.{
  heartbeat, change, boundary, Sent, incoming, events, events_onto, drain-Emits,
}
use pg_x.Replication.Client.Talk.{Link, out_of_fuel}
use pg_x.Replication.Client.Handshake.{ReplicationConfig, connect, auth_scram}
use pg_x.Replication.Client.Handshake.Fuel.{connect-ne-out_of_fuel}
use pg_x.Replication.Client.Handshake.Verified.{Exchanged, auth_scram-Exchanged}
use pg_x.Replication.Scram
use pg_x.Replication.Scram.{
  Crypto, verify_server_final, final_message, sasl_escape, client_final_of,
}
use pg_x.Replication.Scram.Verify.{Signed, verify_server_final_iff}
use pg_x.Replication.Scram.Proof.{CryptoRules, FollowsRfc, final_message-FollowsRfc}

abbrev seal : Bytes
seal = codes "0123456789abcdef0123456789abcdef"

-- Nothing is secret here.
abbrev toy : Crypto
toy = record { encode = λ b. b; decode = some; hmac = λ key msg. seal; digest = λ b. b }

toy_rules : CryptoRules toy
toy_rules = record { decode_rule = λ b. refl; hmac_rule = λ key msg. refl }

verify_server_final_iff_example :
    (verify_server_final toy (codes "v=" ++ seal) [] [] ≡ ok tt)
    ↔ Signed toy (codes "v=" ++ seal) [] []
verify_server_final_iff_example = verify_server_final_iff toy (codes "v=" ++ seal) [] []

abbrev client : Scram.ScramClient
client = Scram.new toy (codes "nonce") (codes "a=b,c")

final_message-FollowsRfc_example :
    FollowsRfc toy client
      (codes "pw")
      (codes "r=nonce1,s=salt,i=2")
      (codes "nonce1")
      (codes "salt")
      2
      (final_message toy client
        (codes "pw")
        (codes "r=nonce1,s=salt,i=2")
        (codes "nonce1")
        (codes "salt")
        2)
final_message-FollowsRfc_example =
    final_message-FollowsRfc toy client (codes "pw") (codes "r=nonce1,s=salt,i=2") (codes "nonce1")
      (codes "salt") 2 toy_rules

escaped : sasl_escape (codes "a=b,c") ≡ codes "a=3Db=2Cc"
unfolding sasl_escape
escaped = refl

replayed :
    client_final_of toy client (codes "pw") (codes "r=other,s=salt,i=2") ≡ err (auth nonce_mismatch)
unfolding client_final_of Scram.new
replayed = refl

abbrev seen : Seen
seen = record { applied = 7; timestamp = pos 1; instant = 100; writes = true }

abbrev sent : List (Seen × Sent)
sent =
    (seen, boundary 1 2 (pos 0) 0 (begin_boundary 2 (pos 9) 5) [])
    ∷ (seen, change 2 3 (pos 0) (codes "I"))
    ∷ (seen, heartbeat 4 (pos 0) true)
    ∷ []

abbrev quiet : Stream
quiet = record { last_applied = 7; last_status = 90; log = [] }

drain-Emits_example :
    (s' : Stream) × (drain bytes_crate (map incoming sent) quiet ≡ (goes_on, s'))
    × (events s'.log ≡ events_onto sent [])
drain-Emits_example = drain-Emits bytes_crate bytes_rules sent quiet (
  (refl, ((omega arith, omega arith, omega arith), (omega arith, omega arith, omega arith))),
  (
    (refl, ((omega arith, omega arith, omega arith), (ground arith, ground arith))),
    ((refl, (omega arith, omega arith)), tt),
  ),
)

in_order : events_onto sent [] ≡ keep_alive 4 ∷ xlog_data 2 3 (codes "I") ∷ begin 2 5 (pos 9) ∷ []
in_order = refl

abbrev leaving : Turn
leaving = record {
  seen = seen;
  buffered = [];
  stopping = false;
  wait = signalled true;
  closes = true;
}

stream_loop-LoopTold_example :
    LoopTold bytes_crate 7 (stream_loop bytes_crate 10 seen (leaving ∷ []))
stream_loop-LoopTold_example =
    stream_loop-LoopTold bytes_crate 7 10 seen (leaving ∷ []) ((omega arith, tt, tt), tt)

leaves :
    (stream_loop bytes_crate 10 seen (leaving ∷ [])).1.log
    ≡ wrote copy_done
      ∷ wrote (copy_data bytes_crate (encode_standby_status_update 7 (pos 1) false))
      ∷ []
unfolding stream_loop
leaves = refl

abbrev cfg : ReplicationConfig
cfg = record {
  user = codes "me";
  password = codes "pw";
  database = codes "db";
  slot = codes "slot";
  publication = codes "pub";
  start_lsn = 0;
  temporary = false;
}

-- The server's half of a SCRAM exchange, and what it ends the handshake with.
abbrev link : Link
link = record {
  incoming =
      ok (record { tag = b'R'; payload = to_be_bytes 4 11 ++ codes "r=nonce1,s=salt,i=2" })
      ∷ ok (record { tag = b'R'; payload = to_be_bytes 4 12 ++ (codes "v=" ++ seal) })
      ∷ [];
  sent = [];
  room = 9;
}

connect-ne-out_of_fuel_example :
    (connect bytes_crate toy (λ n. codes "nonce") cfg link).0 ≢ out_of_fuel
connect-ne-out_of_fuel_example =
    connect-ne-out_of_fuel bytes_crate toy (λ n. codes "nonce") cfg link

auth_scram-Exchanged_example :
    Exchanged bytes_crate toy
      (λ n. codes "nonce")
      cfg
      (Scram.new toy (codes "nonce") (codes "me"))
      link
      (auth_scram bytes_crate toy (λ n. codes "nonce") cfg link).1
unfolding auth_scram pg_x.Replication.Client.Talk.◌>>=◌ to_be_bytes pg_x.Base.Int.to_signed
    pg_x.Word.from_be_bytes
auth_scram-Exchanged_example =
    auth_scram-Exchanged bytes_crate toy (λ n. codes "nonce") cfg link
      (auth_scram bytes_crate toy (λ n. codes "nonce") cfg link).1 refl
