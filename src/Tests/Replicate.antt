-- ===== src/Tests/Replicate.antt =====
-- Runs of the replication session, with a sink that is a log and may be down.
use pg_x.Base.{
  arith, ◌<◌, ℕ, ◌≡◌, ◌≤◌, refl, ◌||◌, ◌&&◌, if◌then◌else◌, not, Bool, true, false, none, some,
  List, [], ◌∷◌, ok, ◌==◌, ltb, leb,
}
use pg_x.Map.{Map, nat_eq, text_key}
use pg_x.Word.{u64_mod, from_be_bytes}
use pg_x.Text.{Bytes, Text}
use pg_x.Text.Number.{print_dec, from_str_radix}
use pg_x.Replication.Event.{WalEvent, truncate}
use pg_x.Replication.Client.{keep_alive, xlog_data, update_applied}
use pg_x.Replication.Decoder.Buf
use pg_x.Replication.Decoder.Buf.{underrun}
use pg_x.Replication.Decoder.Caching
use pg_x.Replication.Decoder.Dispatch.{dispatch, decode_pgoutput}
use pg_x.Replication.Decoder.Reader
use pg_x.Replicate.Filter.{Floats}
use pg_x.Replicate.Transforms
use pg_x.Replicate.Session.Gate.{SessionConfig, OpFilter, should_forward}
use pg_x.Replicate.Session.Run.{
  World, signal, idle, received, State, is_active, handle, loop, run, send,
}
use pg_x.Replicate.Session.Progress.{run-ExitMeans, ExitMeans, xlog_policy, keep_alive_passes_over}
use pg_x.Utils.SessionLoop.{reconnect_after_healthy}

-- Whole numbers in the place of `f64`.
abbrev pub floats : Floats
floats = record {
  F64 = ℕ;
  parse = from_str_radix u64_mod 10;
  print = print_dec;
  eq = λ a b. a == b;
  lt = ltb;
  le = leb;
}

abbrev send_wal : Text → Map Text Text → Bool × List Text → Bool × (Bool × List Text)
send_wal payload env (up, log) = (up, if up then (up, payload ∷ log) else (up, log))

abbrev pub world : World
world = record {
  floats = floats;
  hex_encode = λ bytes. bytes;
  event_json = λ event. none;
  row_json = λ row. none;
  Sink = Bool × List Text;
  send_wal = send_wal;
  Applier = List WalEvent;
  handle_begin = λ a. a;
  handle_event = λ event a. (true, event ∷ a);
  handle_commit = λ a. (true, []);
}

abbrev pub config : List OpFilter → SessionConfig
config ops = record { emit_txn_boundaries = true; emit_schema = false; tables = []; ops = ops }

abbrev start : Bool → State world
start up = record {
  applied = 100;
  stopped = false;
  rel_cache = [];
  sink = (up, []);
  applier = none;
}

-- Truncate of no table.
abbrev truncate_bytes : Bytes
truncate_bytes = b'T' ∷ 0 ∷ 0 ∷ 0 ∷ 0 ∷ 0 ∷ []

truncate_decodes :
    decode_pgoutput world.hex_encode truncate_bytes []
    ≡ (ok (some (truncate [] [] false false)), [])
unfolding decode_pgoutput dispatch Caching.◌>>=◌ Caching.reading Caching.borrowing Reader.◌>>=◌
    Buf.read_u8 Buf.read_u32 from_be_bytes Reader.pure
truncate_decodes = refl

run-ExitMeans_example :
    ExitMeans world
      (config [])
      []
      []
      100
      (run world (config []) [] [] 100 (received (keep_alive 120) ∷ signal ∷ []) (start true)).0
      (run world (config []) [] [] 100 (received (keep_alive 120) ∷ signal ∷ []) (start true)).1
run-ExitMeans_example =
    run-ExitMeans world (config []) [] [] (received (keep_alive 120) ∷ signal ∷ []) (start true)

-- A timeout behind progress asks for a reconnect after a healthy run.
run_timeout :
    (run world (config []) [] [] 100 (received (keep_alive 120) ∷ idle ∷ []) (start true)).0
    ≡ reconnect_after_healthy
unfolding run loop handle
run_timeout = refl

xlog_policy_example :
    (handle world (config []) [] [] (xlog_data 110 120 truncate_bytes) (start false)).1.applied ≡ (
      if is_active world none
        || (should_forward floats (config []) [] (truncate [] [] false false)
            && not
                (send world (Transforms.apply [] (truncate [] [] false false)) 120 (start false)).0)
      then 100
      else update_applied 100 120)
xlog_policy_example =
    xlog_policy world (config []) [] [] 110 120 truncate_bytes (start false)
      (truncate [] [] false false) [] truncate_decodes

-- The sink is down, and the truncation is lost.
keep_alive_passes_over_example :
    ((loop world
        (config [])
        []
        []
        (received (xlog_data 110 120 truncate_bytes) ∷ [])
        (start false)).0
      ≡ true)
    × ((loop world
          (config [])
          []
          []
          (received (xlog_data 110 120 truncate_bytes) ∷ [])
          (start false)).1.applied
        < 120)
    × (120
        ≤ (loop world
            (config [])
            []
            []
            (received (xlog_data 110 120 truncate_bytes) ∷ received (keep_alive 130) ∷ [])
            (start false)).1.applied)
unfolding should_forward send is_active
keep_alive_passes_over_example =
    keep_alive_passes_over world (config []) [] [] 110 120 truncate_bytes
      (truncate [] [] false false) [] 130 [] (start false) truncate_decodes refl refl refl
      (omega arith) (omega arith)
