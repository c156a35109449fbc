-- ===== src/Tests/EndToEnd.antt =====
-- A source transaction through the decoder, the session and the applier; and decimal text.
use pg_x.Base.{ℕ, ◌+◌, ◌*◌, ◌≡◌, refl, some, List, [], ◌∷◌, ◌++◌, true, false, length, All, arith}
use pg_x.Base.Int.{pos}
use pg_x.Text.{Bytes, Text, codes}
use pg_x.Word.{to_be_bytes}
use pg_x.Replication.Lsn.{Lsn}
use pg_x.Replication.Client.{begin, commit}
use pg_x.Replicate.Session.Run.{received, State, loop}
use pg_x.Replicate.Session.Applied.{replicating, inputs_of, events_of, loop-committed}
use pg_x.Replicate.Applier.{PostgresApplier}
use pg_x.Replicate.Applier.Sql.{gen_statements}
use pg_x.Replicate.Applier.Transaction.{committed}
use pg_x.Tests.Replicate.{world, config}
use pg_x.Tests.Applier.{client}
use pg_x.Utils.Numeric.{pg_numeric_to_string, assembled}
use pg_x.Utils.Numeric.Value.{IsDigit, decimal_onto, Rounded, int_chars, leading}
use pg_x.Utils.Numeric.Wire.{numeric_wire, base_10000, pg_numeric_to_string-wire}

abbrev relation_bytes : Bytes
relation_bytes =
    b'R'
    ∷ (to_be_bytes 4 7
        ++ (codes "public"
            ++ 0
              ∷ (codes "t"
                  ++ 0
                    ∷ b'd'
                    ∷ 0
                    ∷ 1
                    ∷ 1
                    ∷ (codes "id" ++ 0 ∷ (to_be_bytes 4 23 ++ to_be_bytes 4 0)))))

abbrev insert_bytes : Bytes
insert_bytes = b'I' ∷ (to_be_bytes 4 7 ++ b'N' ∷ 0 ∷ 1 ∷ b't' ∷ (to_be_bytes 4 1 ++ codes "5"))

abbrev changes : List (Lsn × Lsn × Bytes)
changes = (101, 102, relation_bytes) ∷ (102, 103, insert_bytes) ∷ []

abbrev target : PostgresApplier client
target = record { client = ([], []); buffer = []; schema_map = [] }

abbrev start : State (replicating world client)
start = record {
  applied = 100;
  stopped = false;
  rel_cache = [];
  sink = (true, []);
  applier = some target;
}

loop-committed_example :
    let r =
      loop
        (replicating world client)
        (config [])
        []
        []
        (received (begin 104 9 (pos 0))
          ∷ (inputs_of changes ++ received (commit 104 105 (pos 0)) ∷ []))
        start in
    let events = events_of (replicating world client) (config []) [] [] [] changes in
    let behind = committed client (gen_statements [] events) target in
    (r.0 ≡ behind.0) × (r.1.applier ≡ some behind.1)
loop-committed_example =
    loop-committed world client (config []) [] [] 104 104 105 9 (pos 0) (pos 0) changes start target
      refl

pg_numeric_to_string-wire_example :
    (integer frac : Text) × (pg_numeric_to_string (numeric_wire true (pos 0) 1 (1 ∷ 5000 ∷ []))
      ≡ some (assembled true 1 integer frac))
    × (All IsDigit integer)
    × (All IsDigit frac)
    × (length frac ≡ 1)
    × Rounded
        (base_10000 0 (1 ∷ 5000 ∷ []))
        (int_chars (pos 0) + 1)
        (length {A = ℕ} (1 ∷ 5000 ∷ []) * 4 + leading (pos 0))
        (decimal_onto 0 (integer ++ frac))
pg_numeric_to_string-wire_example =
    pg_numeric_to_string-wire true (pos 0) 1 (1 ∷ 5000 ∷ []) (omega arith) (omega arith)
      (omega arith) (omega arith, (omega arith, tt))

minus_one_and_a_half :
    pg_numeric_to_string (numeric_wire true (pos 0) 1 (1 ∷ 5000 ∷ [])) ≡ some (codes "-1.5")
unfolding pg_numeric_to_string numeric_wire to_be_bytes pg_x.Base.Int.to_unsigned
minus_one_and_a_half = refl
