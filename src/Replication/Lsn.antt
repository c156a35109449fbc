-- ===== src/Replication/Lsn.antt =====
-- replication/lsn.rs: positions in the write-ahead log. An `Lsn` is its `u64`.
pub mod RoundTrip
use Prim.Native.Nat.{bit_or}
use pg_x.Base.{ℕ, ◌*◌, ◌/◌, ◌%◌, ◌^◌, Bool, ◌∷◌, ◌++◌, ◌==◌, Result, ok, ok_or, ◌>>=◌}
use pg_x.Text.{Text}
use pg_x.Text.Number.{print_hex, from_str_radix}
use pg_x.Text.Split.{split_once}
use pg_x.Word.{u32_mod, u64_mod}

abbrev pub Lsn : Type 0
Lsn = ℕ

pub data LsnError : Type 0 where
  missing_slash bad_high bad_low : LsnError

-- `from_str` is the same function.
unfoldable pub parse : Text → Result LsnError Lsn
unfolding split_once from_str_radix
parse s = do
  parts ← ok_or (split_once b'/' s) missing_slash
  hi ← ok_or (from_str_radix u64_mod 16 parts.0) bad_high
  lo ← ok_or (from_str_radix u64_mod 16 parts.1) bad_low
  ok (bit_or (hi * 2 ^ 32 % u64_mod) lo)

-- `Display`.
unfoldable pub to_text : Lsn → Text
to_text l = print_hex (l / 2 ^ 32 % u32_mod) ++ (b'/' ∷ print_hex (l % 2 ^ 32))

unfoldable pub is_zero : Lsn → Bool
is_zero l = l == 0
