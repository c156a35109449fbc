-- ===== src/Tests/Wire.antt =====
-- The wire protocol of replication/ on buffers that are lists of bytes.
use pg_x.Base.{
  ℕ, zero, suc, ◌+◌, ◌≤◌, ◌≡◌, refl, ap, ◌∙◌, inl, inr, Bool-cases, [], ◌∷◌, ◌++◌, true, false, ltb,
  if◌then◌else◌, length, take, drop, take-append, drop-append, length-append, ok, err, arith,
}
use pg_x.Base.Int.{pos, negsuc, to_signed, to_unsigned}
use pg_x.Text.{Bytes, codes}
use pg_x.Word.{from_be_bytes, to_be_bytes, u32_mod, u64_mod}
use pg_x.Replication.Error.{io, protocol, truncated_i64, xlog_data_too_short}
use pg_x.Replication.BytesCrate.{BytesCrate, BytesRules}
use pg_x.Replication.Framing.{Connection, copy_data, read_backend_message, query_message}
use pg_x.Replication.Framing.Bounds.{Exact}
use pg_x.Replication.Framing.RoundTrip.{ReadRules, read_backend_message-copy_data}
use pg_x.Replication.Proto.{
  xlog_data, parse_copy_data, parse_pgoutput_boundary, encode_standby_status_update,
}
use pg_x.Replication.Proto.RoundTrip.{copy_data_wire, parse_copy_data-wire}

abbrev pub bytes_crate : BytesCrate
bytes_crate = record {
  get_u8 = λ b. elim b [ [] ↦ (0, []) | x ∷ rest ↦ (x, rest) ];
  get_i32 = λ b. (to_signed u32_mod (from_be_bytes (take 4 b)), drop 4 b);
  get_i64 = λ b. (to_signed u64_mod (from_be_bytes (take 8 b)), drop 8 b);
  copy_to_bytes = λ n b. (take n b, drop n b);
  put_u8 = λ x b. b ++ x ∷ [];
  put_i32 = λ z b. b ++ to_be_bytes 4 (to_unsigned u32_mod z);
}

taken : (n : ℕ) (word rest : Bytes) → length word ≡ n → take n (word ++ rest) ≡ word
taken n word rest len = let e = take-append word rest in rw len at e

dropped : (n : ℕ) (word rest : Bytes) → length word ≡ n → drop n (word ++ rest) ≡ rest
dropped n word rest len = let e = drop-append word rest in rw len at e

pub bytes_rules : BytesRules bytes_crate
bytes_rules = record {
  get_u8_rule = λ b rest. refl;
  get_i32_rule = λ word rest len. rw (taken 4 word rest len, dropped 4 word rest len) refl;
  get_i64_rule = λ word rest len. rw (taken 8 word rest len, dropped 8 word rest len) refl;
  copy_to_bytes_rule = λ first rest.
      rw (taken (length first) first rest refl, dropped (length first) first rest refl) refl;
  put_u8_rule = λ b bs. refl;
  put_i32_rule = λ z bs. refl;
}

-- A connection whose far end has sent some bytes, and keeps nothing of what it gets.
abbrev pipe : Connection
pipe = record {
  S = Bytes;
  read_exact = λ n s. if ltb (length s) n then err io else ok (take n s, drop n s);
  write_all = λ frame s. ok s;
  flush = λ s. ok s;
}

parse_copy_data-wire_example :
    parse_copy_data bytes_crate (copy_data_wire (xlog_data 10 20 (negsuc 4) (codes "I")))
    ≡ ok (xlog_data 10 20 (negsuc 4) (codes "I"))
parse_copy_data-wire_example =
    parse_copy_data-wire bytes_crate bytes_rules (xlog_data 10 20 (negsuc 4) (codes "I"))
      (omega arith, omega arith, omega arith)

length-take : (n : ℕ) (s : Bytes) → n ≤ length s → length (take n s) ≡ n
length-take zero s h = refl
length-take (suc n) [] h = absurd (omega arith)
length-take (suc n) (x ∷ s) h = ap suc (length-take n s (omega arith))

pipe-Exact : Exact pipe
pipe-Exact n s s' bs e = elim (Bool-cases (ltb (length s) n)) [
  | inl short ↦ absurd (let g = rw short at e in cc)
  | inr long ↦
      let g = rw long at e in
      let same : bs ≡ take n s = cc in ap length same ∙ length-take n s (ground arith)
]

abbrev pipe_reads : ReadRules pipe
pipe_reads = record {
  pending = λ s. s;
  read_exact_rule = λ bs rest s e.
      let long : ltb (length s) (length bs) ≡ false =
        (let l : length s ≡ length bs + length rest = ap length e ∙ length-append bs rest in
          ground arith) in
      (
        rest,
        rw long (
            let t : take (length bs) s ≡ bs = ap (take (length bs)) e ∙ take-append bs rest in
            let d : drop (length bs) s ≡ rest = ap (drop (length bs)) e ∙ drop-append bs rest in
            rw (t, d) refl),
        refl,
      );
}

-- A ReadyForQuery.
abbrev ready : Bytes
ready = b'Z' ∷ 0 ∷ 0 ∷ 0 ∷ 5 ∷ b'I' ∷ []

read_backend_message-copy_data_example :
    (s' : Bytes) × (read_backend_message pipe (copy_data bytes_crate (codes "abc") ++ ready)
      ≡ ok (record { tag = b'd'; payload = codes "abc" }, s'))
    × (s' ≡ ready)
read_backend_message-copy_data_example =
    read_backend_message-copy_data pipe pipe_reads bytes_crate (codes "abc") ready
      (copy_data bytes_crate (codes "abc") ++ ready) bytes_rules (omega arith) refl

truncated : parse_pgoutput_boundary (b'B' ∷ 0 ∷ []) ≡ err (protocol truncated_i64)
unfolding parse_pgoutput_boundary
truncated = refl

too_short : parse_copy_data bytes_crate (b'w' ∷ 0 ∷ []) ≡ err (protocol (xlog_data_too_short 1))
unfolding parse_copy_data
too_short = refl

status_length : length (encode_standby_status_update 0xabcd (pos 1000000) true) ≡ 34
unfolding encode_standby_status_update to_be_bytes
status_length = refl

query_frame : query_message bytes_crate (codes "x") ≡ b'Q' ∷ 0 ∷ 0 ∷ 0 ∷ 6 ∷ b'x' ∷ 0 ∷ []
unfolding query_message to_be_bytes to_unsigned
query_frame = refl
