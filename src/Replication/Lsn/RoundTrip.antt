-- ===== src/Replication/Lsn/RoundTrip.antt =====
-- Printing an `Lsn` and parsing it, of replication/lsn.rs.
use Prim.Native.Nat.{bit_or}
use pg_x.Base.{
  ◌*◌, ◌/◌, ◌%◌, ◌^◌, ◌<◌, ◌≡◌, ◌∙◌, ap, refl, some, [], ◌∷◌, ◌++◌, arith, ◌==◌, All, ok,
  Bool-cases, inl, inr, ==_iff,
}
use pg_x.Text.{Text}
use pg_x.Text.Number.{print_hex}
use pg_x.Text.Number.RoundTrip.{IsHex, print_hex-IsHex, from_str_radix-print_hex}
use pg_x.Text.Split.{split_once}
use pg_x.Word.{u32_mod, u64_mod}
use pg_x.Word.Bits.{bit_or-shifted}
use pg_x.Replication.Lsn.{Lsn, parse, to_text}

split_once-append : (a b : Text) → All IsHex a → split_once b'/' (a ++ (b'/' ∷ b)) ≡ some (a, b)
unfolding split_once
split_once-append [] b h = refl
split_once-append (c ∷ a) b h = elim (Bool-cases (c == b'/')) [
  | inl e ↦ absurd (h.0.ne_slash ((==_iff c b'/').0 e))
  | inr e ↦ rw (e, split_once-append a b h.1)
]

-- The two halves, joined as `parse` joins them.
joined : (l : Lsn) → l < u64_mod → bit_or (l / 2 ^ 32 % u32_mod * 2 ^ 32 % u64_mod) (l % 2 ^ 32) ≡ l
joined l h =
    let high : l / 2 ^ 32 % u32_mod * 2 ^ 32 % u64_mod ≡ l / 2 ^ 32 * 2 ^ 32 = omega arith in
    rw high (bit_or-shifted 32 (l / 2 ^ 32) (l % 2 ^ 32) (omega arith) ∙ omega arith)

-- Every `u64` that is printed as an LSN is parsed back to itself.
pub parse-to_text : (l : Lsn) → l < u64_mod → parse (to_text l) ≡ ok l
unfolding parse to_text
parse-to_text l h =
    rw
      (
        split_once-append (print_hex (l / 2 ^ 32 % u32_mod)) (print_hex (l % 2 ^ 32))
            (print_hex-IsHex _),
        from_str_radix-print_hex u64_mod (l / 2 ^ 32 % u32_mod) (omega arith),
        from_str_radix-print_hex u64_mod (l % 2 ^ 32) (omega arith),
      )
      (ap ok (joined l h))
