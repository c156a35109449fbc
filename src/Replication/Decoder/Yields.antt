-- ===== src/Replication/Decoder/Yields.antt =====
-- What holds of whatever a reader returns: it stays inside its buffer, never goes back, and its
-- value meets a condition.
use native.Mathlib.Nat.{le_refl}
use mathlib.Core.Path.{subst}
use pg_x.Base.{
  ◌∙◌, ap, ℕ, ◌≤◌, ◌≡◌, refl, Bool, true, false, arith, if◌then◌else◌, length, Result, ok, err,
}
use pg_x.Replication.Decoder.Buf.{
  Buf, Reader, DecodeError, read_u8, read_u16, read_u32, read_i32, read_bytes, read_cstring,
}
use pg_x.Replication.Decoder.Reader.{pure, fail, continue, ◌>>=◌}

-- `b'` is `b`, read further by no more than its bytes.
pub record Forward (b b' : Buf) : Type 0 where
  pub same_bytes : b'.bytes ≡ b.bytes
  pub no_return : b.pos ≤ b'.pos
  pub within : b'.pos ≤ length b.bytes

pub record Yields {A : Type 0} (P : A → Type 0) (m : Reader A) : Type 0 where
  pub at :
      (b : Buf)
      → b.pos ≤ length b.bytes
      → (v : A) (b' : Buf) → m b ≡ ok (v, b')
      → P v × Forward b b'

ok-injective :
    {A : Type 0} {a v : A} {b b' : Buf}
    → ◌≡◌ {A = Result DecodeError (A × Buf)} (ok (a, b)) (ok (v, b'))
    → (a ≡ v) × (b ≡ b')
ok-injective {A} {a} {v} {b} {b'} e = (cc, cc)

continue-eq-ok :
    {A B : Type 0} (r : Result DecodeError (A × Buf)) (f : A → Reader B) {v : B} {b' : Buf}
    → continue r f ≡ ok (v, b')
    → (a : A) × (c : Buf) × (r ≡ ok (a, c)) × (f a c ≡ ok (v, b'))
continue-eq-ok (ok (a, c)) f e = (a, c, refl, e)
continue-eq-ok (err x) f e = cc

pub Forward-trans : {a b c : Buf} → Forward a b → Forward b c → Forward a c
Forward-trans {a} {b} {c} p q = record {
  same_bytes = q.same_bytes ∙ p.same_bytes;
  no_return = omega arith;
  within = omega (arith, ap length p.same_bytes);
}

-- No condition on the value.
abbrev pub Any : {A : Type 0} → A → Type 0
Any v = Unit

module _ {A : Type 0} where
  pub Yields-pure : {P : A → Type 0} (a : A) → P a → Yields P (pure a)
  unfolding pure
  Yields-pure {P} a p = record {
    at = λ b w v b' e.
        let (q, r) = ok-injective e in
        (
          subst P q p,
          subst (Forward b) r (record { same_bytes = refl; no_return = le_refl _; within = w }),
        );
  }

  pub Yields-fail : {P : A → Type 0} (e : DecodeError) → Yields P (fail e)
  unfolding fail
  Yields-fail x = record { at = λ b w v b' e. cc }

  pub Yields-if :
      {P : A → Type 0} (c : Bool) (m n : Reader A)
      → Yields P m
      → Yields P n
      → Yields P (if c then m else n)
  Yields-if true m n y z = y
  Yields-if false m n y z = z

pub Yields-bind :
    {A B : Type 0} {P : B → Type 0} (m : Reader A) (f : A → Reader B)
    → Yields Any m
    → ((a : A) → Yields P (f a))
    → Yields P (m >>= f)
unfolding ◌>>=◌
Yields-bind m f ym yf = record {
  at = λ b w v b' e.
      let (a, c, em, ef) = continue-eq-ok (m b) f e in
      let (tt', fm) = ym.at b w a c em in
      let (p, ff) = (yf a).at c (rw fm.same_bytes fm.within) v b' ef in (p, Forward-trans fm ff);
}

pub read_u8-Yields : Yields Any read_u8
unfolding read_u8
read_u8-Yields = record { at = λ b w v b' e. ground arith }

pub read_u16-Yields : Yields Any read_u16
unfolding read_u16
read_u16-Yields = record { at = λ b w v b' e. ground arith }

pub read_u32-Yields : Yields Any read_u32
unfolding read_u32
read_u32-Yields = record { at = λ b w v b' e. ground arith }

pub read_i32-Yields : Yields Any read_i32
unfolding read_i32
read_i32-Yields = record { at = λ b w v b' e. ground arith }

pub read_bytes-Yields : (n : ℕ) → Yields Any (read_bytes n)
unfolding read_bytes
read_bytes-Yields n = record { at = λ b w v b' e. ground arith }

pub read_cstring-Yields : Yields Any read_cstring
unfolding read_cstring
read_cstring-Yields = record { at = λ b w v b' e. ground arith }
