-- ===== src/Replication/Decoder/Keeps.antt =====
-- What holds of whatever a reader of replication/decoder.rs that may write the cache comes to: where it
-- returns, as for the readers that may not, with a condition on the value and the cache that it leaves;
-- where it fails, the cache is as it was.
use native.Mathlib.Nat.{le_refl}
use pg_x.Base.{◌≤◌, ◌≡◌, refl, Bool, true, false, if◌then◌else◌, length, Result, ok, err}
use pg_x.Replication.Decoder.Buf.{Buf, Reader, DecodeError}
use pg_x.Replication.Decoder.Caching.{
  Caching, ◌>>=◌, ◌>>◌, on_read, borrowing, reading, modify, give,
}
use pg_x.Replication.Decoder.Yields.{Any, Forward, Forward-trans, Yields}

module _ {C : Type 0} (cache : C) where
  abbrev pub Outcome :
      {A : Type 0} → Buf → (A → C → Type 0) → Result DecodeError (A × Buf) × C → Type 0
  Outcome b P (ok (v, b'), cache') = P v cache' × Forward b b'
  Outcome b P (err e, cache') = cache' ≡ cache

  pub record Keeps {A : Type 0} (P : A → C → Type 0) (m : Caching C A) : Type 0 where
    pub at : (b : Buf) → b.pos ≤ length b.bytes → Outcome b P (m cache b)

  extend :
      {A : Type 0} (P : A → C → Type 0) {b c : Buf} (r : Result DecodeError (A × Buf) × C)
      → Forward b c
      → Outcome c P r
      → Outcome b P r
  extend P (ok (v, b'), cache') f (p, g) = (p, Forward-trans f g)
  extend P (err e, cache') f h = h

  borrowed :
      {A : Type 0} (P : A → C → Type 0) (b : Buf) (m : Reader A) (r : Result DecodeError (A × Buf))
      → b.pos ≤ length b.bytes
      → Yields (λ v. P v cache) m
      → m b ≡ r
      → Outcome b P (r, cache)
  borrowed P b m (ok (v, b')) w y e = y.at b w v b' e
  borrowed P b m (err x) w y e = refl

  pub borrowing-Keeps :
      {A : Type 0} (P : A → C → Type 0) (f : C → Reader A)
      → Yields (λ v. P v cache) (f cache)
      → Keeps P (borrowing f)
  unfolding borrowing
  borrowing-Keeps P f y = record { at = λ b w. borrowed P b (f cache) (f cache b) w y refl }

  behind :
      {A B : Type 0} (P : B → C → Type 0) (b : Buf) (m : Reader A) (f : A → Caching C B)
      (r : Result DecodeError (A × Buf))
      → b.pos ≤ length b.bytes
      → Yields Any m
      → ((a : A) → Keeps P (f a))
      → m b ≡ r
      → Outcome b P (on_read (r, cache) f)
  behind P b m f (ok (a, c)) w y k e =
      let (_, forward) = y.at b w a c e in
      extend P (f a cache c) forward ((k a).at c (rw forward.same_bytes forward.within))
  behind P b m f (err x) w y k e = refl

  pub bind-Keeps :
      {A B : Type 0} (P : B → C → Type 0) (m : Reader A) (f : A → Caching C B)
      → Yields Any m
      → ((a : A) → Keeps P (f a))
      → Keeps P (reading m >>= f)
  unfolding ◌>>=◌ reading
  bind-Keeps P m f y k = record { at = λ b w. behind P b m f (m b) w y k refl }

  -- The cache is written behind the last reader.
  pub modify-Keeps :
      {A : Type 0} (P : A → C → Type 0) (g : C → C) (v : A)
      → P v (g cache)
      → Keeps P (modify g >> give v)
  unfolding ◌>>=◌ modify give
  modify-Keeps P g v p = record {
    at = λ b w. (p, record { same_bytes = refl; no_return = le_refl _; within = w });
  }

  pub give-Keeps : {A : Type 0} (P : A → C → Type 0) (v : A) → P v cache → Keeps P (give v)
  unfolding give
  give-Keeps P v p = record {
    at = λ b w. (p, record { same_bytes = refl; no_return = le_refl _; within = w });
  }

  pub if-Keeps :
      {A : Type 0} (P : A → C → Type 0) (c : Bool) (m n : Caching C A)
      → Keeps P m
      → Keeps P n
      → Keeps P (if c then m else n)
  if-Keeps P true m n y z = y
  if-Keeps P false m n y z = z

  pub fail-Keeps :
      {A : Type 0} (P : A → C → Type 0) (m : Reader A)
      → Yields (λ v. P v cache) m
      → Keeps P (reading m)
  unfolding reading
  fail-Keeps P m y = record { at = λ b w. borrowed P b m (m b) w y refl }
