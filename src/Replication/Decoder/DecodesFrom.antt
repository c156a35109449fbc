-- ===== src/Replication/Decoder/DecodesFrom.antt =====
-- What it means that a reader of replication/decoder.rs that may write the cache reads an encoding.
use mathlib.Core.List.{append_assoc}
use pg_x.Base.{◌≡◌, ap, ◌∙◌, ◌++◌, length, ok}
use pg_x.Text.{Bytes}
use pg_x.Replication.Decoder.Buf.{Buf, Reader, advance}
use pg_x.Replication.Decoder.Caching.{Caching, ◌>>=◌, on_read, borrowing, reading}
use pg_x.Replication.Decoder.Decodes.{Stands, Stands-advance, advance-append, Decodes}

-- The cache that it leaves stands beside the value.
pub record DecodesFrom {C A : Type 0} (m : Caching C A) (cache : C) (e : Bytes) (v : A) (cache' : C)
    : Type 0 where
  pub at :
      (b : Buf) (rest : Bytes)
      → Stands b (e ++ rest)
      → m cache b ≡ (ok (v, advance (length e) b), cache')

module _ {C A : Type 0} where
  pub DecodesFrom-borrowing :
      {cache : C} {e : Bytes} {v : A} (f : C → Reader A)
      → Decodes (f cache) e v
      → DecodesFrom (borrowing f) cache e v cache
  unfolding borrowing
  DecodesFrom-borrowing {cache} f d = record {
    at = λ b rest s. ap (λ r. (r, cache)) (d.at b rest s);
  }

  pub DecodesFrom-bind :
      {B : Type 0} {cache cache' : C} {m : Reader A} {e : Bytes} {v : A} (f : A → Caching C B)
      {e' : Bytes} {w : B}
      → Decodes m e v
      → DecodesFrom (f v) cache e' w cache'
      → DecodesFrom (reading m >>= f) cache (e ++ e') w cache'
  unfolding ◌>>=◌ reading
  DecodesFrom-bind {B} {cache} {cache'} {m} {e} {v} f {e'} {w} dm df = record {
    at = λ b rest s.
        let s' = rw append_assoc at s in
        ap (λ r. on_read (r, cache) f) (dm.at b (e' ++ rest) s')
        ∙ df.at (advance (length e) b) rest (Stands-advance b e (e' ++ rest) s')
        ∙ ap (λ c. (ok (w, c), cache')) (advance-append b e e');
  }

  -- A last reader, behind which nothing is read.
  pub DecodesFrom-last :
      {B : Type 0} {cache cache' : C} {m : Reader A} {e : Bytes} {v : A} (f : A → Caching C B)
      {w : B}
      → Decodes m e v
      → ((b : Buf) → f v cache b ≡ (ok (w, b), cache'))
      → DecodesFrom (reading m >>= f) cache e w cache'
  unfolding ◌>>=◌ reading
  DecodesFrom-last {B} {cache} {cache'} {m} {e} {v} f {w} dm h = record {
    at = λ b rest s. ap (λ r. on_read (r, cache) f) (dm.at b rest s) ∙ h (advance (length e) b);
  }
