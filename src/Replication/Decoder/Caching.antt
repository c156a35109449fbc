-- ===== src/Replication/Decoder/Caching.antt =====
-- Readers of replication/decoder.rs that get `&mut RelationCache`: what was written to the cache stays
-- written after an error too.
use pg_x.Base.{Result, ok, err}
use pg_x.Replication.Decoder.Buf.{Buf, DecodeError, Reader}

abbrev pub Caching : Type 0 → Type 0 → Type 0
Caching C A = C → Buf → Result DecodeError (A × Buf) × C

abbrev pub on_read :
    {C A B : Type 0}
    → Result DecodeError (A × Buf) × C
    → (A → Caching C B)
    → Result DecodeError (B × Buf) × C
on_read (ok (a, b), cache) f = f a cache b
on_read (err e, cache) f = (err e, cache)

infixl 5 ◌>>=◌ ◌>>◌
unfoldable pub ◌>>=◌ : {C A B : Type 0} → Caching C A → (A → Caching C B) → Caching C B
◌>>=◌ m f cache b = on_read (m cache b) f

abbrev pub ◌>>◌ : {C A B : Type 0} → Caching C A → Caching C B → Caching C B
m >> k = m >>= λ _. k

-- A reader that gets `&RelationCache`, and one that gets no cache.
unfoldable pub borrowing : {C A : Type 0} → (C → Reader A) → Caching C A
borrowing f cache b = (f cache b, cache)

unfoldable pub reading : {C A : Type 0} → Reader A → Caching C A
reading m cache b = (m b, cache)

unfoldable pub modify : {C : Type 0} → (C → C) → Caching C (Unit {0})
modify g cache b = (ok (tt, b), g cache)

unfoldable pub give : {C A : Type 0} → A → Caching C A
give a cache b = (ok (a, b), cache)
