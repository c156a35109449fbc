-- ===== src/Consume/Dedupe.antt =====
-- consumer/dedupe.rs: the set of recently seen message ids. Times are numbers, read by the caller;
-- `elapsed` stops at 0.
pub mod Window
use pg_x.Base.{ℕ, ◌-◌, Option, none, some, [], ◌∷◌, Bool, true, false, leb, if◌then◌else◌}
use pg_x.Map
use pg_x.Map.{Map, text_eq, text_key}
use pg_x.Text.{Text}

pub record DedupCache : Type 0 where
  pub ttl : ℕ
  pub entries : Map Text ℕ

abbrev pub fresh : ℕ → ℕ → ℕ → Bool
fresh now ttl seen = leb (now - seen) ttl

drop_stale : Text → DedupCache → Option Bool → Bool × DedupCache
drop_stale id c none = (false, c)
drop_stale id c (some true) = (true, c)
drop_stale id c (some false) = (false, record c { entries = Map.remove id c.entries })

seen_fresh : ℕ → ℕ → Option ℕ → Option Bool
seen_fresh now ttl none = none
seen_fresh now ttl (some seen) = some (fresh now ttl seen)

unfoldable pub contains : ℕ → Text → DedupCache → Bool × DedupCache
unfolding drop_stale seen_fresh
contains now id c = drop_stale id c (seen_fresh now c.ttl (Map.get id c.entries))

-- `record`
unfoldable pub record_id : ℕ → Text → DedupCache → DedupCache
record_id now id c = record c { entries = Map.insert id now c.entries }

retain : ℕ → ℕ → Map Text ℕ → Map Text ℕ
retain now ttl [] = []
retain now ttl ((id, seen) ∷ m) =
    let rest = retain now ttl m in if fresh now ttl seen then (id, seen) ∷ rest else rest

unfoldable pub expire : ℕ → DedupCache → DedupCache
unfolding retain
expire now c = record c { entries = retain now c.ttl c.entries }
