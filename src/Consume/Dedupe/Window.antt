-- ===== src/Consume/Dedupe/Window.antt =====
-- The time for which the cache of consumer/dedupe.rs remembers an id, over sequences of its calls.
use native.Mathlib.Nat.{le_refl}
use pg_x.Base.{
  ℕ, ◌-◌, ◌≤◌, ◌<◌, ◌≡◌, refl, ◌∙◌, some, List, [], ◌∷◌, true, false, if◌then◌else◌, arith, All,
}
use pg_x.Map
use pg_x.Map.{Map, text_eq, text_key, get-insert, get-remove, beq_refl, text_eq_iff}
use pg_x.Text.{Text}
use pg_x.Consume.Dedupe.{DedupCache, fresh, contains, record_id, retain, expire}

-- A call of the cache, at its time: by the session or by the sweeper.
pub data Call : Type 0 where
  lookup note : Text → Call
  sweep : Call

abbrev pub apply_call : ℕ × Call → DedupCache → DedupCache
apply_call (t, lookup id) c = (contains t id c).1
apply_call (t, note id) c = record_id t id c
apply_call (t, sweep) c = expire t c

abbrev pub apply_calls : List (ℕ × Call) → DedupCache → DedupCache
apply_calls [] c = c
apply_calls (x ∷ xs) c = apply_calls xs (apply_call x c)

-- The id is there, and seen no earlier than `since`.
pub record Remembers (since : ℕ) (id : Text) (ttl : ℕ) (c : DedupCache) : Type 0 where
  pub seen : ℕ
  pub entry : Map.get id c.entries ≡ some seen
  pub recent : since ≤ seen
  pub same_ttl : c.ttl ≡ ttl

get-retain-fresh :
    (now ttl seen : ℕ) (id : Text) (m : Map Text ℕ)
    → Map.get id m ≡ some seen
    → fresh now ttl seen ≡ true
    → Map.get id (retain now ttl m) ≡ some seen
unfolding Map.get retain
get-retain-fresh now ttl seen id [] e f = cc
get-retain-fresh now ttl seen id ((k, s) ∷ m) e f =
    ground (arith, get-retain-fresh now ttl seen id m, text_eq_iff k id)

module _ {since ttl : ℕ} {id : Text} where
  apply_call-Remembers :
      (t : ℕ) (k : Call) (c : DedupCache)
      → since ≤ t
      → t - since ≤ ttl
      → Remembers since id ttl c
      → Remembers since id ttl (apply_call (t, k) c)
  unfolding contains record_id expire
  apply_call-Remembers t (lookup j) c h l r = record {
    seen = r.seen;
    entry = ground (arith, get-remove j id c.entries, text_eq_iff j id);
    recent = r.recent;
    same_ttl = ground arith;
  }
  apply_call-Remembers t (note j) c h l r = record {
    seen = if text_eq j id then t else r.seen;
    entry = ground (arith, get-insert j id t c.entries);
    recent = ground arith;
    same_ttl = r.same_ttl;
  }
  apply_call-Remembers t sweep c h l r = record {
    seen = r.seen;
    entry = get-retain-fresh t c.ttl r.seen id c.entries r.entry (ground arith);
    recent = r.recent;
    same_ttl = r.same_ttl;
  }

  apply_calls-Remembers :
      (calls : List (ℕ × Call)) (c : DedupCache)
      → All (λ x. (since ≤ x.0) × (x.0 - since ≤ ttl)) calls
      → Remembers since id ttl c
      → Remembers since id ttl (apply_calls calls c)
  apply_calls-Remembers [] c h r = r
  apply_calls-Remembers ((t, k) ∷ calls) c h r =
      apply_calls-Remembers calls (apply_call (t, k) c) h.1
        (apply_call-Remembers t k c h.0.0 h.0.1 r)

  contains-Remembers :
      (t : ℕ) (c : DedupCache)
      → t - since ≤ ttl
      → Remembers since id ttl c
      → (contains t id c).0 ≡ true
  unfolding contains
  contains-Remembers t c h r = ground arith

-- An id that was recorded is reported as seen at every time within the TTL, whatever lookups, records
-- and sweeps (each within the TTL of the record) come in between.
pub contains-record_id :
    (since t : ℕ) (id : Text) (c : DedupCache) (calls : List (ℕ × Call))
    → All (λ x. (since ≤ x.0) × (x.0 - since ≤ c.ttl)) calls
    → t - since ≤ c.ttl
    → (contains t id (apply_calls calls (record_id since id c))).0 ≡ true
contains-record_id since t id c calls h l =
    let start : Remembers since id c.ttl (record_id since id c) =
      unfold record_id in
      record {
        seen = since;
        entry = get-insert id id since c.entries ∙ rw (beq_refl id);
        recent = le_refl since;
        same_ttl = refl;
      } in
    contains-Remembers t _ l (apply_calls-Remembers calls (record_id since id c) h start)

-- An id whose entry was recorded further back than the TTL is reported as not seen.
contains_expired :
    (t : ℕ) (id : Text) (c : DedupCache) {seen : ℕ}
    → Map.get id c.entries ≡ some seen
    → c.ttl < t - seen
    → (contains t id c).0 ≡ false
unfolding contains
contains_expired t id c e h = ground arith
