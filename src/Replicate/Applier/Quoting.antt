-- ===== src/Replicate/Applier/Quoting.antt =====
-- The quotes that commands/replicate/applier.rs puts round names and literals, against SQL's rule for
-- reading them.
use mathlib.Core.List.{append_assoc}
use pg_x.Base.{
  ℕ, ◌≡◌, ◌≢◌, refl, sym, ap, inl, inr, Bool-cases, Option, none, some, [], ◌∷◌, ◌++◌, Bool, true,
  false, ◌==◌, if◌then◌else◌, arith, ==_iff,
}
use pg_x.Text.{Text}
use pg_x.Replicate.Applier.Sql.{escape, quote_ident, quote_literal}

abbrev pub prepend : ℕ → Option (Text × Text) → Option (Text × Text)
prepend c none = none
prepend c (some (s, rest)) = some (c ∷ s, rest)

-- SQL's rule behind an opening quote: a doubled quote is one character of the text, a single one
-- ends it. The flag says that a quote was just read. The result is the text, and what follows it.
abbrev pub read_body : ℕ → Bool → Text → Option (Text × Text)
read_body q false [] = none
read_body q true [] = some ([], [])
read_body q false (c ∷ cs) =
    let inside = read_body q false cs in
    let closing = read_body q true cs in if c == q then closing else prepend c inside
read_body q true (c ∷ cs) =
    let inside = read_body q false cs in if c == q then prepend q inside else some ([], c ∷ cs)

abbrev pub read_quoted : ℕ → Text → Option (Text × Text)
read_quoted q [] = none
read_quoted q (c ∷ cs) = if c == q then read_body q false cs else none

-- What follows does not begin with the quote.
abbrev pub Separate : ℕ → Text → Type 0
Separate q [] = Unit
Separate q (c ∷ cs) = c ≢ q

read_body-quote : (q : ℕ) (rest : Text) → Separate q rest → read_body q true rest ≡ some ([], rest)
read_body-quote q [] h = refl
read_body-quote q (c ∷ cs) h = ground (arith, h)

read_body-doubled :
    (q : ℕ) (t : Text) → read_body q false (q ∷ q ∷ t) ≡ prepend q (read_body q false t)
read_body-doubled q t = rw ((==_iff q q).1 refl) refl

read_body_other :
    (q c : ℕ) (t : Text)
    → (c == q) ≡ false
    → read_body q false (c ∷ t) ≡ prepend c (read_body q false t)
read_body_other q c t h = rw h refl

escape_same : (q c : ℕ) (s : Text) → (c == q) ≡ true → escape q (c ∷ s) ≡ q ∷ q ∷ escape q s
unfolding escape
escape_same q c s h = rw h refl

escape_other : (q c : ℕ) (s : Text) → (c == q) ≡ false → escape q (c ∷ s) ≡ c ∷ escape q s
unfolding escape
escape_other q c s h = rw h refl

read_body-escape :
    (q : ℕ) (s rest : Text)
    → Separate q rest
    → read_body q false (escape q s ++ q ∷ rest) ≡ some (s, rest)
unfolding escape
read_body-escape q [] rest h = ground (arith, read_body-quote q rest h)
read_body-escape q (c ∷ s) rest h = elim (Bool-cases (c == q)) [
  | inl e ↦
      rw
        (
          escape_same q c s e,
          read_body-doubled q (escape q s ++ q ∷ rest),
          read_body-escape q s rest h,
        )
        (ap (λ x. some (x ∷ s, rest)) (sym ((==_iff c q).0 e)))
  | inr e ↦
      rw
        (
          escape_other q c s e,
          read_body_other q c (escape q s ++ q ∷ rest) e,
          read_body-escape q s rest h,
        )
        refl
]

-- A quoted name is read back whole, and then a quoted literal is too, whatever they hold: no text
-- can end its own quotes, where what follows does not begin with a quote.
pub read_quoted-quote :
    (s rest : Text)
    → Separate b'"' rest
    → Separate b'\'' rest
    → (read_quoted b'"' (quote_ident s ++ rest) ≡ some (s, rest))
      × (read_quoted b'\'' (quote_literal s ++ rest) ≡ some (s, rest))
unfolding quote_ident quote_literal
read_quoted-quote s rest h k = (
  rw append_assoc (read_body-escape b'"' s rest h),
  rw append_assoc (read_body-escape b'\'' s rest k),
)
