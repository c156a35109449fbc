-- ===== src/Replication/Scram/Escape.antt =====
-- The escaping of user names in scram.rs.
use pg_x.Base.{
  ℕ, ◌≡◌, ◌≢◌, refl, sym, ap, ◌∙◌, inl, inr, Bool-cases, false, [], ◌∷◌, ◌==◌, if◌then◌else◌, All,
  arith,
}
use pg_x.Text.{Text}
use pg_x.Replication.Scram.{sasl_escape}

-- RFC 5802's reading of a `saslname`.
unfoldable unescape : Text → Text
unescape [] = []
unescape (c ∷ []) = c ∷ []
unescape (c ∷ a ∷ []) = c ∷ a ∷ []
unescape (c ∷ a ∷ b ∷ s) =
    let behind = unescape s in
    let next = unescape (a ∷ b ∷ s) in
    if c == b'=' then (if b == b'D' then b'=' else b',') ∷ behind else c ∷ next

unescape-plain : (c : ℕ) (s : Text) → (c == b'=') ≡ false → unescape (c ∷ s) ≡ c ∷ unescape s
unfolding unescape
unescape-plain c [] h = refl
unescape-plain c (a ∷ []) h = refl
unescape-plain c (a ∷ b ∷ s) h = rw h refl

unescape-escaped : (u : Text) → unescape (sasl_escape u) ≡ u
unfolding sasl_escape unescape
unescape-escaped [] = refl
unescape-escaped (c ∷ u) = elim (Bool-cases (c == b'=')) [
  | inl e ↦
      let same : c ≡ b'=' = ground arith in rw (e, unescape-escaped u) (ap (λ x. x ∷ u) (sym same))
  | inr e ↦ elim (Bool-cases (c == b',')) [
    | inl e' ↦
        let same : c ≡ b',' = ground arith in
        rw (e, e', unescape-escaped u) (ap (λ x. x ∷ u) (sym same))
    | inr e' ↦
        rw (e, e') (unescape-plain c (sasl_escape u) e ∙ ap (λ s. c ∷ s) (unescape-escaped u))
  ]
]

no_comma : (u : Text) → All (λ c. c ≢ b',') (sasl_escape u)
unfolding sasl_escape
no_comma [] = tt
no_comma (c ∷ u) = elim (Bool-cases (c == b'=')) [
  | inl e ↦ rw e (omega arith, (omega arith, (omega arith, no_comma u)))
  | inr e ↦ elim (Bool-cases (c == b',')) [
    | inl e' ↦ rw (e, e') (omega arith, (omega arith, (omega arith, no_comma u)))
    | inr e' ↦ rw (e, e') (ground arith, no_comma u)
  ]
]

-- An escaped name holds no comma, which would end the attribute, and RFC 5802 reads it back.
sasl_escape_lem : (u : Text) → All (λ c. c ≢ b',') (sasl_escape u) × (unescape (sasl_escape u) ≡ u)
sasl_escape_lem u = (no_comma u, unescape-escaped u)
