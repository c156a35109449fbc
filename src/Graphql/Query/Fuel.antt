-- ===== src/Graphql/Query/Fuel.antt =====
-- The fuel of `parse_fields` of graphql/query.rs is enough where it is more than the text is long.
use pg_x.Base.{
  ℕ, zero, suc, ◌+◌, ◌-◌, ◌<◌, ◌≤◌, ◌≡◌, refl, ap, inl, inr, Option-cases, [], ◌∷◌, ◌++◌, length,
  length-append, arith,
}
use pg_x.Text.{Text}
use pg_x.Text.Split.{split_once, trim}
use pg_x.Text.Split.Found.{split_once-lt}
use pg_x.Text.Split.Trimmed.{length-trim}
use pg_x.Graphql.Query.{
  FieldSelections, end, newline, until_close, parse_field_line, scan, parse_fields,
}

length-until_close : (depth : ℕ) (s : Text) → length (until_close depth s) ≤ length s
unfolding until_close
length-until_close depth [] = omega arith
length-until_close depth (c ∷ s) = ground (
  arith,
  length-until_close (depth + 1) s,
  length-until_close depth s,
  length-until_close (depth - 1) s,
)

module _ (n : ℕ) (f g : Text → FieldSelections)
    (agree : (t : Text) → length t < n → f t ≡ g t) where
  parse_field_line-agree :
      (text : Text) (rest : FieldSelections)
      → length text ≤ n
      → parse_field_line f text rest ≡ parse_field_line g text rest
  unfolding parse_field_line
  parse_field_line-agree text rest short = from (trim text) refl
    where
      from :
          (t : Text) → trim text ≡ t → parse_field_line f text rest ≡ parse_field_line g text rest
      from [] e = rw (parse_field_line, e) refl
      from (c ∷ cs) e = elim (Option-cases (split_once b'{' (c ∷ cs))) [
        | inl flat ↦ rw (parse_field_line, e, flat) refl
        | inr ((before, behind), there) ↦
            let shorter : length (trim (until_close 1 behind)) < n = omega (
              arith,
              length-trim text,
              ap (length {A = ℕ}) e,
              split_once-lt b'{' (c ∷ cs) before behind there,
              length-trim (until_close 1 behind),
              length-until_close 1 behind,
            ) in
            rw (parse_field_line, e, there, agree (trim (until_close 1 behind)) shorter) refl
      ]

  scan-agree :
      (depth : ℕ) (current s : Text)
      → length current + length s ≤ n
      → scan f depth current s ≡ scan g depth current s
  unfolding scan
  scan-agree depth current [] short =
      let last = parse_field_line-agree (trim current) end (omega (arith, length-trim current)) in
      ground (arith, last)
  scan-agree depth current (c ∷ s) short =
      let grown = length-append current (c ∷ []) in
      let joined = length-append current (newline ∷ []) in
      let behind = scan-agree 0 [] s (omega arith) in
      ground (
        arith,
        scan-agree (depth + 1) (current ++ c ∷ []) s (omega arith),
        scan-agree (depth - 1) (current ++ c ∷ []) s (omega arith),
        scan-agree depth (current ++ newline ∷ []) s (omega arith),
        scan-agree depth (current ++ c ∷ []) s (omega arith),
        parse_field_line-agree (trim current) end (omega (arith, length-trim current)),
        parse_field_line-agree (trim current) (scan f 0 [] s) (omega (arith, length-trim current)),
        behind,
      )

-- Any two amounts of fuel above the text's length give the same fields.
parse_fields-same :
    (fuel fuel' : ℕ) (content : Text)
    → length content < fuel
    → length content < fuel'
    → parse_fields fuel content ≡ parse_fields fuel' content
unfolding parse_fields
parse_fields-same zero fuel' content h k = absurd (omega arith)
parse_fields-same (suc fuel) zero content h k = absurd (omega arith)
parse_fields-same (suc fuel) (suc fuel') content h k =
    scan-agree (length content) (parse_fields fuel) (parse_fields fuel')
      (λ t shorter. parse_fields-same fuel fuel' t (omega arith) (omega arith)) 0 [] content
      (omega arith)
