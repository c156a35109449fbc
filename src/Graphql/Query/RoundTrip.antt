-- ===== src/Graphql/Query/RoundTrip.antt =====
-- Printed selection sets and queries are read back by graphql/query.rs.
use mathlib.Core.List.{append_assoc, append-nil}
use pg_x.Base.{
  ℕ, zero, suc, ◌<◌, ◌==◌, ◌≡◌, ◌≢◌, refl, sym, ap, ◌∙◌, some, none, [], ◌∷◌, ◌++◌, Bool, true,
  false, All, length, arith,
}
use pg_x.Text.{Text}
use pg_x.Text.Split.{split_once, trim}
use pg_x.Text.Split.Found.{split_once_absent, split_once_found}
use pg_x.Text.Split.Trimmed.{StartsPlain, trim_lem, trim-nil}
use pg_x.Graphql.Query.{
  FieldSelections, end, field, newline, until_close, parse_field_line, scan, parse_fields,
}
use pg_x.Graphql.Query.Print.{
  IsInside, IsFieldName, IsPrintable, line, print, print_more, line-StartsPlain, line-EndsPlain,
  length-print, print-StartsPlain, print-EndsPlain,
}
use pg_x.Graphql.Query.Balanced.{until_close-Balanced, scan_inside, scan-Balanced, print-Balanced}

no_brace : (t : Text) → All IsInside t → All (λ c. c ≢ b'{') t
no_brace [] h = tt
no_brace (c ∷ t) ((o, s, n, r), h) = (o, no_brace t h)

trim-line :
    (name body : Text) (is_leaf : Bool)
    → IsFieldName name
    → trim (line name is_leaf body) ≡ line name is_leaf body
trim-line name body is_leaf h =
    trim_lem (line name is_leaf body) (line-StartsPlain name body is_leaf h)
      (line-EndsPlain name body is_leaf h)

trim-print : (fields : FieldSelections) → IsPrintable fields → trim (print fields) ≡ print fields
unfolding print
trim-print end h = trim-nil
trim-print (field name children is_leaf rest) h =
    trim_lem (print (field name children is_leaf rest))
      (print-StartsPlain name children is_leaf rest h.0)
      (print-EndsPlain name children is_leaf rest h)

until_close-print :
    (fields : FieldSelections)
    → IsPrintable fields
    → until_close 1 (print fields ++ b'}' ∷ []) ≡ print fields
unfolding until_close
until_close-print fields h =
    until_close-Balanced (print-Balanced fields h) 1 (b'}' ∷ []) (omega arith)
    ∙ append-nil (print fields)

module _ (inner : Text → FieldSelections) where
  -- What `parse_field_line` does with a trimmed line that is no comment.
  read_line : Text → FieldSelections → FieldSelections
  read_line s rest = elim (split_once b'{' s) [
    | none ↦ field s end true rest
    | some (before, after_open) ↦
        field (trim before) (inner (trim (until_close 1 after_open))) false rest
  ]

  parse_field_line_lem :
      (s : Text) (rest : FieldSelections)
      → trim s ≡ s
      → (p : StartsPlain s) → p.0 ≢ b'#'
      → parse_field_line inner s rest ≡ read_line s rest
  unfolding parse_field_line read_line
  parse_field_line_lem s rest e (c, cs, starts, h) no_comment =
      let t : trim s ≡ c ∷ cs = e ∙ starts in
      let b : (c == b'#') ≡ false = ground (arith, no_comment) in
      rw (parse_field_line, t, b) (rw starts refl)

  -- A printed line is read as its field, if its children are.
  parse_field_line-line :
      (name : Text) (children : FieldSelections) (is_leaf : Bool) (rest fields : FieldSelections)
      → IsPrintable (field name children is_leaf rest)
      → inner (print children) ≡ children
      → parse_field_line inner (trim (line name is_leaf (print children))) fields
        ≡ field name children is_leaf fields
  unfolding read_line
  parse_field_line-line name children true rest fields (n, leaf, c, r) below =
      let t = trim-line name (print children) true n in
      let read = parse_field_line_lem name fields t n.starts n.no_comment in
      let flat = split_once_absent b'{' name (no_brace name n.inside) in
      ap (λ s. parse_field_line inner s fields) t
      ∙ read
      ∙ rw (read_line, flat) (ap (λ k. field name k true fields) (sym leaf))
  parse_field_line-line name children false rest fields (n, leaf, c, r) below =
      let body = print children in
      let s = line name false body in
      let t = trim-line name body false n in
      let braces : Text = b'{' ∷ (body ++ b'}' ∷ []) in
      let p : StartsPlain s =
        (n.starts.0, n.starts.1 ++ braces, ap (λ u. u ++ braces) n.starts.2, n.starts.3) in
      let read = parse_field_line_lem s fields t p n.no_comment in
      let split = split_once_found b'{' name (body ++ b'}' ∷ []) (no_brace name n.inside) in
      let name_trimmed = trim_lem name n.starts n.ends in
      let inside : inner (trim (until_close 1 (body ++ b'}' ∷ []))) ≡ children =
        ap (λ u. inner (trim u)) (until_close-print children c)
        ∙ ap inner (trim-print children c)
        ∙ below in
      ap (λ u. parse_field_line inner u fields) t
      ∙ read
      ∙ rw (read_line, split, name_trimmed, inside) refl

  -- The loop takes a line over.
  scan-line :
      (name : Text) (children : FieldSelections) (is_leaf : Bool) (tail : Text)
      → IsFieldName name
      → IsPrintable children
      → scan inner 0 [] (line name is_leaf (print children) ++ tail)
        ≡ scan inner 0 (line name is_leaf (print children)) tail
  scan-line name children true tail n c = scan_inside inner name 0 [] tail n.inside
  scan-line name children false tail n c =
      let body = print children in
      ap (scan inner 0 []) (append_assoc name (b'{' ∷ (body ++ b'}' ∷ [])) tail)
      ∙ scan_inside inner name 0 [] (b'{' ∷ ((body ++ b'}' ∷ []) ++ tail)) n.inside
      ∙ braces
    where
      braces :
          scan inner 0 name (b'{' ∷ ((print children ++ b'}' ∷ []) ++ tail))
          ≡ scan inner 0 (line name false (print children)) tail
      braces =
          let body = print children in
          let inside =
            scan-Balanced inner (print-Balanced children c) 1 (name ++ b'{' ∷ []) (b'}' ∷ tail)
              (omega arith) in
          let whole : ((name ++ b'{' ∷ []) ++ body) ++ b'}' ∷ []
              ≡ name ++ b'{' ∷ (body ++ b'}' ∷ []) =
            simp append_assoc in
          unfold scan in
          (ap (scan inner 1 (name ++ b'{' ∷ [])) (append_assoc body (b'}' ∷ []) tail)
            ∙ inside
            ∙ ap (λ u. scan inner 0 u tail) whole)

  -- What ends a selection set: the text's end, or its closing brace.
  abbrev pub Ends : Text → Type 0
  Ends tail =
      (current : Text) → scan inner 0 current tail ≡ parse_field_line inner (trim current) end

  nil-Ends : Ends []
  unfolding scan
  nil-Ends current = refl

  pub brace-Ends : (behind : Text) → Ends (b'}' ∷ behind)
  unfolding scan
  brace-Ends behind current = refl

  scan-newline :
      (current tail : Text)
      → scan inner 0 current (newline ∷ tail)
        ≡ parse_field_line inner (trim current) (scan inner 0 [] tail)
  unfolding scan
  scan-newline current tail = refl

  -- One field of a list, with those behind it already read.
  scan_field :
      (name : Text) (children : FieldSelections) (is_leaf : Bool) (rest : FieldSelections)
      (tail : Text)
      → IsPrintable (field name children is_leaf rest)
      → inner (print children) ≡ children
      → Ends tail
      → scan inner 0 [] (print rest ++ tail) ≡ rest
      → scan inner 0 [] (print (field name children is_leaf rest) ++ tail)
        ≡ field name children is_leaf rest
  unfolding print
  scan_field name children is_leaf end tail h below ends read =
      let s = line name is_leaf (print children) in
      ap (λ u. scan inner 0 [] (u ++ tail)) (append-nil s)
      ∙ scan-line name children is_leaf tail h.0 h.2
      ∙ ends s
      ∙ parse_field_line-line name children is_leaf end end h below
  scan_field name children is_leaf (field name' children' is_leaf' rest) tail h below ends read =
      let s = line name is_leaf (print children) in
      let others = line name' is_leaf' (print children') ++ print_more rest in
      let more = field name' children' is_leaf' rest in
      ap (scan inner 0 []) (append_assoc s (newline ∷ others) tail)
      ∙ scan-line name children is_leaf (newline ∷ (others ++ tail)) h.0 h.2
      ∙ scan-newline s (others ++ tail)
      ∙ ap (parse_field_line inner (trim s)) read
      ∙ parse_field_line-line name children is_leaf more more h below

nothing_left : (inner : Text → FieldSelections) → parse_field_line inner (trim []) end ≡ end
unfolding parse_field_line trim
nothing_left inner = refl

-- A printed selection set is read back, at the end of a text or before a closing brace, with as much
-- fuel as the text is long.
pub parse_fields-print :
    (fields : FieldSelections) (fuel : ℕ) (tail : Text)
    → IsPrintable fields
    → length (print fields) < fuel
    → ((inner : Text → FieldSelections) → Ends inner tail)
    → parse_fields fuel (print fields ++ tail) ≡ fields
unfolding parse_fields print
parse_fields-print fields zero tail h enough ends = absurd (omega arith)
parse_fields-print end (suc fuel) tail h enough ends =
    ends (parse_fields fuel) [] ∙ nothing_left (parse_fields fuel)
parse_fields-print (field name children is_leaf rest) (suc fuel) tail h enough ends =
    let (deeper, wider) = length-print name children is_leaf rest h in
    let below =
      ap (parse_fields fuel) (sym (append-nil (print children)))
      ∙ parse_fields-print children fuel [] h.2 (omega arith) nil-Ends in
    scan_field (parse_fields fuel) name children is_leaf rest tail h below
      (ends (parse_fields fuel)) (parse_fields-print rest (suc fuel) tail h.3 (omega arith) ends)
