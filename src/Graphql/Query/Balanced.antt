-- ===== src/Graphql/Query/Balanced.antt =====
-- Texts whose braces are balanced, under the two walks of graphql/query.rs.
use mathlib.Core.List.{append_assoc, append-nil}
use mathlib.Core.Path.{subst}
use pg_x.Base.{
  ℕ, ◌+◌, ◌-◌, ◌<◌, ◌==◌, ◌≡◌, ◌≢◌, refl, sym, ap, ◌∙◌, [], ◌∷◌, ◌++◌, Bool, true, false, All,
  arith,
}
use pg_x.Text.{Text}
use pg_x.Graphql.Query.{FieldSelections, end, field, newline, until_close, scan}
use pg_x.Graphql.Query.Print.{IsInside, IsFieldName, IsPrintable, line, print, print_more}

pub data Balanced : Text → Type 0 where
  none_open : Balanced []
  char : (c : ℕ) {t : Text} → c ≢ b'{' → c ≢ b'}' → c ≢ 0x0d → Balanced t → Balanced (c ∷ t)
  block : {a b : Text} → Balanced a → Balanced b → Balanced (b'{' ∷ (a ++ b'}' ∷ b))

pub until_close-Balanced :
    {t : Text}
    → Balanced t
    → (depth : ℕ) (rest : Text) → 0 < depth
    → until_close depth (t ++ rest) ≡ t ++ until_close depth rest
unfolding until_close
until_close-Balanced none_open depth rest h = refl
until_close-Balanced (char c o s r b) depth rest h =
    ground (arith, until_close-Balanced b depth rest h)
until_close-Balanced (block {a} {b} inner behind) depth rest h =
    let back : depth + 1 - 1 ≡ depth = omega arith in
    let open_one : (depth + 1 == 1) ≡ false = ground arith in
    let inside = until_close-Balanced inner (depth + 1) (b'}' ∷ (b ++ rest)) (omega arith) in
    let after = until_close-Balanced behind depth rest h in
    ap (λ u. b'{' ∷ until_close (depth + 1) u) (append_assoc a (b'}' ∷ b) rest)
    ∙ ap (λ u. b'{' ∷ u)
        (inside
          ∙ rw (until_close, open_one, back, after)
              (sym (append_assoc a (b'}' ∷ b) (until_close depth rest))))

module _ (inner : Text → FieldSelections) where
  pub scan_inside :
      (t : Text) (depth : ℕ) (current rest : Text)
      → All IsInside t
      → scan inner depth current (t ++ rest) ≡ scan inner depth (current ++ t) rest
  unfolding scan
  scan_inside [] depth current rest h = ap (λ u. scan inner depth u rest) (sym (append-nil current))
  scan_inside (c ∷ t) depth current rest ((o, s, n, r), h) =
      let more = scan_inside t depth (current ++ c ∷ []) rest h in
      let e = append_assoc current (c ∷ []) t in ground (arith, more, e)

  -- Within braces a balanced text is taken over as it stands.
  pub scan-Balanced :
      {t : Text}
      → Balanced t
      → (depth : ℕ) (current rest : Text) → 0 < depth
      → scan inner depth current (t ++ rest) ≡ scan inner depth (current ++ t) rest
  unfolding scan
  scan-Balanced none_open depth current rest h =
      ap (λ u. scan inner depth u rest) (sym (append-nil current))
  scan-Balanced (char c {t} o s r b) depth current rest h =
      let more = scan-Balanced b depth (current ++ c ∷ []) rest h in
      let e = append_assoc current (c ∷ []) t in ground (arith, more, e)
  scan-Balanced (block {a} {b} inside behind) depth current rest h =
      let back : depth + 1 - 1 ≡ depth = omega arith in
      let open_one : (depth + 1 == 0) ≡ false = ground arith in
      let first =
        scan-Balanced inside (depth + 1) (current ++ b'{' ∷ []) (b'}' ∷ (b ++ rest))
          (omega arith) in
      let after = scan-Balanced behind depth (((current ++ b'{' ∷ []) ++ a) ++ b'}' ∷ []) rest h in
      let whole : (((current ++ b'{' ∷ []) ++ a) ++ b'}' ∷ []) ++ b
          ≡ current ++ b'{' ∷ (a ++ b'}' ∷ b) =
        simp append_assoc in
      ap (λ u. scan inner (depth + 1) (current ++ b'{' ∷ []) u) (append_assoc a (b'}' ∷ b) rest)
      ∙ first
      ∙ rw (scan, open_one, back, after, whole) refl

inside-Balanced : (t rest : Text) → All IsInside t → Balanced rest → Balanced (t ++ rest)
inside-Balanced [] rest h b = b
inside-Balanced (c ∷ t) rest ((o, s, n, r), h) b = char c o s r (inside-Balanced t rest h b)

line-Balanced :
    (name body : Text) (is_leaf : Bool) (rest : Text)
    → IsFieldName name
    → Balanced body
    → Balanced rest
    → Balanced (line name is_leaf body ++ rest)
line-Balanced name body true rest n b r = inside-Balanced name rest n.inside r
line-Balanced name body false rest n b r =
    subst Balanced (sym (append_assoc name (b'{' ∷ (body ++ b'}' ∷ [])) rest)) (
      inside-Balanced name _ n.inside (
        subst Balanced (ap (λ u. b'{' ∷ u) (sym (append_assoc body (b'}' ∷ []) rest))) (block b r)))

mutual
  unfolding print

  print_braces : (fields : FieldSelections) → IsPrintable fields → Balanced (print fields)
  print_braces end h = none_open
  print_braces (field name children is_leaf rest) (n, l, c, r) =
      line-Balanced name (print children) is_leaf (print_more rest) n (print_braces children c)
        (print_more_braces rest r)

  print_more_braces : (fields : FieldSelections) → IsPrintable fields → Balanced (print_more fields)
  print_more_braces end h = none_open
  print_more_braces (field name children is_leaf rest) (n, l, c, r) =
      char newline (λ e. omega (arith, e)) (λ e. omega (arith, e)) (λ e. omega (arith, e))
        (line-Balanced name (print children) is_leaf (print_more rest) n (print_braces children c)
          (print_more_braces rest r))

pub print-Balanced : (fields : FieldSelections) → IsPrintable fields → Balanced (print fields)
print-Balanced fields h = print_braces fields h
