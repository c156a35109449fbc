-- ===== src/Graphql/Query/Print.antt =====
-- Selection sets as text that graphql/query.rs reads: a line for each field, and braces about the
-- fields below it.
use mathlib.Core.List.{append_assoc, append-nil}
use mathlib.Core.Path.{subst}
use pg_x.Base.{
  ◌+◌, ◌<◌, ◌≤◌, length, length-append, ℕ, ◌≡◌, ◌≢◌, refl, sym, ap, [], ◌∷◌, ◌++◌, Bool, true,
  false, All, arith,
}
use pg_x.Text.{Text}
use pg_x.Text.Split.Trimmed.{StartsPlain, EndsPlain, EndsPlain-append}
use pg_x.Graphql.Query.{FieldSelections, end, field, newline}

-- No brace and no end of a line.
abbrev pub IsInside : ℕ → Type 0
IsInside c = (c ≢ b'{') × (c ≢ b'}') × (c ≢ newline) × (c ≢ 0x0d)

-- A field with its arguments: a visible character at both ends, and no comment.
pub record IsFieldName (name : Text) : Type 0 where
  pub starts : StartsPlain name
  pub ends : EndsPlain name
  pub no_comment : starts.0 ≢ b'#'
  pub inside : All IsInside name

abbrev HasChildren : Bool → FieldSelections → Type 0
HasChildren true children = children ≡ end
HasChildren false children = Unit {0}

-- A leaf has no fields below it.
abbrev pub IsPrintable : FieldSelections → Type 0
IsPrintable end = Unit {0}
IsPrintable (field name children is_leaf rest) =
    IsFieldName name × HasChildren is_leaf children × IsPrintable children × IsPrintable rest

abbrev pub line : Text → Bool → Text → Text
line name true body = name
line name false body = name ++ b'{' ∷ (body ++ b'}' ∷ [])

unfoldable mutual
  pub print : FieldSelections → Text
  print end = []
  print (field name children is_leaf rest) = line name is_leaf (print children) ++ print_more rest

  pub print_more : FieldSelections → Text
  print_more end = []
  print_more (field name children is_leaf rest) =
      newline ∷ (line name is_leaf (print children) ++ print_more rest)

pub line-StartsPlain :
    (name body : Text) (is_leaf : Bool) → IsFieldName name → StartsPlain (line name is_leaf body)
line-StartsPlain name body true h = h.starts
line-StartsPlain name body false h =
    let (c, cs, e, k) = h.starts in
    (c, cs ++ b'{' ∷ (body ++ b'}' ∷ []), ap (λ s. s ++ b'{' ∷ (body ++ b'}' ∷ [])) e, k)

pub line-EndsPlain :
    (name body : Text) (is_leaf : Bool) → IsFieldName name → EndsPlain (line name is_leaf body)
line-EndsPlain name body true h = h.ends
line-EndsPlain name body false h =
    EndsPlain-append name (b'{' ∷ (body ++ b'}' ∷ []))
      (b'{' ∷ body, b'}', refl, (omega arith, omega arith))

print_more-EndsPlain :
    (s : Text) (fields : FieldSelections)
    → IsPrintable fields
    → EndsPlain s
    → EndsPlain (s ++ print_more fields)
unfolding print_more
print_more-EndsPlain s end h k = subst EndsPlain (sym (append-nil s)) k
print_more-EndsPlain s (field name children is_leaf rest) (n, l, c, r) k =
    let t = line name is_leaf (print children) in
    subst EndsPlain (append_assoc s (newline ∷ t) (print_more rest)) (
      print_more-EndsPlain (s ++ newline ∷ t) rest r (
        EndsPlain-append s (newline ∷ t)
          (EndsPlain-append (newline ∷ []) t (line-EndsPlain name (print children) is_leaf n))))

pub print-StartsPlain :
    (name : Text) (children : FieldSelections) (is_leaf : Bool) (rest : FieldSelections)
    → IsFieldName name
    → StartsPlain (print (field name children is_leaf rest))
unfolding print
print-StartsPlain name children is_leaf rest h =
    let (c, cs, e, k) = line-StartsPlain name (print children) is_leaf h in
    (c, cs ++ print_more rest, ap (λ s. s ++ print_more rest) e, k)

pub print-EndsPlain :
    (name : Text) (children : FieldSelections) (is_leaf : Bool) (rest : FieldSelections)
    → IsPrintable (field name children is_leaf rest)
    → EndsPlain (print (field name children is_leaf rest))
unfolding print
print-EndsPlain name children is_leaf rest (n, l, c, r) =
    print_more-EndsPlain (line name is_leaf (print children)) rest r
      (line-EndsPlain name (print children) is_leaf n)

-- The fields below are a shorter text than the field.
length-line : (name body : Text) → length (line name false body) ≡ length name + length body + 2
length-line name body =
    let whole = length-append name (b'{' ∷ (body ++ b'}' ∷ [])) in
    let inside = length-append body (b'}' ∷ []) in omega arith

name-ne-nil : (name : Text) → IsFieldName name → 0 < length name
name-ne-nil name h = let e = ap (length {A = ℕ}) h.starts.2 in omega arith

print-lt-line :
    (name : Text) (children : FieldSelections) (is_leaf : Bool) (rest : FieldSelections)
    → IsPrintable (field name children is_leaf rest)
    → length (print children) < length (line name is_leaf (print children))
unfolding print
print-lt-line name children true rest (n, leaf, c, r) = rw leaf (name-ne-nil name n)
print-lt-line name children false rest h = omega (arith, length-line name (print children))

print-le-print_more :
    (fields : FieldSelections) → length (print fields) ≤ length (print_more fields)
unfolding print
print-le-print_more end = omega arith
print-le-print_more (field name children is_leaf rest) = omega arith

pub length-print :
    (name : Text) (children : FieldSelections) (is_leaf : Bool) (rest : FieldSelections)
    → IsPrintable (field name children is_leaf rest)
    → (length (print children) < length (print (field name children is_leaf rest)))
      × (length (print rest) ≤ length (print (field name children is_leaf rest)))
unfolding print
length-print name children is_leaf rest h =
    let whole = length-append (line name is_leaf (print children)) (print_more rest) in
    let below = print-lt-line name children is_leaf rest h in
    let behind = print-le-print_more rest in (omega arith, omega arith)
