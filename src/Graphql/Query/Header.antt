-- ===== src/Graphql/Query/Header.antt =====
-- The variables of a query document that graphql/query.rs reads.
use mathlib.Core.Path.{subst}
use mathlib.Core.List.{reverse, reverse-append, reverse-reverse, append-nil}
use pg_x.Base.{
  ℕ, ◌==◌, ◌≡◌, ◌≢◌, refl, sym, ap, ◌∙◌, List, [], ◌∷◌, ◌++◌, Bool, true, false, All, arith,
}
use pg_x.Text.{Text}
use pg_x.Text.Split.{split, strip_prefix, trim}
use pg_x.Text.Split.Found.{split_once_found, split_found, split_absent}
use pg_x.Text.Split.Trimmed.{StartsPlain, EndsPlain, EndsPlain-append, trim_lem}
use pg_x.Graphql.Query.{VariableDef, variable, variables_of}
use pg_x.Text.Ends.{ends_with, trim_start_matches, trim_end_matches}

-- None of the signs that a header is taken apart by.
abbrev pub IsWordChar : ℕ → Type 0
IsWordChar c = (c ≢ b'{') × (c ≢ b'(') × (c ≢ b',') × (c ≢ b':') × (c ≢ b'!')

pub record IsWord (w : Text) : Type 0 where
  pub starts : StartsPlain w
  pub ends : EndsPlain w
  pub chars : All IsWordChar w

abbrev mark : Bool → Text
mark true = b'!' ∷ []
mark false = []

abbrev pub print_variable : VariableDef → Text
print_variable v = b'$' ∷ (v.name ++ b':' ∷ (v.var_type ++ mark v.required))

unfoldable pub print_variables : List VariableDef → Text
print_variables [] = []
print_variables (v ∷ []) = print_variable v
print_variables (v ∷ w ∷ vs) = print_variable v ++ b',' ∷ print_variables (w ∷ vs)

abbrev pub IsVariable : VariableDef → Type 0
IsVariable v = IsWord v.name × IsWord v.var_type

reverse-ends : (w init : Text) (c : ℕ) → w ≡ init ++ c ∷ [] → reverse w ≡ c ∷ reverse init
reverse-ends w init c e = ap reverse e ∙ reverse-append init (c ∷ [])

last_char : (init : Text) (c : ℕ) → All IsWordChar (init ++ c ∷ []) → c ≢ b'!'
last_char [] c (h, t) = h.4
last_char (x ∷ init) c (h, t) = last_char init c t

unmarked : (w : Text) → IsWord w → trim_start_matches b'!' (reverse w) ≡ reverse w
unfolding trim_start_matches
unmarked w h =
    let (init, c, e, p) = h.ends in
    let k = last_char init c (subst (All IsWordChar) e h.chars) in
    let b : (c == b'!') ≡ false = ground (arith, k) in
    rw (reverse-ends w init c e, trim_start_matches, b) refl

word_unmarked : (w : Text) → IsWord w → ends_with b'!' w ≡ false
unfolding ends_with
word_unmarked w h =
    let (init, c, e, p) = h.ends in
    let k = last_char init c (subst (All IsWordChar) e h.chars) in
    let b : (c == b'!') ≡ false = ground (arith, k) in
    rw (ends_with, reverse-ends w init c e, b) refl

-- The type without its mark, and the mark.
type_read : (w : Text) (required : Bool) → IsWord w → trim_end_matches b'!' (w ++ mark required) ≡ w
unfolding trim_end_matches trim_start_matches
type_read w true h =
    rw (reverse-append w (b'!' ∷ [])) (ap reverse (unmarked w h) ∙ reverse-reverse w)
type_read w false h = rw (append-nil w) (ap reverse (unmarked w h) ∙ reverse-reverse w)

mark_read : (w : Text) (required : Bool) → IsWord w → ends_with b'!' (w ++ mark required) ≡ required
unfolding ends_with
mark_read w true h = rw (ends_with, reverse-append w (b'!' ∷ [])) refl
mark_read w false h = ap (ends_with b'!') (append-nil w) ∙ word_unmarked w h

marked-EndsPlain : (w : Text) (required : Bool) → IsWord w → EndsPlain (w ++ mark required)
marked-EndsPlain w true h = (w, b'!', refl, (omega arith, omega arith))
marked-EndsPlain w false h = subst EndsPlain (sym (append-nil w)) h.ends

marked-StartsPlain : (w : Text) (required : Bool) → IsWord w → StartsPlain (w ++ mark required)
marked-StartsPlain w required h =
    let (c, cs, e, p) = h.starts in (c, cs ++ mark required, ap (λ u. u ++ mark required) e, p)

no_colon : (w : Text) → All IsWordChar w → All (λ c. c ≢ b':') w
no_colon [] h = tt
no_colon (c ∷ w) (k, h) = (k.3, no_colon w h)

variable_lem :
    (v : VariableDef) (rest : List VariableDef)
    → IsVariable v
    → variable (print_variable v) rest ≡ v ∷ rest
unfolding variable strip_prefix
variable_lem v rest (n, t) =
    let marked = v.var_type ++ mark v.required in
    let whole =
      trim_lem (print_variable v) (b'$', v.name ++ b':' ∷ marked, refl, (omega arith, omega arith))
        (EndsPlain-append (b'$' ∷ v.name) (b':' ∷ marked)
          (EndsPlain-append (b':' ∷ []) marked (marked-EndsPlain v.var_type v.required t))) in
    let parted = split_once_found b':' v.name marked (no_colon v.name n.chars) in
    let named = trim_lem v.name n.starts n.ends in
    let typed =
      trim_lem marked (marked-StartsPlain v.var_type v.required t)
        (marked-EndsPlain v.var_type v.required t) in
    rw
      (
        variable,
        whole,
        parted,
        named,
        typed,
        type_read v.var_type v.required t,
        mark_read v.var_type v.required t,
      )
      refl

pub All-append : (P : ℕ → Type 0) (s t : Text) → All P s → All P t → All P (s ++ t)
All-append P [] t h k = k
All-append P (c ∷ s) t (p, h) k = (p, All-append P s t h k)

-- A sign that stands in no printed variable.
abbrev pub NoSign : ℕ → ℕ → Type 0
NoSign sign c = c ≢ sign

module _ (sign : ℕ) (words : (w : Text) → All IsWordChar w → All (NoSign sign) w)
    (not_dollar : b'$' ≢ sign) (not_colon : b':' ≢ sign) (not_mark : b'!' ≢ sign) where
  print_variable_free : (v : VariableDef) → IsVariable v → All (NoSign sign) (print_variable v)
  print_variable_free v (n, t) = (
    not_dollar,
    All-append (NoSign sign) v.name _ (words v.name n.chars) (
      not_colon,
      All-append (NoSign sign) v.var_type (mark v.required) (words v.var_type t.chars)
          (marked v.required),
    ),
  )
    where
      marked : (required : Bool) → All (NoSign sign) (mark required)
      marked true = (not_mark, tt)
      marked false = tt

  pub print_variables_free :
      b',' ≢ sign
      → (vs : List VariableDef) → All IsVariable vs
      → All (NoSign sign) (print_variables vs)
  unfolding print_variables
  print_variables_free not_comma [] h = tt
  print_variables_free not_comma (v ∷ []) (p, h) = print_variable_free v p
  print_variables_free not_comma (v ∷ w ∷ vs) (p, h) =
      All-append (NoSign sign) (print_variable v) _ (print_variable_free v p)
        (not_comma, print_variables_free not_comma (w ∷ vs) h)

no_comma : (w : Text) → All IsWordChar w → All (NoSign b',') w
no_comma [] h = tt
no_comma (c ∷ w) (k, h) = (k.2, no_comma w h)

pub no_open_brace : (w : Text) → All IsWordChar w → All (NoSign b'{') w
no_open_brace [] h = tt
no_open_brace (c ∷ w) (k, h) = (k.0, no_open_brace w h)

pub no_parenthesis : (w : Text) → All IsWordChar w → All (NoSign b'(') w
no_parenthesis [] h = tt
no_parenthesis (c ∷ w) (k, h) = (k.1, no_parenthesis w h)

pub variables_read :
    (vs : List VariableDef)
    → All IsVariable vs
    → variables_of (split b',' (print_variables vs)) ≡ vs
unfolding variables_of print_variables
variables_read [] h = none_there
  where
    none_there : variables_of (split b',' []) ≡ []
    none_there = unfold split in unfold variable in unfold trim in unfold strip_prefix in refl
variables_read (v ∷ []) (p, h) =
    let alone = split_absent b',' (print_variable v) (
      print_variable_free b',' no_comma (λ e. omega (arith, e)) (λ e. omega (arith, e))
        (λ e. omega (arith, e)) v p) in
    ap variables_of alone ∙ variable_lem v [] p
variables_read (v ∷ w ∷ vs) (p, h) =
    let first = split_found b',' (print_variable v) (print_variables (w ∷ vs)) (
      print_variable_free b',' no_comma (λ e. omega (arith, e)) (λ e. omega (arith, e))
        (λ e. omega (arith, e)) v p) in
    ap variables_of first
    ∙ ap (variable (print_variable v)) (variables_read (w ∷ vs) h)
    ∙ variable_lem v (w ∷ vs) p
