-- ===== src/Graphql/Schema/Defined.antt =====
-- The types that graphql/schema.rs reads from a file, against the names that it has collected.
use pg_x.Base.{
  ℕ, ◌+◌, ◌-◌, ◌==◌, ◌>>=◌, ◌≡◌, inl, inr, Bool-cases, Option-cases, Result, ok, err, List, [], ◌∷◌,
  ◌++◌, true, false, if◌then◌else◌, All,
}
use pg_x.Map.{text_key}
use pg_x.Text.{Text}
use pg_x.Text.Split.{split_once, trim}
use pg_x.Text.Ends.{starts_with, contains_char, trim_start_matches, trim_end_matches, lines}
use pg_x.Graphql.Query.{newline}
use pg_x.Graphql.TypeBody.{
  RelationDef, ObjectType, SchemaError, unsupported, undefined_list_type, unknown_type, Member,
  left_out, scalar, relation, Members, type_keyword, one_of, is_scalar, list_member, member_of_type,
  member, with_member, members, body_tokens, parse_fields_and_relations,
}
use pg_x.Graphql.Schema.{
  unsupported_keywords, keyword_of, type_name_of, with_type, is_inline, inline_body, types_of,
  types_from,
}
use pg_x.Graphql.Schema.Names.{begun_by, keyword_of-some}

module _ (names : List Text) where
  -- What a relation leads to is among the names, and no scalar.
  abbrev pub IsKnown : RelationDef → Type 0
  IsKnown r = (one_of names r.type_name ≡ true) × (is_scalar r.type_name ≡ false)

  abbrev pub IsDefined : ObjectType → Type 0
  IsDefined t = (one_of names t.name ≡ true) × All IsKnown t.relations

  IsKnownMember : Member → Type 0
  IsKnownMember left_out = Unit {0}
  IsKnownMember (scalar f) = Unit {0}
  IsKnownMember (relation r) = IsKnown r

  abbrev HasKnown : Members → Type 0
  HasKnown m = All IsKnown m.1

  with_member-IsKnown :
      (m : Member) (behind : Members)
      → IsKnownMember m
      → All IsKnown behind.1
      → All IsKnown (with_member m behind).1
  unfolding with_member IsKnownMember
  with_member-IsKnown left_out behind k h = h
  with_member-IsKnown (scalar f) behind k h = h
  with_member-IsKnown (relation r) behind k h = (k, h)

module _ (names all_lines : List Text) where
  -- What makes a file be refused: a word that begins one of the lines, or a type that no file names.
  abbrev pub IsRefused : SchemaError → Type 0
  IsRefused (unsupported kw) =
      (one_of unsupported_keywords kw ≡ true) × (begun_by all_lines kw ≡ true)
  IsRefused (undefined_list_type t name) = (one_of names t ≡ false) × (is_scalar t ≡ false)
  IsRefused (unknown_type t name) = (one_of names t ≡ false) × (is_scalar t ≡ false)

  abbrev pub Means {κ} : {A : Type κ} → (A → Type 0) → Result SchemaError A → Type 0
  Means P (ok a) = P a
  Means P (err e) = IsRefused e

  pub Means->>= {κ μ} :
      {A : Type κ} {B : Type μ} (P : A → Type 0) (Q : B → Type 0) (r : Result SchemaError A)
      (next : A → Result SchemaError B)
      → Means P r
      → ((a : A) → P a → Means Q (next a))
      → Means Q (r >>= next)
  Means->>= P Q (ok a) next p f = f a p
  Means->>= P Q (err e) next p f = p

  list_member-IsKnownMember :
      (name inner : Text) → Means (IsKnownMember names) (list_member names name inner)
  unfolding list_member IsKnownMember
  list_member-IsKnownMember name inner = elim (Bool-cases (is_scalar inner)) [
    | inl here ↦ rw (list_member, here) tt
    | inr other ↦ elim (Bool-cases (one_of names inner)) [
      | inl known ↦ rw (list_member, other, known) (known, other)
      | inr unknown ↦ rw (list_member, other, unknown) (unknown, other)
    ]
  ]

  member_of_type-IsKnownMember :
      (name base_type : Text) → Means (IsKnownMember names) (member_of_type names name base_type)
  unfolding member_of_type IsKnownMember
  member_of_type-IsKnownMember name base_type =
      elim (Bool-cases (starts_with (b'[' ∷ []) base_type)) [
        | inl list ↦
            rw (member_of_type, list)
              (list_member-IsKnownMember name
                (trim_end_matches b'!' (trim_end_matches b']' (trim_start_matches b'[' base_type))))
        | inr single ↦ elim (Bool-cases (is_scalar base_type)) [
          | inl here ↦ rw (member_of_type, single, here) tt
          | inr other ↦ elim (Bool-cases (one_of names base_type)) [
            | inl known ↦ rw (member_of_type, single, other, known) (known, other)
            | inr unknown ↦ rw (member_of_type, single, other, unknown) (unknown, other)
          ]
        ]
      ]

  member-IsKnownMember : (token : Text) → Means (IsKnownMember names) (member names token)
  unfolding member IsKnownMember
  member-IsKnownMember token = elim (Option-cases (split_once b':' token)) [
    | inl absent ↦ rw (member, absent) tt
    | inr ((name, type_str), there) ↦
        rw (member, there)
          (member_of_type-IsKnownMember (trim name) (trim_end_matches b'!' (trim type_str)))
  ]

  members-IsKnown : (tokens : List Text) → Means (HasKnown names) (members names tokens)
  unfolding members
  members-IsKnown [] = tt
  members-IsKnown (token ∷ tokens) =
      Means->>= (IsKnownMember names) (HasKnown names) (member names token) _
        (member-IsKnownMember token)
        (λ m k.
          Means->>= (HasKnown names) (HasKnown names) (members names tokens) _
            (members-IsKnown tokens) (λ behind h. with_member-IsKnown names m behind k h))

  body-IsKnown : (body : Text) → Means (HasKnown names) (parse_fields_and_relations body names)
  unfolding parse_fields_and_relations
  body-IsKnown body = members-IsKnown (body_tokens (lines body))

  with_type-IsDefined :
      (name body : Text) (others : Result SchemaError (List ObjectType))
      → one_of names name ≡ true
      → Means (All (IsDefined names)) others
      → Means (All (IsDefined names)) (with_type names name body others)
  unfolding with_type
  with_type-IsDefined name body others n h =
      Means->>= (HasKnown names) (All (IsDefined names)) (parse_fields_and_relations body names) _
        (body-IsKnown body)
        (λ m k.
          Means->>= (All (IsDefined names)) (All (IsDefined names)) others _ h
            (λ behind b. ((n, k), b)))

  -- The types that lines begin are among the names, and the words among those of all lines.
  abbrev pub IsNamed : Text → Type 0
  IsNamed line =
      (starts_with type_keyword (trim line) ≡ true → one_of names (type_name_of (trim line)) ≡ true)
      × ((w : Text) → starts_with w (trim line) ≡ true → begun_by all_lines w ≡ true)

  -- Either loop, from a list of lines on.
  abbrev pub AreDefined : List Text → Type 0
  AreDefined ls =
      Means (All (IsDefined names)) (types_of names ls)
      × ((name : Text) (depth : ℕ) (body : Text)
          → one_of names name ≡ true
          → Means (All (IsDefined names)) (types_from names name depth body ls))

  types_of-cons :
      (line : Text) (rest : List Text)
      → IsNamed line
      → AreDefined rest
      → Means (All (IsDefined names)) (types_of names (line ∷ rest))
  unfolding types_of
  types_of-cons line rest named (outer, inner) =
      elim (Bool-cases (starts_with type_keyword (trim line))) [
        | inl begins ↦ elim (Bool-cases (is_inline (trim line))) [
          | inl here ↦
              rw (types_of, begins, here)
                (with_type-IsDefined (type_name_of (trim line)) (inline_body (trim line))
                  (types_of names rest) (named.0 begins) outer)
          | inr below ↦
              rw (types_of, begins, below) (inner (type_name_of (trim line)) 1 [] (named.0 begins))
        ]
        | inr other ↦ elim (Option-cases (keyword_of unsupported_keywords (trim line))) [
          | inl plain ↦ rw (types_of, other, plain) outer
          | inr (kw, refused) ↦
              let (known, begins) = keyword_of-some unsupported_keywords (trim line) kw refused in
              rw (types_of, other, refused) (known, named.1 kw begins)
        ]
      ]

  types_from-cons :
      (l : Text) (rest : List Text)
      → AreDefined rest
      → (name : Text) (depth : ℕ) (body : Text) → one_of names name ≡ true
      → Means (All (IsDefined names)) (types_from names name depth body (l ∷ rest))
  unfolding types_from
  types_from-cons l rest (outer, inner) name depth body n =
      let opened = (if contains_char b'{' (trim l) then depth + 1 else depth) in
      let longer = body ++ (l ++ newline ∷ []) in
      elim (Bool-cases (contains_char b'}' (trim l))) [
        | inl closes ↦ elim (Bool-cases (opened - 1 == 0)) [
          | inl last ↦
              rw (types_from, closes, last)
                (with_type-IsDefined name body (types_of names rest) n outer)
          | inr within ↦ rw (types_from, closes, within) (inner name (opened - 1) longer n)
        ]
        | inr level ↦ rw (types_from, level) (inner name opened longer n)
      ]

  pub types_of-AreDefined : (ls : List Text) → All IsNamed ls → AreDefined ls
  unfolding types_of types_from
  types_of-AreDefined [] h = (tt, λ name depth body n. with_type-IsDefined name body (ok []) n tt)
  types_of-AreDefined (line ∷ rest) (k, h) =
      let behind = types_of-AreDefined rest h in
      (types_of-cons line rest k behind, types_from-cons line rest behind)
