-- ===== src/Downstream/Bulk/Accounts.antt =====
-- What becomes of the documents that are pushed into the buffer of downstream/bulk.rs.
use pg_x.Base.{
  ℕ, ◌+◌, ◌*◌, ◌<◌, ◌≡◌, refl, sym, ap, ◌∙◌, inl, inr, Option, none, some, List, [], ◌∷◌, ◌++◌,
  Bool, leb, length, length-append, arith, Bool-cases,
}
use mathlib.Core.List.{append_assoc, append-nil}
use pg_x.Text.{Text, codes}
use pg_x.Replicate.Session.Gate.{join}
use pg_x.Downstream.Bulk.{BulkBuffer, action_line, post_body, flush_lines, flush, push}

-- Lines, each with its newline.
abbrev pub terminated : List Text → Text
terminated [] = []
terminated (line ∷ lines) = line ++ (codes "\n" ++ terminated lines)

abbrev pub concat : List Text → Text
concat [] = []
concat (x ∷ xs) = x ++ concat xs

-- All that was posted, with what the buffer would post behind it.
abbrev pub total : BulkBuffer → Text
total b = concat b.posts ++ terminated b.lines

post_body-terminated :
    (line : Text) (lines : List Text) → post_body (line ∷ lines) ≡ terminated (line ∷ lines)
unfolding post_body join
post_body-terminated line [] = refl
post_body-terminated line (next ∷ lines) =
    append_assoc line (codes "\n" ++ join (codes "\n") (next ∷ lines)) (codes "\n")
    ∙ ap (λ r. line ++ (codes "\n" ++ r)) (post_body-terminated next lines)

terminated-append : (xs ys : List Text) → terminated (xs ++ ys) ≡ terminated xs ++ terminated ys
terminated-append [] ys = refl
terminated-append (x ∷ xs) ys =
    ap (λ r. x ++ (codes "\n" ++ r)) (terminated-append xs ys)
    ∙ sym (append_assoc x (codes "\n" ++ terminated xs) (terminated ys))

concat-append : (xs : List Text) (y : Text) → concat (xs ++ y ∷ []) ≡ concat xs ++ y
concat-append [] y = append-nil y
concat-append (x ∷ xs) y =
    ap (λ r. x ++ r) (concat-append xs y) ∙ sym (append_assoc x (concat xs) y)

total-flush_lines :
    (accepted : Bool) (lines : List Text) (b : BulkBuffer)
    → b.lines ≡ lines
    → total (flush_lines accepted lines b).1 ≡ concat b.posts ++ terminated lines
unfolding flush_lines
total-flush_lines accepted [] b e = ap (λ l. concat b.posts ++ terminated l) e
total-flush_lines accepted (line ∷ lines) b e =
    append-nil (concat (b.posts ++ post_body (line ∷ lines) ∷ []))
    ∙ concat-append b.posts (post_body (line ∷ lines))
    ∙ ap (λ r. concat b.posts ++ r) (post_body-terminated line lines)

total-flush : (accepted : Bool) (b : BulkBuffer) → total (flush accepted b).1 ≡ total b
unfolding flush
total-flush accepted b = total-flush_lines accepted b.lines b refl

-- Behind a push, what was posted with what is still buffered is what it was before and the document's
-- two lines, whether or not the push flushes.
total-push :
    (max_items : ℕ) (accepted : Bool) (index : Text) (id : Option Text) (doc : Text)
    (b : BulkBuffer)
    → total (push max_items accepted index id (some doc) b).1
      ≡ total b ++ terminated (action_line index id ∷ doc ∷ [])
unfolding push
total-push max_items accepted index id doc b =
    let added = action_line index id ∷ doc ∷ [] in
    let b' : BulkBuffer = record b { lines = b.lines ++ added; item_count = b.item_count + 1 } in
    let grown : total b' ≡ total b ++ terminated added =
      ap (λ r. concat b.posts ++ r) (terminated-append b.lines added)
      ∙ sym (append_assoc (concat b.posts) (terminated b.lines) (terminated added)) in
    elim (Bool-cases (leb max_items (b.item_count + 1))) [
      | inl e ↦ rw e (total-flush accepted b' ∙ grown)
      | inr e ↦ rw e grown
    ]

-- Two lines for each counted document, and fewer documents than the threshold.
pub record IsBuffer (max_items : ℕ) (b : BulkBuffer) : Type 0 where
  pub counted : length b.lines ≡ b.item_count * 2
  pub below : b.item_count < max_items

flush_lines-IsBuffer :
    (max_items : ℕ) (accepted : Bool) (lines : List Text) (b : BulkBuffer)
    → 0 < max_items
    → b.lines ≡ lines
    → length b.lines ≡ b.item_count * 2
    → IsBuffer max_items (flush_lines accepted lines b).1
unfolding flush_lines
flush_lines-IsBuffer max_items accepted [] b pos e h = record {
  counted = h;
  below = omega (arith, ap length e);
}
flush_lines-IsBuffer max_items accepted (line ∷ lines) b pos e h = record {
  counted = refl;
  below = pos;
}

-- With a threshold above 0, every push leaves two lines for each counted document, and fewer documents
-- than the threshold: it flushes in time, whatever the server answers.
push-IsBuffer :
    (max_items : ℕ) (accepted : Bool) (index : Text) (id doc : Option Text) (b : BulkBuffer)
    → IsBuffer max_items b
    → IsBuffer max_items (push max_items accepted index id doc b).1
unfolding push flush
push-IsBuffer max_items accepted index id none b h = h
push-IsBuffer max_items accepted index id (some doc) b h =
    let added = action_line index id ∷ doc ∷ [] in
    let b' : BulkBuffer = record b { lines = b.lines ++ added; item_count = b.item_count + 1 } in
    let counted : length b'.lines ≡ b'.item_count * 2 =
      omega (arith, length-append b.lines added, h.counted) in
    elim (Bool-cases (leb max_items (b.item_count + 1))) [
      | inl e ↦ rw e (
          flush_lines-IsBuffer max_items accepted b'.lines b' (omega (arith, h.below)) refl counted)
      | inr e ↦ rw e (record { counted = counted; below = ground arith })
    ]
