-- ===== src/Downstream/Bulk.antt =====
-- downstream/bulk.rs: the buffer in front of the `_bulk` API.
pub mod Accounts
use pg_x.Base.{
  ℕ, ◌+◌, Option, none, some, List, [], ◌∷◌, ◌++◌, Bool, true, false, leb, if◌then◌else◌,
}
use pg_x.Text.{Text, codes}
use pg_x.Replicate.Session.Gate.{join}

-- The fields of `Inner`, and the bodies that were posted, in order.
pub record BulkBuffer : Type 0 where
  pub lines : List Text
  pub item_count : ℕ
  pub posts : List Text

-- The action line of a document.
unfoldable pub action_line : Text → Option Text → Text
action_line index (some id) =
    codes "{\"index\":{\"_index\":\"" ++ (index ++ (codes "\",\"_id\":\"" ++ (id ++ codes "\"}}")))
action_line index none = codes "{\"index\":{\"_index\":\"" ++ (index ++ codes "\"}}")

unfoldable pub post_body : List Text → Text
unfolding join
post_body lines = join (codes "\n") lines ++ codes "\n"

flush_lines : Bool → List Text → BulkBuffer → Bool × BulkBuffer
unfolding post_body
flush_lines accepted [] b = (true, b)
flush_lines accepted (line ∷ lines) b = (
  accepted,
  record { lines = []; item_count = 0; posts = b.posts ++ post_body (line ∷ lines) ∷ [] },
)

-- `flush_inner`; the flag says whether the server accepts the body. The buffer is empty either way.
unfoldable pub flush : Bool → BulkBuffer → Bool × BulkBuffer
unfolding flush_lines
flush accepted b = flush_lines accepted b.lines b

-- `push` of a document by its text, which `serde_json::to_string` gives (`none` where it fails).
unfoldable pub push : ℕ → Bool → Text → Option Text → Option Text → BulkBuffer → Bool × BulkBuffer
unfolding action_line flush
push max_items accepted index id none b = (false, b)
push max_items accepted index id (some doc) b =
    let b' : BulkBuffer = record b {
      lines = b.lines ++ action_line index id ∷ doc ∷ [];
      item_count = b.item_count + 1;
    } in
    if leb max_items b'.item_count then flush accepted b' else (true, b')
