-- ===== src/Repository/Keyset.antt =====
-- Keyset pages: the cursors of repository/base.py, and the shape that `list_threads`, `list_items`
-- and `list` share, ORDER BY at DESC, id DESC with a row comparison against the cursor.
pub mod Cuts
pub mod Order
pub mod Walk
use blog_post.Base.{
  ℕ, suc, ◌+◌, Bool, true, false, String, Option, none, some, List, [], ◌∷◌, ltb, ◌==◌, ◌&&◌, ◌||◌,
  if◌then◌else◌,
}
use blog_post.Base.Tables.{filter_rows, take, length, sort_rows}
use blog_post.Errors.Category.{ErrorCategory}
use blog_post.Database.Interaction.{Page}
use blog_post.Database.Exec.{Error, Exec, pure, raise, ◌>>=◌, ◌>>◌}

-- The values under the two keys of a cursor, where they are there.
pub record Keys : Type 0 where
  pub at : Option ℕ
  pub id : Option ℕ

-- A decoded JSON value: an object, an object with a key that is no time or no id, or no object.
pub data Json : Type 0 where
  dict : Keys → Json
  unreadable other : Json

-- base64 and json: `loads` is `none` where one of them raises.
pub record CursorCodec : Type 0 where
  pub dumps : ℕ → ℕ → String
  pub loads : String → Option Json

unfoldable pub decode_cursor : CursorCodec → String → Exec Keys
decode_cursor codec cursor = elim (codec.loads cursor) [
  | none ↦ raise (Error.platform ErrorCategory.request_invalid)
  | some j ↦ elim j [
    | Json.dict keys ↦ pure keys
    | Json.unreadable ↦ raise Error.out_of_range
    | Json.other ↦ raise (Error.platform ErrorCategory.request_invalid)
  ]
]

-- No cursor, or one that is empty: the first page.
unfoldable pub decode_optional : CursorCodec → Option String → Exec (Option Keys)
unfolding decode_cursor
decode_optional codec none = pure none
decode_optional codec (some cursor) = do keys ← decode_cursor codec cursor; pure (some keys)

abbrev pub eq_and : ℕ → Option ℕ → Bool → Bool
eq_and t none b = false
eq_and t (some u) b = t == u && b

-- (at, id) < (cur_at, cur_id): NULL decides nothing, and leaves the row out where it is reached.
abbrev pub row_below : Option ℕ → ℕ → Keys → Bool
row_below none id keys = false
row_below (some t) id keys = elim keys.at [
  | none ↦ false
  | some u ↦ elim keys.id [ none ↦ ltb t u | some i ↦ ltb t u || (t == u && ltb id i) ]
]

abbrev pub is_beyond : Option Keys → Option ℕ → ℕ → Bool
is_beyond none at id = true
is_beyond (some keys) at id = row_below at id keys

-- Descending, NULL first.
abbrev pub comes_first : Option ℕ → ℕ → Option ℕ → ℕ → Bool
comes_first none i none j = ltb j i
comes_first none i (some u) j = true
comes_first (some t) i none j = false
comes_first (some t) i (some u) j = ltb u t || (t == u && ltb j i)

pub record Slice (A : Type 0) : Type 0 where
  pub items : List A
  -- The last of the items, where a page follows.
  pub next : Option A
  pub has_more : Bool

module _ {A : Type 0} where
  abbrev pub last_of : List A → Option A
  last_of [] = none
  last_of (x ∷ []) = some x
  last_of (x ∷ y ∷ ys) = last_of (y ∷ ys)

  -- One row more than the page was fetched.
  unfoldable pub slice : ℕ → List A → Slice A
  slice limit rows =
      let has_more = ltb limit (length rows) in
      record {
        items = take limit rows;
        next = if has_more then last_of (take limit rows) else none;
        has_more = has_more;
      }

  module _ (at : A → Option ℕ) (id : A → ℕ) where
    unfoldable pub order_by : List A → List A
    order_by rows = sort_rows (λ x y. comes_first (at x) (id x) (at y) (id y)) rows

    -- The rows that the statement fetches.
    unfoldable pub fetch : (A → Bool) → Option Keys → ℕ → List A → List A
    unfolding order_by
    fetch matches keys limit rows =
        take (limit + 1)
          (order_by (filter_rows (λ r. matches r && is_beyond keys (at r) (id r)) rows))

    unfoldable pub page_of : (A → Bool) → Option Keys → ℕ → List A → Slice A
    unfolding fetch slice
    page_of matches keys limit rows = slice limit (fetch matches keys limit rows)

    -- The cursor of a page: `isoformat` of a time that is NULL is an AttributeError.
    unfoldable pub cursor_after : CursorCodec → Option A → Exec (Option String)
    cursor_after codec none = pure none
    cursor_after codec (some row) = elim (at row) [
      | none ↦ raise Error.attribute_error
      | some t ↦ pure (some (codec.dumps t (id row)))
    ]

-- `limit or default`
unfoldable pub limit_or : ℕ → Option ℕ → ℕ
limit_or default none = default
limit_or default (some n) = if n == 0 then default else n
