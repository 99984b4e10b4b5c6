-- ===== src/Repository/Text.antt =====
-- What PostgreSQL's functions on text answer: parameters.
use Prim.Native.String.{count}
use blog_post.Base.{ℕ, Bool, String, leb, ◌&&◌}

pub record PgText : Type 0 where
  pub btrim : String → String
  pub lower : String → String
  -- text ~ '^[a-z0-9]+(-[a-z0-9]+)*$'
  pub is_key : String → Bool
  -- The order of the collation.
  pub precedes : String → String → Bool

-- length(btrim(text)) BETWEEN 1 AND most
unfoldable pub fits : PgText → ℕ → String → Bool
fits pg most text = leb 1 (count (pg.btrim text)) && leb (count (pg.btrim text)) most

-- length(btrim(text)) > 0
unfoldable pub is_filled : PgText → String → Bool
is_filled pg text = leb 1 (count (pg.btrim text))
