-- ===== src/Database/Interaction.antt =====
-- contracts/interaction.py and the tables of migrations/003_interaction.sql.
use blog_post.Base.{ℕ, Bool, String, Option, List}

-- The body is taken as stripped: contracts strip it on the way in and again when it is read.
pub record Comment : Type 0 where
  pub id : ℕ
  pub blog_id : ℕ
  pub user_id : ℕ
  pub parent_comment_id : Option ℕ
  pub depth : ℕ
  pub body : String
  pub created_at : ℕ
  pub updated_at : ℕ
  pub deleted_at : Option ℕ
  -- A column that the contract leaves out.
  pub deleted_by : Option ℕ

pub record CommentThread : Type 0 where
  pub root : Comment
  pub replies : List Comment

pub data MarkerAnchor : Type 0 where
  section : String → ℕ → MarkerAnchor
  offset : ℕ → MarkerAnchor
  range : String → ℕ → String → ℕ → MarkerAnchor

-- The ratio, a double of at most one, is a number of units of 2^-1074, which divides every double.
pub record Marker : Type 0 where
  pub user_id : ℕ
  pub blog_id : ℕ
  pub anchor : MarkerAnchor
  pub progress_ratio : Option ℕ
  pub updated_at : ℕ

-- The row; `item_count` is computed where the catalogs of a user are listed.
pub record Catalog : Type 0 where
  pub id : ℕ
  pub user_id : ℕ
  pub name : String
  pub is_default : Bool
  pub created_at : ℕ
  pub updated_at : ℕ

pub record CatalogItem : Type 0 where
  pub catalog_id : ℕ
  pub blog_id : ℕ
  pub added_at : ℕ
  pub note : Option String

pub record Page (A : Type 0) : Type 0 where
  pub items : List A
  pub next_cursor : Option String
  pub has_more : Bool
